-- ===== src/Store/Laws.antt =====
-- What a write can leave behind.
use vaultwarden_cli.Base.{◌≡◌, ◌⊎◌, true, ok, err, arith}
use vaultwarden_cli.Host.{Host}
use vaultwarden_cli.State.Types.{ProviderState, ProviderDiagnostic}
use vaultwarden_cli.State.Validate.{state_valid}
use vaultwarden_cli.Store.{ProviderStore, WriteRun, write_state_guarded}

module _ ⦃h : Host⦄ (s : ProviderStore) (next : ProviderState) (run : WriteRun) where
  -- A write is atomic. It succeeds with the new state; or it fails and leaves the store; or it
  -- fails after the rename with the new state, and the store is poisoned. What is written is valid.
  pub write-atomic :
      let (r, s') = write_state_guarded s next run in
      ((r ≡ ok tt)
        × (s' ≡ record s { durable = next })
        × (state_valid next s.owner_uid ≡ true)
        × (run.before ≡ true)
        × (run.after ≡ true))
      ⊎ (((e : ProviderDiagnostic) × (r ≡ err e) × (s' ≡ s))
          ⊎ ((r ≡ err ProviderDiagnostic.persistence_failure)
              × (s' ≡ record s { durable = next; poisoned = true })
              × (state_valid next s.owner_uid ≡ true)))
  unfolding write_state_guarded
  write-atomic = ground arith
