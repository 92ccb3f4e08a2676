-- ===== src/Provider/Settles.antt =====
-- What a lock of the provider leaves on disk.
use vaultwarden_cli.Base.{◌≡◌, refl, sym, ap, ◌∙◌, true, false, Result, ok, err, inl, inr, ◌>>=◌}
use vaultwarden_cli.Host.{Host}
use vaultwarden_cli.State.Types.{ProviderState, ProviderDiagnostic}
use vaultwarden_cli.Store.{
  ProviderStore, WriteRun, Io, write_state_guarded, write_state, invalidated_state,
}
use vaultwarden_cli.Store.Laws.{write-atomic}
use vaultwarden_cli.Provider.Defs.{
  Provider, Plan, write, keep, answer, carry_out, commit, transact, invalidate_with, lock,
  ProviderLockState,
}
use vaultwarden_cli.Provider.Transact.{planned_read}

module _ ⦃h : Host⦄ where
  -- What a plan that was carried out with success has left on disk.
  Wrote : {A : Type 0} → Plan A → ProviderState → Type 0
  Wrote (write s a) t = t ≡ s
  Wrote (keep s a) t = Unit {0}
  Wrote (answer a) t = Unit {0}

  written :
      (s : ProviderStore) (next : ProviderState) (run : WriteRun)
      → (write_state_guarded s next run).0 ≡ ok tt
      → (write_state_guarded s next run).1.durable ≡ next
  written s next run q = elim (write-atomic s next run) [
    | inl (_, e, _, _, _) ↦ ap (λ t. t.durable) e
    | inr (inl (_, e, _)) ↦ absurd (never (sym e ∙ q))
    | inr (inr (e, _, _)) ↦ absurd (never (sym e ∙ q))
  ]
    where
      never :
          {x : ProviderDiagnostic}
          → ◌≡◌ {A = Result ProviderDiagnostic (Unit {0})} (err x) (ok tt)
          → ⊥
      never r = cc

  commit-ok :
      {E A : Type 0} (to_error : ProviderDiagnostic → E) (p : Provider) (s : ProviderState)
      (a b : A) (x : Result ProviderDiagnostic (Unit {0}) × ProviderStore)
      → (commit to_error p s a x).0 ≡ ok b
      → (x.0 ≡ ok tt) × ((commit to_error p s a x).1.store ≡ x.1)
  unfolding commit
  commit-ok to_error p s a b (ok u, store) q = (refl, refl)
  commit-ok to_error p s a b (err e, store) q = cc

  carried-Wrote :
      {E A : Type 0} (to_error : ProviderDiagnostic → E) (p : Provider) (run : WriteRun)
      (m : Result E (Plan A)) (b : A)
      → (carry_out to_error p (λ s. write_state_guarded p.store s run) m).0 ≡ ok b
      → (x : Plan A) × (m ≡ ok x)
        × Wrote x (carry_out to_error p (λ s. write_state_guarded p.store s run) m).1.store.durable
  unfolding carry_out Wrote
  carried-Wrote to_error p run (err e) b q = cc
  carried-Wrote to_error p run (ok (keep s a)) b q = (keep s a, refl, tt)
  carried-Wrote to_error p run (ok (answer a)) b q = (answer a, refl, tt)
  carried-Wrote to_error p run (ok (write s a)) b q =
      let (fine, there) = commit-ok to_error p s a b (write_state_guarded p.store s run) q in
      (write s a, refl, ap (λ t. t.durable) there ∙ written p.store s run fine)

  ended :
      (r : Result ProviderDiagnostic ProviderState) (x : Plan (Unit {0})) (t : ProviderState)
      → (r >>= λ s. ok (write s tt)) ≡ ok x
      → Wrote x t
      → r ≡ ok t
  unfolding Wrote
  ended (err e) x t q w = cc
  ended (ok s) (write s' u) t q w = cc
  ended (ok s) (keep s' u) t q w = cc
  ended (ok s) (answer u) t q w = cc

  -- A lock that succeeds has ended the epoch of the durable state.
  pub lock-invalidated :
      (p : Provider) (io : Io)
      → (lock p io).0 ≡ ok tt
      → invalidated_state false io p.store.durable ≡ ok (lock p io).1.store.durable
  unfolding lock transact write_state invalidate_with
  lock-invalidated p io q =
      let closed : Provider = record p { lock_state = ProviderLockState.locked } in
      let run : WriteRun = record io.write { before = true; after = true } in
      let (x, e, w) = carried-Wrote (λ e. e) closed run _ tt q in
      let (planned, _) =
        (planned_read (λ e. e) p.store (io.reads 0) (invalidate_with false io)).holds x e in
      ended (invalidated_state false io p.store.durable) x _ planned w
