-- ===== src/Provider/Transact.antt =====
-- What a guarded operation leaves on disk, whatever fails on the way.
use vaultwarden_cli.Base.{
  ◌≡◌, refl, ap, sym, ◌∙◌, ◌⊎◌, inl, inr, true, false, ok, err, Result, arith, ◌>>=◌, map_err,
  Sound, Sound-map_err, Option,
}
use vaultwarden_cli.Host.{Host}
use vaultwarden_cli.State.Types.{ProviderState, ProviderDiagnostic}
use vaultwarden_cli.State.Validate.{state_valid}
use vaultwarden_cli.Store.{ProviderStore, WriteRun, Io, read_state, write_state_guarded}
use vaultwarden_cli.Store.Laws.{write-atomic}
use vaultwarden_cli.Provider.Defs.{
  Provider, Plan, write, keep, answer, transact_guarded, commit, carry_out,
}

module _ ⦃h : Host⦄ where
  pub read-durable :
      (s : ProviderStore) (failure : Option ProviderDiagnostic)
      → Sound
          (λ t. (t ≡ s.durable) × (state_valid t s.owner_uid ≡ true) × (s.poisoned ≡ false))
          (read_state s failure)
  unfolding read_state
  read-durable s failure = record { holds = λ t e. ground arith }

  -- A write leaves the durable state, or it is the new one, and valid.
  write_durable :
      (s : ProviderStore) (next : ProviderState) (run : WriteRun)
      → let (r, s') = write_state_guarded s next run in
        (s'.durable ≡ s.durable) ⊎ ((s'.durable ≡ next) × (state_valid next s.owner_uid ≡ true))
  write_durable s next run = elim (write-atomic s next run) [
    | inl (_, e, v, _, _) ↦ inr (ap (λ t. t.durable) e, v)
    | inr (inl (_, _, e)) ↦ inl (ap (λ t. t.durable) e)
    | inr (inr (_, e, v)) ↦ inr (ap (λ t. t.durable) e, v)
  ]

  pub committed :
      {E A : Type 0} (to_error : ProviderDiagnostic → E) (p : Provider) (t : ProviderState) (a : A)
      (w : Result ProviderDiagnostic (Unit {0}) × ProviderStore)
      → (commit to_error p t a w).1.store ≡ w.1
  unfolding commit
  committed to_error p t a (ok u, store) = refl
  committed to_error p t a (err e, store) = refl

  pub planned_read :
      {E A : Type 0} (to_error : ProviderDiagnostic → E) (s : ProviderStore)
      (failure : Option ProviderDiagnostic) (plan : ProviderState → Result E (Plan A))
      → Sound
          (λ x. (plan s.durable ≡ ok x) × (state_valid s.durable s.owner_uid ≡ true))
          (map_err to_error (read_state s failure) >>= plan)
  planned_read to_error s failure plan = Sound-map_err to_error (read_state s failure) plan λ t e.
      let (same, v, _) = (read-durable s failure).holds t e in
      record {
        holds = λ x f. (ap plan (sym same) ∙ f, ap (λ y. state_valid y s.owner_uid) (sym same) ∙ v);
      }

  -- What a plan leaves, once it is carried out.
  pub carried :
      {E A : Type 0} (to_error : ProviderDiagnostic → E) (p : Provider) (run : WriteRun)
      (plan : ProviderState → Result E (Plan A)) (m : Result E (Plan A))
      → Sound
          (λ x.
            (plan p.store.durable ≡ ok x) × (state_valid p.store.durable p.store.owner_uid ≡ true))
          m
      → let (r, p') = carry_out to_error p (λ s. write_state_guarded p.store s run) m in
        (p'.store.durable ≡ p.store.durable)
        ⊎ ((a : A) × (plan p.store.durable ≡ ok (write p'.store.durable a))
            × (state_valid p.store.durable p.store.owner_uid ≡ true)
            × (state_valid p'.store.durable p.store.owner_uid ≡ true))
  unfolding carry_out
  carried to_error p run plan (err e) k = inl refl
  carried to_error p run plan (ok (keep s a)) k = inl refl
  carried to_error p run plan (ok (answer a)) k = inl refl
  carried to_error p run plan (ok (write s a)) k =
      let (e, v) = k.holds (write s a) refl in
      let at = ap (λ t. t.durable) (committed to_error p s a (write_state_guarded p.store s run)) in
      elim (write_durable p.store s run) [
        | inl same ↦ inl (at ∙ same)
        | inr (same, w) ↦
            let now = at ∙ same in
            inr (
              a,
              e ∙ ap (λ t. ok (write t a)) (sym now),
              v,
              ap (λ t. state_valid t p.store.owner_uid) now ∙ w,
            )
      ]

  -- An operation leaves the durable state as it was, or it read a valid state, planned a write of
  -- the new one, and that is valid too. This holds whether the operation answers or fails.
  pub transact-durable :
      {E A : Type 0} (to_error : ProviderDiagnostic → E) (p : Provider) (io : Io)
      (plan : ProviderState → Result E (Plan A))
      → let (r, p') = transact_guarded to_error p io plan in
        (p'.store.durable ≡ p.store.durable)
        ⊎ ((a : A) × (plan p.store.durable ≡ ok (write p'.store.durable a))
            × (state_valid p.store.durable p.store.owner_uid ≡ true)
            × (state_valid p'.store.durable p.store.owner_uid ≡ true))
  unfolding transact_guarded
  transact-durable to_error p io plan =
      carried to_error p io.write plan (map_err to_error (read_state p.store (io.reads 0)) >>= plan)
        (planned_read to_error p.store (io.reads 0) plan)
