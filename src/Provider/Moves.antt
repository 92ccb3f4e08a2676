-- ===== src/Provider/Moves.antt =====
-- A provider before and after an operation: one store, and a run of its durable state.
use vaultwarden_cli.Base.{
  ◌≡◌, refl, ap, sym, ◌∙◌, subst, inl, inr, true, Result, ok, err, map_err, ◌>>=◌, ℕ,
}
use vaultwarden_cli.Host.{Host}
use vaultwarden_cli.State.Types.{ProviderState, ProviderDiagnostic}
use vaultwarden_cli.Store.{
  ProviderStore, WriteRun, Io, read_state, write_state_guarded, write_state,
}
use vaultwarden_cli.Store.Laws.{write-atomic}
use vaultwarden_cli.Provider.Defs.{
  Provider, Plan, write, keep, answer, transact, transact_guarded, carry_out,
}
use vaultwarden_cli.Provider.Runs.{Planned, Runs}
use vaultwarden_cli.Provider.Transact.{carried, planned_read, committed}

module _ ⦃h : Host⦄ where
  pub Runs-trans : (uid : ℕ) (s t u : ProviderState) → Runs uid s t → Runs uid t u → Runs uid s u
  Runs-trans uid s t u (Runs.stop _) q = q
  Runs-trans uid s t u (Runs.run _ v _ valid step rest) q =
      Runs.run s v u valid step (Runs-trans uid v t u rest q)

  pub record Moves (p q : Provider) : Type 0 where
    pub same_owner : q.store.owner_uid ≡ p.store.owner_uid
    pub runs : Runs p.store.owner_uid p.store.durable q.store.durable

  pub Moves-refl : (p : Provider) → Moves p p
  Moves-refl p = record { same_owner = refl; runs = Runs.stop p.store.durable }

  pub Moves-trans : (p q r : Provider) → Moves p q → Moves q r → Moves p r
  Moves-trans p q r a b = record {
    same_owner = b.same_owner ∙ a.same_owner;
    runs =
        Runs-trans p.store.owner_uid p.store.durable q.store.durable r.store.durable a.runs
          (subst (λ uid. Runs uid q.store.durable r.store.durable) a.same_owner b.runs);
  }

  write_owner :
      (s : ProviderStore) (next : ProviderState) (run : WriteRun)
      → (write_state_guarded s next run).1.owner_uid ≡ s.owner_uid
  write_owner s next run = elim (write-atomic s next run) [
    | inl (_, e, _, _, _) ↦ ap (λ t. t.owner_uid) e
    | inr (inl (_, _, e)) ↦ ap (λ t. t.owner_uid) e
    | inr (inr (_, e, _)) ↦ ap (λ t. t.owner_uid) e
  ]

  carried_owner :
      {E A : Type 0} (to_error : ProviderDiagnostic → E) (p : Provider) (run : WriteRun)
      (m : Result E (Plan A))
      → (carry_out to_error p (λ s. write_state_guarded p.store s run) m).1.store.owner_uid
        ≡ p.store.owner_uid
  unfolding carry_out
  carried_owner to_error p run (err e) = refl
  carried_owner to_error p run (ok (keep s a)) = refl
  carried_owner to_error p run (ok (answer a)) = refl
  carried_owner to_error p run (ok (write s a)) =
      ap (λ t. t.owner_uid) (committed to_error p s a (write_state_guarded p.store s run))
      ∙ write_owner p.store s run

  module _ {E A : Type 0} (to_error : ProviderDiagnostic → E)
      (plan : ProviderState → Result E (Plan A))
      (planned : (s s' : ProviderState) (a : A) → plan s ≡ ok (write s' a) → Planned s s') where
    carried-Moves :
        (p : Provider) (run : WriteRun) (io : Io)
        → Moves p
            (carry_out to_error p
              (λ s. write_state_guarded p.store s run)
              (map_err to_error (read_state p.store (io.reads 0)) >>= plan)).1
    carried-Moves p run io = record {
      same_owner = carried_owner to_error p run _;
      runs =
          elim (carried to_error p run plan _ (planned_read to_error p.store (io.reads 0) plan)) [
            | inl same ↦ subst (Runs p.store.owner_uid p.store.durable) (sym same) (Runs.stop _)
            | inr (a, e, v, _) ↦ Runs.run _ _ _ v (planned _ _ a e) (Runs.stop _)
          ];
    }

    pub transact-Moves : (p : Provider) (io : Io) → Moves p (transact to_error p io plan).1
    unfolding transact write_state
    transact-Moves p io = carried-Moves p (record io.write { before = true; after = true }) io

    pub guarded-Moves : (p : Provider) (io : Io) → Moves p (transact_guarded to_error p io plan).1
    unfolding transact_guarded
    guarded-Moves p io = carried-Moves p io.write io
