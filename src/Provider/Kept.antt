-- ===== src/Provider/Kept.antt =====
-- What stays true of a request over every run of the provider.
use vaultwarden_cli.Base.{ℕ, ◌≡◌, ap, Bool, true, false, some, List, text_eq, Text}
use vaultwarden_cli.Host.{Host}
use vaultwarden_cli.Ident.{hex_sha256}
use vaultwarden_cli.Request.Types.{DirectRecord}
use vaultwarden_cli.Request.Status.{is_terminal}
use vaultwarden_cli.Request.Record.{digest}
use vaultwarden_cli.State.Types.{ProviderState, RequestRecord}
use vaultwarden_cli.Provider.Defs.{write, find_direct}
use vaultwarden_cli.Provider.Runs.{Planned, Runs, stop, run}
use vaultwarden_cli.Provider.Evolution.{Evolves, Grows, Evolves-refl, Evolves-trans, weaken-Grows}
use vaultwarden_cli.Provider.Growth.{
  PlanGrows, create-grows, decide-grows, cancel-grows, claim-grows, started-grows, finish-grows,
  begin-grows, record-grows, reconcile-grows,
}
use vaultwarden_cli.Provider.Administered.{pair-grows, query-grows, provision-grows, register-grows}
use vaultwarden_cli.Provider.Lookup.{Grows-find}
use vaultwarden_cli.Provider.Sweeps.{expire-grows, launch-grows, revoke-grows, invalidate-Grows}

-- What a planned write does, `begins` false of all but `begin_write`.
module _ ⦃h : Host⦄ where
  unfoldable pub is_begin : {s t : ProviderState} → Planned s t → Bool
  is_begin (Planned.begun b s t u e) = true
  is_begin (Planned.created _ _ _ _ _ _ _ _ _ _) = false
  is_begin (Planned.decided _ _ _ _ _ _ _ _) = false
  is_begin (Planned.expired _ _ _ _ _ _ _) = false
  is_begin (Planned.launch_failed _ _ _ _ _ _) = false
  is_begin (Planned.cancelled _ _ _ _ _ _ _ _) = false
  is_begin (Planned.claimed _ _ _ _ _ _ _) = false
  is_begin (Planned.started _ _ _ _ _ _) = false
  is_begin (Planned.finished _ _ _ _ _ _ _ _) = false
  is_begin (Planned.recorded _ _ _ _ _ _ _) = false
  is_begin (Planned.reconciled _ _ _ _ _ _ _) = false
  is_begin (Planned.revoked _ _ _ _ _ _ _) = false
  is_begin (Planned.paired _ _ _ _ _ _ _) = false
  is_begin (Planned.queried _ _ _ _ _ _) = false
  is_begin (Planned.provisioned _ _ _ _ _ _ _ _ _) = false
  is_begin (Planned.registered _ _ _ _ _ _) = false
  is_begin (Planned.invalidated _ _ _ _ _) = false

  pub planned-Grows :
      {s t : ProviderState} (p : Planned s t) → Grows (is_begin p) s.requests t.requests
  unfolding is_begin PlanGrows
  planned-Grows (Planned.created who input now expires allowed io s t v e) =
      (create-grows who input now expires allowed io s).holds (write t v) e
  planned-Grows (Planned.decided b approve method now s t v e) =
      (decide-grows b approve method now s).holds (write t v) e
  planned-Grows (Planned.expired now deadlines io s t u e) =
      (expire-grows now deadlines io s).holds (write t u) e
  planned-Grows (Planned.launch_failed id io s t u e) = (launch-grows id io s).holds (write t u) e
  planned-Grows (Planned.cancelled human uid id io s t u e) =
      (cancel-grows human uid id io s).holds (write t u) e
  planned-Grows (Planned.claimed human uid id s t b e) =
      (claim-grows human uid id s).holds (write t b) e
  planned-Grows (Planned.started b io s t u e) = (started-grows b io s).holds (write t u) e
  planned-Grows (Planned.finished b status cleanup io s t u e) =
      (finish-grows b status cleanup io s).holds (write t u) e
  planned-Grows (Planned.begun b s t u e) = (begin-grows b s).holds (write t u) e
  planned-Grows (Planned.recorded b item status s t u e) =
      (record-grows b item status s).holds (write t u) e
  planned-Grows (Planned.reconciled id item io s t v e) =
      (reconcile-grows id item io s).holds (write t v) e
  planned-Grows (Planned.revoked human id now s t v e) =
      (revoke-grows human id now s).holds (write t v) e
  planned-Grows (Planned.paired human now b s t v e) =
      (pair-grows human now b s).holds (write t v) e
  planned-Grows (Planned.queried owner q s t u e) = (query-grows owner q s).holds (write t u) e
  planned-Grows (Planned.provisioned uid draft v create_only allowed s t r e) =
      (provision-grows uid draft v create_only allowed s).holds (write t r) e
  planned-Grows (Planned.registered image check s t i e) =
      (register-grows image check s).holds (write t i) e
  planned-Grows (Planned.invalidated recovered io s t e) =
      (invalidate-Grows recovered io s).holds t e

  weaken_any : (b : Bool) (rs ss : List RequestRecord) → Grows b rs ss → Grows true rs ss
  weaken_any true rs ss g = g
  weaken_any false rs ss g = weaken-Grows rs ss g

module _ ⦃h : Host⦄ where
  pub runs_find :
      (uid : ℕ) (id : Text) (s t : ProviderState) {d : DirectRecord}
      → Runs uid s t
      → find_direct id s.requests ≡ some d
      → (d' : DirectRecord) × (find_direct id t.requests ≡ some d') × Evolves true d d'
  runs_find uid id s t {d} (stop _) e = (d, e, Evolves-refl true d)
  runs_find uid id s u {d} (run _ t _ valid p rest) e =
      let (d1, e1, v1) =
        Grows-find true id s.requests t.requests
          (weaken_any (is_begin p) s.requests t.requests (planned-Grows p)) e in
      let (d2, e2, v2) = runs_find uid id t u rest e1 in (d2, e2, Evolves-trans true d d1 d2 v1 v2)

  -- A request that the provider holds is held after every run, under the same digest. It stays
  -- claimed if it was, and if it had ended its status is the same.
  pub runs-keep :
      (uid : ℕ) (id : Text) (s t : ProviderState) (d : DirectRecord)
      → Runs uid s t
      → find_direct id s.requests ≡ some d
      → (d' : DirectRecord) × (find_direct id t.requests ≡ some d')
        × (digest d' ≡ digest d)
        × (d.execution_claimed ≡ true → d'.execution_claimed ≡ true)
        × (is_terminal d.review.status ≡ true → d'.review.status ≡ d.review.status)
  unfolding digest
  runs-keep uid id s t d r e =
      let (d', at, v) = runs_find uid id s t r e in
      (d', at, ap (λ x. hex_sha256 (h.record_bytes x)) v.terms, v.claimed, v.ended)
