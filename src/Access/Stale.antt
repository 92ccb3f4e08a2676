-- ===== src/Access/Stale.antt =====
-- A policy that is provisioned, and the requests that were made for it before.
use vaultwarden_cli.Base.{
  ℕ, ◌≡◌, refl, sym, ap, ◌∙◌, Bool, true, false, Option, some, ◌==◌, text_eq, Text, Result, ok, err,
  is_ok,
}
use vaultwarden_cli.Host.{Host}
use vaultwarden_cli.Policy.Types.{OperationPolicyDraft}
use vaultwarden_cli.State.Types.{ProviderState, ProviderDiagnostic}
use vaultwarden_cli.Store.{ProviderStore}
use vaultwarden_cli.Provider.Defs.{find_operation, write}
use vaultwarden_cli.Provider.Evolution.{some-injective}
use vaultwarden_cli.Provider.Catalogue.{Eligibility, provision_plan}
use vaultwarden_cli.Provider.Runs.{Runs}
use vaultwarden_cli.Provider.Revisions.{Differs, restored, written-Differs, runs-Differs}
use vaultwarden_cli.Access.Types.{AccessRequest}
use vaultwarden_cli.Access.Preflight.{preflight_request}
use vaultwarden_cli.Access.Admitted.{Admitted, preflight-Admitted}

true-false : true ≡ false → ⊥
true-false e = cc

module _ ⦃h : Host⦄ where
  refused :
      (store : ProviderStore) (r : AccessRequest) (clock : Option ℕ)
      (failure : Option ProviderDiagnostic) (m : Result ProviderDiagnostic (Unit {0}))
      → preflight_request store r clock failure ≡ m
      → (Admitted store r clock → is_ok m ≡ false)
      → is_ok m ≡ false
  refused store r clock failure (ok u) e k = k (preflight-Admitted store r clock failure e)
  refused store r clock failure (err x) e k = refl

  -- Once a policy is provisioned with another revision than a request names for its operation, and
  -- whatever the provider does then but provision that revision for that operation again, the
  -- preflight of the request does not pass, whatever its clock and its reading meet.
  pub provision-stale :
      (store : ProviderStore) (uid : ℕ) (d : OperationPolicyDraft) (v : Eligibility)
      (create_only allowed : Bool) (s t : ProviderState) (revision : Text) (r : AccessRequest)
      (clock : Option ℕ) (failure : Option ProviderDiagnostic)
      → provision_plan uid d v create_only allowed s ≡ ok (write t revision)
      → (later : Runs uid t store.durable) → r.operation_id ≡ d.id
      → (revision == r.operation_revision) ≡ false
      → restored d.id r.operation_revision later ≡ false
      → is_ok (preflight_request store r clock failure) ≡ false
  provision-stale store uid d v create_only allowed s t revision r clock failure e later same other
        quiet =
      refused store r clock failure _ refl λ a. absurd (clash a)
    where
      x : Differs d.id r.operation_revision store.durable
      x =
          runs-Differs d.id r.operation_revision uid t store.durable later quiet
            (written-Differs uid d v create_only allowed s t revision r.operation_revision e other)

      clash : Admitted store r clock → ⊥
      clash a =
          let both : some a.policy ≡ some x.policy =
            sym a.found ∙ ap (λ id. find_operation id store.durable.operations) same ∙ x.found in
          true-false (
            sym a.current
            ∙ ap (λ p. p.revision == r.operation_revision) (some-injective both)
            ∙ x.other)
