-- ===== src/Provider/Administered.antt =====
-- The operations that leave the requests as they are: pairing, status queries, policies and images.
use vaultwarden_cli.Base.{ℕ, ◌≡◌, subst, sym, Bool, false, List, ok, Sound, soundness, Sound-ok}
use vaultwarden_cli.Host.{Host}
use vaultwarden_cli.Policy.Types.{ApprovedImage, OperationPolicyDraft}
use vaultwarden_cli.Request.Types.{AgentOwner}
use vaultwarden_cli.Agents.{AgentBinding}
use vaultwarden_cli.Protocol.{SignedStatusQuery}
use vaultwarden_cli.State.Types.{ProviderState, RequestRecord}
use vaultwarden_cli.Provider.Defs.{write}
use vaultwarden_cli.Provider.Pairing.{pair_plan}
use vaultwarden_cli.Provider.Signed.{query_plan}
use vaultwarden_cli.Provider.Catalogue.{Eligibility, ImageCheck, provision_plan, register_plan}
use vaultwarden_cli.Provider.Evolution.{Grows, Grows-refl}
use vaultwarden_cli.Provider.Growth.{PlanGrows}

same_requests :
    {E A : Type 0} (rs : List RequestRecord) (s : ProviderState) {a : A}
    → s.requests ≡ rs
    → Sound {E = E} (PlanGrows false rs) (ok (write s a))
unfolding PlanGrows
same_requests rs s e = Sound-ok _ (subst (Grows false rs) (sym e) (Grows-refl false rs))

module _ ⦃h : Host⦄ where
  pub pair-grows :
      (human now : ℕ) (b : AgentBinding) (s : ProviderState)
      → Sound (PlanGrows false s.requests) (pair_plan human now b s)
  unfolding pair_plan
  pair-grows human now b s = search (soundness, same_requests) depth 8

  pub query-grows :
      (owner : AgentOwner) (q : SignedStatusQuery) (s : ProviderState)
      → Sound (PlanGrows false s.requests) (query_plan owner q s)
  unfolding query_plan
  query-grows owner q s = search (soundness, same_requests) depth 10

  pub provision-grows :
      (uid : ℕ) (draft : OperationPolicyDraft) (v : Eligibility) (create_only allowed : Bool)
      (s : ProviderState)
      → Sound (PlanGrows false s.requests) (provision_plan uid draft v create_only allowed s)
  unfolding provision_plan
  provision-grows uid draft v create_only allowed s = search (soundness, same_requests) depth 14

  pub register-grows :
      (image : ApprovedImage) (check : ImageCheck) (s : ProviderState)
      → Sound (PlanGrows false s.requests) (register_plan image check s)
  unfolding register_plan
  register-grows image check s = search (soundness, same_requests) depth 10
