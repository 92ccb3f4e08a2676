-- ===== src/Provider/Policies.antt =====
-- What a run does to the policy of an operation: only a provisioning changes it.
use vaultwarden_cli.Base.{
  ℕ, ◌≡◌, Bool, true, false, Option, none, some, List, text_eq, Text, ok, Sound, soundness,
  Sound-ok, Sound-if, Sound-bind, if◌then◌else◌,
}
use vaultwarden_cli.Host.{Host}
use vaultwarden_cli.Policy.Types.{ApprovedImage}
use vaultwarden_cli.Storage.{WriteStatus}
use vaultwarden_cli.Request.Types.{ApprovalBinding, ApprovalMethod, DirectStatus, AgentOwner}
use vaultwarden_cli.Agents.{AgentBinding}
use vaultwarden_cli.Protocol.{SignedStatusQuery}
use vaultwarden_cli.State.Types.{ProviderState, RequestRecord}
use vaultwarden_cli.Store.{Io, invalidated_state}
use vaultwarden_cli.Provider.Defs.{Plan, write, keep, answer}
use vaultwarden_cli.Provider.Requests.{Submitter, DirectSubmission, create_plan, decide_plan}
use vaultwarden_cli.Provider.Expiry.{
  Deadlines, expire_plan, fail_launch_plan, expire_requests, fail_launch,
}
use vaultwarden_cli.Provider.Execution.{
  CleanupEvidence, cancel_plan, claim_plan, started_plan, finish_plan,
}
use vaultwarden_cli.Provider.Pairing.{pair_plan, revoke_plan}
use vaultwarden_cli.Provider.Signed.{query_plan}
use vaultwarden_cli.Provider.Catalogue.{ImageCheck, register_plan}
use vaultwarden_cli.Provider.Writes.{begin_plan, record_plan, reconcile_plan}

-- A plan that leaves the policies as they are.
unfoldable pub PlanSame : {A : Type 0} → ProviderState → Plan A → Type 0
PlanSame s (write t a) = t.operations ≡ s.operations
PlanSame s (keep t a) = Unit {0}
PlanSame s (answer a) = Unit {0}

same_policies :
    {E A : Type 0} (s t : ProviderState) {a : A}
    → t.operations ≡ s.operations
    → Sound {E = E} (PlanSame s) (ok (write t a))
unfolding PlanSame
same_policies s t e = Sound-ok _ e

kept_policies :
    {E A : Type 0} (s t : ProviderState) {a : A} → Sound {E = E} (PlanSame s) (ok (keep t a))
unfolding PlanSame
kept_policies s t {a} = Sound-ok (keep t a) tt

answer_policies :
    {E A : Type 0} (s : ProviderState) {a : A} → Sound {E = E} (PlanSame s) (ok (answer a))
unfolding PlanSame
answer_policies s {a} = Sound-ok (answer a) tt

ruleset policies = (soundness, Sound-if, same_policies, kept_policies, answer_policies)

module _ ⦃h : Host⦄ where
  pub create-same :
      (who : Submitter) (input : DirectSubmission) (now expires : ℕ) (allowed : Bool) (io : Io)
      (s : ProviderState)
      → Sound (PlanSame s) (create_plan who input now expires allowed io s)
  unfolding create_plan
  create-same who input now expires allowed io s = search policies depth 14

  pub decide-same :
      (b : ApprovalBinding) (approve : Bool) (method : Option ApprovalMethod) (now : ℕ)
      (s : ProviderState)
      → Sound (PlanSame s) (decide_plan b approve method now s)
  unfolding decide_plan
  decide-same b approve method now s = search policies depth 12

  expired_same :
      {E : Type 0} (s : ProviderState) (rest : List RequestRecord × Bool)
      → Sound {E = E} (PlanSame s) (
          ok (
            if rest.1
            then write (record s { requests = rest.0 }) tt
            else keep (record s { requests = rest.0 }) tt))
  expired_same s (rs, true) = search policies
  expired_same s (rs, false) = search policies

  pub expire-same :
      (now : ℕ) (deadlines : Deadlines) (io : Io) (s : ProviderState)
      → Sound (PlanSame s) (expire_plan now deadlines io s)
  unfolding expire_plan
  expire-same now deadlines io s =
      Sound-bind (expire_requests now deadlines io 0 s.requests) _ λ rest done. expired_same s rest

  launched_same :
      {E : Type 0} (s : ProviderState) (o : Option (List RequestRecord))
      → Sound {E = E}
          (PlanSame s)
          (ok (elim o [ none ↦ keep s tt | some rs ↦ write (record s { requests = rs }) tt ]))
  launched_same s none = search policies
  launched_same s (some rs) = search policies

  pub launch-same :
      (id : Text) (io : Io) (s : ProviderState) → Sound (PlanSame s) (fail_launch_plan id io s)
  unfolding fail_launch_plan
  launch-same id io s = Sound-bind (fail_launch id io s.requests) _ λ o done. launched_same s o

  pub cancel-same :
      (human provider_uid : ℕ) (id : Text) (io : Io) (s : ProviderState)
      → Sound (PlanSame s) (cancel_plan human provider_uid id io s)
  unfolding cancel_plan
  cancel-same human provider_uid id io s = search policies depth 12

  pub claim-same :
      (human provider_uid : ℕ) (id : Text) (s : ProviderState)
      → Sound (PlanSame s) (claim_plan human provider_uid id s)
  unfolding claim_plan
  claim-same human provider_uid id s = search policies depth 12

  pub started-same :
      (b : ApprovalBinding) (io : Io) (s : ProviderState) → Sound (PlanSame s) (started_plan b io s)
  unfolding started_plan
  started-same b io s = search policies depth 12

  pub finish-same :
      (b : ApprovalBinding) (status : DirectStatus) (cleanup : CleanupEvidence) (io : Io)
      (s : ProviderState)
      → Sound (PlanSame s) (finish_plan b status cleanup io s)
  unfolding finish_plan
  finish-same b status cleanup io s = search policies depth 12

  pub begin-same : (b : ApprovalBinding) (s : ProviderState) → Sound (PlanSame s) (begin_plan b s)
  unfolding begin_plan
  begin-same b s = search policies depth 12

  pub record-same :
      (b : ApprovalBinding) (item : Option Text) (status : WriteStatus) (s : ProviderState)
      → Sound (PlanSame s) (record_plan b item status s)
  unfolding record_plan
  record-same b item status s = search policies depth 12

  pub reconcile-same :
      (id item : Text) (io : Io) (s : ProviderState)
      → Sound (PlanSame s) (reconcile_plan id item io s)
  unfolding reconcile_plan
  reconcile-same id item io s = search policies depth 16

  pub revoke-same :
      (human : ℕ) (id : Text) (now : ℕ) (s : ProviderState)
      → Sound (PlanSame s) (revoke_plan human id now s)
  unfolding revoke_plan
  revoke-same human id now s = search policies depth 12

  pub pair-same :
      (human now : ℕ) (b : AgentBinding) (s : ProviderState)
      → Sound (PlanSame s) (pair_plan human now b s)
  unfolding pair_plan
  pair-same human now b s = search policies depth 12

  pub query-same :
      (owner : AgentOwner) (q : SignedStatusQuery) (s : ProviderState)
      → Sound (PlanSame s) (query_plan owner q s)
  unfolding query_plan
  query-same owner q s = search policies depth 12

  pub register-same :
      (image : ApprovedImage) (check : ImageCheck) (s : ProviderState)
      → Sound (PlanSame s) (register_plan image check s)
  unfolding register_plan
  register-same image check s = search policies depth 12

  pub invalidate-same :
      (recovered : Bool) (io : Io) (s : ProviderState)
      → Sound (λ t. t.operations ≡ s.operations) (invalidated_state recovered io s)
  unfolding invalidated_state
  invalidate-same recovered io s = search (soundness, Sound-ok) depth 10
