-- ===== src/Provider/Runs.antt =====
-- Runs of the provider: any sequence of its operations on the durable state.
use vaultwarden_cli.Base.{◌≡◌, Bool, true, Option, Text, ℕ, ok}
use vaultwarden_cli.Host.{Host}
use vaultwarden_cli.Storage.{WriteReceipt, WriteStatus}
use vaultwarden_cli.Request.Types.{
  DirectReview, DirectStatus, ApprovalBinding, ApprovalMethod, AgentOwner,
}
use vaultwarden_cli.State.Types.{ProviderState}
use vaultwarden_cli.State.Validate.{state_valid}
use vaultwarden_cli.Store.{Io, invalidated_state}
use vaultwarden_cli.Provider.Defs.{write}
use vaultwarden_cli.Provider.Requests.{Submitter, DirectSubmission, create_plan, decide_plan}
use vaultwarden_cli.Provider.Expiry.{Deadlines, expire_plan, fail_launch_plan}
use vaultwarden_cli.Provider.Execution.{
  CleanupEvidence, cancel_plan, claim_plan, started_plan, finish_plan,
}
use vaultwarden_cli.Agents.{AgentBinding, AgentBindingView}
use vaultwarden_cli.Policy.Types.{ApprovedImage, OperationPolicyDraft}
use vaultwarden_cli.Protocol.{SignedStatusQuery}
use vaultwarden_cli.Provider.Pairing.{pair_plan, revoke_plan}
use vaultwarden_cli.Provider.Signed.{query_plan}
use vaultwarden_cli.Provider.Catalogue.{Eligibility, ImageCheck, provision_plan, register_plan}
use vaultwarden_cli.Provider.Writes.{begin_plan, record_plan, reconcile_plan}

-- The writes that operations plan.
pub data Planned ⦃h : Host⦄ : ProviderState → ProviderState → Type 0 where
  created :
      (who : Submitter) (input : DirectSubmission) (now expires : ℕ) (allowed : Bool) (io : Io)
      (s s' : ProviderState) (v : DirectReview)
      → create_plan who input now expires allowed io s ≡ ok (write s' v)
      → Planned s s'
  decided :
      (b : ApprovalBinding) (approve : Bool) (method : Option ApprovalMethod) (now : ℕ)
      (s s' : ProviderState) (v : DirectStatus)
      → decide_plan b approve method now s ≡ ok (write s' v)
      → Planned s s'
  expired :
      (now : ℕ) (deadlines : Deadlines) (io : Io) (s s' : ProviderState) (u : Unit {0})
      → expire_plan now deadlines io s ≡ ok (write s' u)
      → Planned s s'
  launch_failed :
      (id : Text) (io : Io) (s s' : ProviderState) (u : Unit {0})
      → fail_launch_plan id io s ≡ ok (write s' u)
      → Planned s s'
  cancelled :
      (human provider_uid : ℕ) (id : Text) (io : Io) (s s' : ProviderState) (u : Unit {0})
      → cancel_plan human provider_uid id io s ≡ ok (write s' u)
      → Planned s s'
  claimed :
      (human provider_uid : ℕ) (id : Text) (s s' : ProviderState) (b : ApprovalBinding)
      → claim_plan human provider_uid id s ≡ ok (write s' b)
      → Planned s s'
  started :
      (b : ApprovalBinding) (io : Io) (s s' : ProviderState) (u : Unit {0})
      → started_plan b io s ≡ ok (write s' u)
      → Planned s s'
  finished :
      (b : ApprovalBinding) (status : DirectStatus) (cleanup : CleanupEvidence) (io : Io)
      (s s' : ProviderState) (u : Unit {0})
      → finish_plan b status cleanup io s ≡ ok (write s' u)
      → Planned s s'
  begun :
      (b : ApprovalBinding) (s s' : ProviderState) (u : Unit {0})
      → begin_plan b s ≡ ok (write s' u)
      → Planned s s'
  recorded :
      (b : ApprovalBinding) (item : Option Text) (status : WriteStatus) (s s' : ProviderState)
      (u : Unit {0})
      → record_plan b item status s ≡ ok (write s' u)
      → Planned s s'
  reconciled :
      (id item : Text) (io : Io) (s s' : ProviderState) (v : WriteReceipt)
      → reconcile_plan id item io s ≡ ok (write s' v)
      → Planned s s'
  revoked :
      (human : ℕ) (id : Text) (now : ℕ) (s s' : ProviderState) (v : AgentBindingView)
      → revoke_plan human id now s ≡ ok (write s' v)
      → Planned s s'
  paired :
      (human now : ℕ) (b : AgentBinding) (s s' : ProviderState) (v : AgentBindingView)
      → pair_plan human now b s ≡ ok (write s' v)
      → Planned s s'
  queried :
      (owner : AgentOwner) (q : SignedStatusQuery) (s s' : ProviderState) (u : Unit {0})
      → query_plan owner q s ≡ ok (write s' u)
      → Planned s s'
  provisioned :
      (uid : ℕ) (draft : OperationPolicyDraft) (v : Eligibility) (create_only allowed : Bool)
      (s s' : ProviderState) (revision : Text)
      → provision_plan uid draft v create_only allowed s ≡ ok (write s' revision)
      → Planned s s'
  registered :
      (image : ApprovedImage) (check : ImageCheck) (s s' : ProviderState) (i : ApprovedImage)
      → register_plan image check s ≡ ok (write s' i)
      → Planned s s'
  invalidated :
      (recovered : Bool) (io : Io) (s s' : ProviderState)
      → invalidated_state recovered io s ≡ ok s'
      → Planned s s'

-- The store reads a state only if it is valid, and writes only a valid one.
pub data Runs ⦃h : Host⦄ (owner_uid : ℕ) : ProviderState → ProviderState → Type 0 where
  stop : (s : ProviderState) → Runs owner_uid s s
  run :
      (s t u : ProviderState)
      → state_valid s owner_uid ≡ true
      → Planned s t
      → Runs owner_uid t u
      → Runs owner_uid s u
