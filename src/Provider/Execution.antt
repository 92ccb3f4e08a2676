-- ===== src/Provider/Execution.antt =====
-- The execution of an approved request: delivery, claim, start, end and cancellation.
use vaultwarden_cli.Base.{
  ℕ, Bool, true, false, not, ◌&&◌, ◌||◌, some, List, [], ◌∷◌, ◌==◌, nat_eq, text_eq, if◌then◌else◌,
  Text, any, is_some_and, and_then, Result, ok, err, map_err, ◌>>=◌, ◌>>◌, guard, ok_or,
}
use vaultwarden_cli.Host.{Host}
use vaultwarden_cli.Policy.Types.{OperationPolicy}
use vaultwarden_cli.Policy.Arguments.{normalize_args}
use vaultwarden_cli.Policy.Review.{direct_review, one_time_text}
use vaultwarden_cli.Request.Types.{
  DirectRecord, DirectReview, DirectStatus, DecisionOutcome, ApprovalBinding, RequestError,
  status_eq, option_binding_eq, review_eq,
}
use vaultwarden_cli.Request.Record.{approval_binding}
use vaultwarden_cli.State.Types.{
  ProviderState, RequestRecord, RequestLifecycleStatus, lifecycle_status_eq,
}
use vaultwarden_cli.State.Transition.{transition, is_failed}
use vaultwarden_cli.Store.{Io, wall_time}
use vaultwarden_cli.Provider.Defs.{
  Provider, Plan, write, unavailable, transact, transact_guarded, query, find_request, find_direct,
  with_request, find_operation, visible, agent_current,
}

-- `CleanupEvidence` of src/access/ports.rs
pub data CleanupEvidence : Type 0 where
  not_started reaped detached uncertain : CleanupEvidence

abbrev pub is_completed : DirectStatus → Bool
is_completed (DirectStatus.completed _) = true
is_completed DirectStatus.pending = false
is_completed DirectStatus.approved = false
is_completed DirectStatus.denied = false
is_completed DirectStatus.expired = false
is_completed DirectStatus.running = false
is_completed (DirectStatus.failed _) = false

abbrev is_uncertain : CleanupEvidence → Bool
is_uncertain CleanupEvidence.uncertain = true
is_uncertain CleanupEvidence.not_started = false
is_uncertain CleanupEvidence.reaped = false
is_uncertain CleanupEvidence.detached = false

abbrev is_not_started : CleanupEvidence → Bool
is_not_started CleanupEvidence.not_started = true
is_not_started CleanupEvidence.uncertain = false
is_not_started CleanupEvidence.reaped = false
is_not_started CleanupEvidence.detached = false

abbrev texts_equal : List Text → List Text → Bool
texts_equal [] [] = true
texts_equal [] (b ∷ bs) = false
texts_equal (a ∷ as_) [] = false
texts_equal (a ∷ as_) (b ∷ bs) = a == b && texts_equal as_ bs

-- What `execution_delivery` hands over: the binding, the policy and the argument vector.
pub record Delivery : Type 0 where
  pub binding : ApprovalBinding
  pub policy : OperationPolicy
  pub argv : List Text

abbrev is_deliverable : Bool → DirectRecord → Bool
is_deliverable claimed d =
    (not claimed || d.execution_claimed)
    && (d.review.status == DirectStatus.approved
        || (claimed && d.review.status == DirectStatus.running))

module _ ⦃h : Host⦄ where
  -- The review rebuilt from the policy in force, with what the record alone decides.
  expected_review : OperationPolicy → Text → List Text → DirectReview → DirectReview
  expected_review policy id args v =
      record (direct_review policy id args v.expires_at_unix_seconds) {
        status = v.status;
        requester = v.requester;
      }

  -- `execution_delivery`, as `approved_execution` and `claimed_execution` call it.
  unfoldable pub delivery_plan : ℕ → ℕ → Text → Bool → ProviderState → Result RequestError Delivery
  unfolding expected_review
  delivery_plan human provider_uid id claimed s = do
    d ← ok_or (visible human provider_uid (find_direct id s.requests)) RequestError.not_found
    guard (agent_current s.pairings d.agent_owner) RequestError.unauthorized
    guard (is_deliverable claimed d) RequestError.already_decided
    guard
        (d.lifecycle_epoch == s.lifecycle_epoch
          && d.approval == some (approval_binding d)
          && d.review.one_time == one_time_text)
        RequestError.unavailable
    policy ← ok_or (find_operation d.review.operation s.operations) RequestError.stale_revision
    guard (policy.revision == d.review.policy_digest) RequestError.stale_revision
    args ← ok_or (normalize_args policy d.review.arguments) RequestError.invalid_request
    guard
        (texts_equal args d.review.arguments && expected_review policy id args d.review == d.review)
        RequestError.invalid_request
    ok (record { binding = approval_binding d; policy = policy; argv = policy.id ∷ args })

  unfoldable pub execution_delivery : Provider → ℕ → Text → Bool → Io → Result RequestError Delivery
  execution_delivery p human id claimed io =
      query unavailable p io (delivery_plan human p.store.owner_uid id claimed)

  -- `cancel_unclaimed_execution`
  unfoldable pub cancel_plan :
      ℕ → ℕ → Text → Io → ProviderState → Result RequestError (Plan (Unit {0}))
  cancel_plan human provider_uid id io s = do
    r ← ok_or (find_request id s.requests) RequestError.not_found
    d ← ok_or (visible human provider_uid r.direct) RequestError.not_found
    guard (d.review.status == DirectStatus.approved && not d.execution_claimed)
        RequestError.already_decided
    now ← map_err unavailable (wall_time io 0)
    r' ←
        map_err unavailable
          (transition r DirectStatus.expired DecisionOutcome.execution_unavailable now)
    ok (write (with_request s id r') tt)

  unfoldable pub cancel_unclaimed_execution :
      Provider → ℕ → Text → Io → Result RequestError (Unit {0}) × Provider
  cancel_unclaimed_execution p human id io =
      transact unavailable p io (cancel_plan human p.store.owner_uid id io)

  -- `claim_execution`
  unfoldable pub claim_plan :
      ℕ → ℕ → Text → ProviderState → Result RequestError (Plan ApprovalBinding)
  claim_plan human provider_uid id s = do
    let snapshot_owner = and_then (find_direct id s.requests) (λ d. d.agent_owner)
    guard (agent_current s.pairings snapshot_owner) RequestError.unauthorized
    r ← ok_or (find_request id s.requests) RequestError.not_found
    d ← ok_or (visible human provider_uid r.direct) RequestError.not_found
    guard
        (r.status == RequestLifecycleStatus.approved
          && d.review.status == DirectStatus.approved
          && not d.execution_claimed)
        RequestError.already_decided
    guard (d.lifecycle_epoch == s.lifecycle_epoch && d.approval == some (approval_binding d))
        RequestError.unavailable
    let r' : RequestRecord = record r { direct = some (record d { execution_claimed = true }) }
    ok (write (with_request s id r') (approval_binding d))

  unfoldable pub claim_execution :
      Provider → ℕ → Text → Io → Result RequestError ApprovalBinding × Provider
  claim_execution p human id io =
      transact_guarded unavailable p io (claim_plan human p.store.owner_uid id)

  abbrev is_held : ApprovalBinding → DirectRecord → Bool
  is_held b d =
      d.execution_claimed
      && d.approval == some b
      && (d.review.status == DirectStatus.approved || d.review.status == DirectStatus.running)

  -- `execution_matches`
  unfoldable pub execution_matches : Provider → ApprovalBinding → Io → Result RequestError Bool
  execution_matches p b io = query unavailable p io λ s. ok (
      agent_current s.pairings b.agent_owner
      && s.lifecycle_epoch == b.lifecycle_epoch
      && any (λ q. q.revision == b.policy_digest) s.operations
      && any (λ r. is_some_and (is_held b) r.direct) s.requests)

  -- `execution_started`
  unfoldable pub started_plan :
      ApprovalBinding → Io → ProviderState → Result RequestError (Plan (Unit {0}))
  started_plan b io s = do
    r ← ok_or (find_request b.request_id s.requests) RequestError.not_found
    d ← ok_or r.direct RequestError.not_found
    guard (d.execution_claimed && d.approval == some b && d.review.status == DirectStatus.approved)
        RequestError.unavailable
    now ← map_err unavailable (wall_time io 0)
    r' ← map_err unavailable (transition r DirectStatus.running DecisionOutcome.approved now)
    ok (write (with_request s b.request_id r') tt)

  unfoldable pub execution_started :
      Provider → ApprovalBinding → Io → Result RequestError (Unit {0}) × Provider
  execution_started p b io = transact unavailable p io (started_plan b io)

  -- A completion needs an execution that ran and whose process is gone or detached.
  abbrev pub is_finishable : ApprovalBinding → DirectStatus → CleanupEvidence → DirectRecord → Bool
  is_finishable b status cleanup d =
      is_held b d
      && not (d.review.status == DirectStatus.running && is_not_started cleanup)
      && not (
          is_completed status
          && (is_not_started cleanup || not (d.review.status == DirectStatus.running)))

  -- `finish_execution` after its first test.
  unfoldable pub finish_plan :
      ApprovalBinding
      → DirectStatus
      → CleanupEvidence
      → Io
      → ProviderState
      → Result RequestError (Plan (Unit {0}))
  finish_plan b status cleanup io s = do
    r ← ok_or (find_request b.request_id s.requests) RequestError.not_found
    d ← ok_or r.direct RequestError.not_found
    guard (is_finishable b status cleanup d) RequestError.unavailable
    now ← map_err unavailable (wall_time io 0)
    let decision =
        if is_completed status
        then DecisionOutcome.approved
        else DecisionOutcome.execution_unavailable
    r' ← map_err unavailable (transition r status decision now)
    ok (write (with_request s b.request_id r') tt)

  unfoldable pub finish_execution :
      Provider
      → ApprovalBinding
      → DirectStatus
      → CleanupEvidence
      → Io
      → Result RequestError (Unit {0}) × Provider
  finish_execution p b status cleanup io =
      if is_uncertain cleanup || not (is_completed status || is_failed status)
      then (err RequestError.unavailable, p)
      else transact unavailable p io (finish_plan b status cleanup io)
