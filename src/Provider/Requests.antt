-- ===== src/Provider/Requests.antt =====
-- Submission, review, preparation and decision of direct requests.
use vaultwarden_cli.Base.{
  ℕ, Bool, false, not, ◌&&◌, ◌||◌, Option, none, some, List, [], ◌∷◌, ◌++◌, ◌==◌, nat_eq, text_eq,
  option_text_eq, if◌then◌else◌, Text, is_some, is_none, is_none_or, filter_map, filter, take, map,
  Result, ok, err, map_err, ◌>>=◌, ◌>>◌, guard, ok_or,
}
use vaultwarden_cli.Host.{Host}
use vaultwarden_cli.Ident.{valid_operation_id, valid_sha256, valid_request_id}
use vaultwarden_cli.Policy.Types.{OperationPolicy}
use vaultwarden_cli.Policy.Arguments.{validates_args, normalize_args}
use vaultwarden_cli.Policy.Review.{direct_review}
use vaultwarden_cli.Request.Types.{
  DirectRecord, DirectReview, DirectStatus, DecisionOutcome, HistoryEvent, HistoryOutcome,
  ApprovalBinding, ApprovalMethod, AgentOwner, RequestError, status_eq, binding_eq,
}
use vaultwarden_cli.Request.History.{snapshot, history_version}
use vaultwarden_cli.Request.Record.{seal, approval_binding, review_requester, human_visible}
use vaultwarden_cli.State.Types.{
  ProviderState, RequestRecord, RequestLifecycleStatus, ProviderDiagnostic, lifecycle_status_eq,
  diagnostic_eq,
}
use vaultwarden_cli.State.Transition.{transition}
use vaultwarden_cli.Store.{Io}
use vaultwarden_cli.Provider.Defs.{
  Provider, Plan, write, unavailable, transact, transact_guarded, query, find_request, find_direct,
  with_request, find_operation, visible, agent_current,
}

pub record DirectSubmission : Type 0 where
  pub operation : Text
  pub revision : Option Text
  pub values : List Text

-- What `create_owned` is told of the requester.
pub record Submitter : Type 0 where
  pub uid : ℕ
  pub agent_owner : Option AgentOwner
  pub replay_digest : Option Text

module _ ⦃h : Host⦄ where
  new_review : OperationPolicy → Text → List Text → ℕ → Option AgentOwner → DirectReview
  new_review policy id args expires none = direct_review policy id args expires
  new_review policy id args expires (some a) = record (direct_review policy id args expires) {
    requester = review_requester a;
  }

  unsealed : Submitter → ℕ → ℕ → DirectReview → DirectRecord
  unsealed who now epoch review = record {
    owner_uid = who.uid;
    agent_owner = who.agent_owner;
    replay_digest = who.replay_digest;
    created_at_unix_seconds = now;
    lifecycle_epoch = epoch;
    review = review;
    binding_digest = [];
    approval = none;
    execution_claimed = false;
    audit = [];
    history_version = history_version;
    write_receipt = none;
  }

  -- The record of a new request: sealed, with its submission as the first event.
  unfoldable pub submitted : Submitter → ℕ → ℕ → DirectReview → DirectRecord
  unfolding unsealed
  submitted who now epoch review =
      let d = seal (unsealed who now epoch review) in
      record d {
        audit = snapshot d 0 now HistoryOutcome.submitted (some DirectStatus.pending) ∷ [];
      }

  -- `create_owned` up to its write. `allowed` is what `still_authorized` answers before it.
  unfoldable pub create_plan :
      Submitter
      → DirectSubmission
      → ℕ
      → ℕ
      → Bool
      → Io
      → ProviderState
      → Result RequestError (Plan DirectReview)
  unfolding new_review
  create_plan who input now expires allowed io s = do
    guard (agent_current s.pairings who.agent_owner) RequestError.unauthorized
    policy ← ok_or (find_operation input.operation s.operations) RequestError.invalid_request
    guard (is_none_or (λ r. r == policy.revision) input.revision) RequestError.stale_revision
    args ← ok_or (normalize_args policy input.values) RequestError.invalid_request
    guard allowed RequestError.locked
    bytes ← ok_or io.fresh RequestError.unavailable
    let id = h.url_encode bytes
    let review = new_review policy id args expires who.agent_owner
    let direct = submitted who now s.lifecycle_epoch review
    let request : RequestRecord = record {
      id = id;
      status = RequestLifecycleStatus.pending;
      direct = some direct;
    }
    ok (write (record s { requests = s.requests ++ request ∷ [] }) review)

  abbrev agent_write_error : ProviderDiagnostic → RequestError
  agent_write_error e =
      if e == ProviderDiagnostic.expired_access_request
      then RequestError.locked
      else RequestError.unavailable

  -- An agent's write is guarded, a human's is not.
  unfoldable pub create_owned :
      Provider
      → Submitter
      → DirectSubmission
      → ℕ
      → ℕ
      → Bool
      → Io
      → Result RequestError DirectReview × Provider
  create_owned p who input now expires allowed io =
      if not (valid_operation_id input.operation && is_none_or valid_sha256 input.revision)
      then (err RequestError.invalid_request, p)
      else (if is_some who.agent_owner
          then transact_guarded agent_write_error p io
              (create_plan who input now expires allowed io)
          else transact unavailable p io (create_plan who input now expires allowed io))

  -- `create_direct`
  unfoldable pub create_direct :
      Provider
      → ℕ
      → DirectSubmission
      → ℕ
      → ℕ
      → Bool
      → Io
      → Result RequestError DirectReview × Provider
  create_direct p human =
      create_owned p (record { uid = human; agent_owner = none; replay_digest = none })

  -- `direct_review`
  unfoldable pub show_review : Provider → ℕ → Text → Io → Result RequestError DirectReview
  show_review p human id io =
      if not (valid_request_id id)
      then err RequestError.not_found
      else query unavailable p io (λ s.
        ok_or (visible human p.store.owner_uid (find_direct id s.requests)) RequestError.not_found
        >>= λ d. ok d.review)

  -- `pending_direct_ids`
  unfoldable pub pending_direct_ids : Provider → ℕ → Io → Result RequestError (List Text)
  pending_direct_ids p human io = query unavailable p io λ s. ok (
      map (λ d. d.review.id)
        (take 256 (
          filter
            (λ d.
              human_visible human p.store.owner_uid d && d.review.status == DirectStatus.pending)
            (filter_map (λ r. r.direct) s.requests))))

  -- `prepare_direct`, on the state that it reads.
  unfoldable pub prepare_plan : ℕ → ℕ → Text → ProviderState → Result RequestError ApprovalBinding
  prepare_plan human provider_uid id s = do
    d ← ok_or (visible human provider_uid (find_direct id s.requests)) RequestError.not_found
    guard (agent_current s.pairings d.agent_owner) RequestError.unauthorized
    guard (d.review.status == DirectStatus.pending) RequestError.already_decided
    guard (d.lifecycle_epoch == s.lifecycle_epoch) RequestError.unavailable
    policy ← ok_or (find_operation d.review.operation s.operations) RequestError.stale_revision
    guard (policy.revision == d.review.policy_digest) RequestError.stale_revision
    guard (validates_args policy d.review.arguments) RequestError.invalid_request
    ok (approval_binding d)

  unfoldable pub prepare_direct : Provider → ℕ → Text → Io → Result RequestError ApprovalBinding
  prepare_direct p human id io = query unavailable p io (prepare_plan human p.store.owner_uid id)

  -- An agent's request is decided by the provider's owner, a human's by its owner.
  abbrev pub decider : ApprovalBinding → ℕ → ℕ
  decider b provider_uid = if is_some b.agent_owner then provider_uid else b.requester_uid

  -- The approval's method is noted on the event that the step recorded.
  unfoldable pub note_method : Option ApprovalMethod → List HistoryEvent → List HistoryEvent
  note_method m [] = []
  note_method m (e ∷ []) = record e { approval = m } ∷ []
  note_method m (e ∷ f ∷ es) = e ∷ note_method m (f ∷ es)

  unfoldable pub with_method : Option ApprovalMethod → RequestRecord → RequestRecord
  unfolding note_method
  with_method none r = r
  with_method (some m) r = elim r.direct [
    | none ↦ r
    | some d ↦ record r { direct = some (record d { audit = note_method (some m) d.audit }) }
  ]

  -- `decide_direct` after its preparation.
  unfoldable pub decide_plan :
      ApprovalBinding
      → Bool
      → Option ApprovalMethod
      → ℕ
      → ProviderState
      → Result RequestError (Plan DirectStatus)
  decide_plan b approve method now s = do
    request ← ok_or (find_request b.request_id s.requests) RequestError.not_found
    guard (is_none method || approve) RequestError.invalid_request
    let next = if approve then DirectStatus.approved else DirectStatus.denied
    let decision = if approve then DecisionOutcome.approved else DecisionOutcome.denied
    advanced ← map_err unavailable (transition request next decision now)
    ok (write (with_request s b.request_id (with_method method advanced)) next)

  unfoldable pub decide_prepared :
      Provider
      → ApprovalBinding
      → Bool
      → Option ApprovalMethod
      → ℕ
      → Io
      → Result RequestError ApprovalBinding
      → Result RequestError DirectStatus × Provider
  decide_prepared p b approve method now io (err e) = (err e, p)
  decide_prepared p b approve method now io (ok prepared) =
      if not (prepared == b)
      then (err RequestError.invalid_request, p)
      else transact_guarded unavailable p io (decide_plan b approve method now)

  -- The preparation reads the state once, the decision once more, under the same lock.
  unfoldable pub decide_direct :
      Provider
      → ApprovalBinding
      → Bool
      → Option ApprovalMethod
      → ℕ
      → Io
      → Io
      → Result RequestError DirectStatus × Provider
  unfolding decide_prepared
  decide_direct p b approve method now first io =
      decide_prepared p b approve method now io
        (prepare_direct p (decider b p.store.owner_uid) b.request_id first)

  -- `decision_policy`
  unfoldable pub decision_policy :
      Provider → ApprovalBinding → Io → Io → Result RequestError OperationPolicy
  decision_policy p b first io = do
    prepared ← prepare_direct p (decider b p.store.owner_uid) b.request_id first
    guard (prepared == b) RequestError.invalid_request
    query unavailable p io
        (λ s. ok_or (find_revision b.policy_digest s.operations) RequestError.stale_revision)
    where
      find_revision : Text → List OperationPolicy → Option OperationPolicy
      find_revision r [] = none
      find_revision r (q ∷ qs) = if q.revision == r then some q else find_revision r qs
