-- ===== src/Request/Record.antt =====
-- `DirectRecord` of src/access/direct_request.rs: its digest, binding, history and validity.
use vaultwarden_cli.Base.{
  ℕ, suc, Bool, true, false, not, ◌&&◌, ◌||◌, Option, none, some, List, [], ◌∷◌, ◌++◌, leb, ltb,
  ◌==◌, nat_eq, text_eq, option_text_eq, if◌then◌else◌, Text, all, any, is_empty, is_some, is_none,
  length, last, is_none_or, is_some_and, codes,
}
use vaultwarden_cli.Strings.{is_graphic, has_control}
use vaultwarden_cli.Host.{Host}
use vaultwarden_cli.Storage.{
  WriteReceipt, WriteStatus, valid_id, option_receipt_eq, write_status_eq,
}
use vaultwarden_cli.Ident.{valid_operation_id, valid_sha256, valid_request_id, hex_sha256}
use vaultwarden_cli.Policy.Types.{CreateEffect}
use vaultwarden_cli.Policy.Checks.{create_valid}
use vaultwarden_cli.Policy.Ssh.{ssh_valid, ssh_target}
use vaultwarden_cli.Policy.Review.{
  arguments_digest, one_time_text, human_requester, create_effect_text,
}
use vaultwarden_cli.Request.Types.{
  DirectRecord, DirectReview, DirectStatus, AgentOwner, ApprovalBinding, HistoryEvent,
  HistoryOutcome, RecordProjection, status_eq, option_status_eq, option_binding_eq, binding_eq,
  outcome_eq, option_time_eq,
}
use vaultwarden_cli.Request.Status.{is_terminal, exit_in_range}
use vaultwarden_cli.Request.History.{history_version, u32_max, matches_record}

unfoldable pub previous_one_time_text : Text
previous_one_time_text =
    codes "Approval authorizes this request once only. Execution is not available yet."

unfoldable pub legacy_one_time_text : Text
legacy_one_time_text =
    codes
      "Approving this request would authorize one execution only; approval is unavailable at this stage."

-- `AgentOwner::review_requester`
unfoldable pub review_requester : AgentOwner → Text
review_requester a = codes "agent " ++ a.label ++ codes " (" ++ a.fingerprint ++ codes ")"

-- `AgentOwner::valid`
unfoldable pub owner_valid : ⦃h : Host⦄ → AgentOwner → Bool
owner_valid ⦃h⦄ a =
    valid_request_id a.binding_id
    && valid_sha256 a.fingerprint
    && not (is_empty a.label)
    && leb (length a.label) 128
    && all (λ b. is_graphic b || b == b' ') a.label
    && any is_graphic a.label
    && not (a.uid == 0)
    && not (a.uid == u32_max)
    && not (a.gid == 0)
    && not (a.gid == u32_max)

-- `DirectRecord::human_visible`
unfoldable pub human_visible : ℕ → ℕ → DirectRecord → Bool
human_visible human provider_uid r = elim r.agent_owner [
  | none ↦ r.owner_uid == human
  | some a ↦ human == provider_uid
]

-- `DirectRecord::approval_binding`
unfoldable pub approval_binding : DirectRecord → ApprovalBinding
approval_binding r = record {
  request_id = r.review.id;
  requester_uid = r.owner_uid;
  agent_owner = r.agent_owner;
  policy_digest = r.review.policy_digest;
  arguments_digest = r.review.arguments_digest;
  expires_at_unix_seconds = r.review.expires_at_unix_seconds;
  lifecycle_epoch = r.lifecycle_epoch;
  record_digest = r.binding_digest;
}

-- The projection that `digest` serialises: the review is digested as it was submitted.
unfoldable pub projection : DirectRecord → RecordProjection
projection r =
    let review = record (r.review) { status = DirectStatus.pending } in
    elim r.replay_digest [
      | some d ↦
          RecordProjection.signed_agent_projection r.owner_uid r.agent_owner d
            r.created_at_unix_seconds r.lifecycle_epoch review
      | none ↦ elim r.agent_owner [
        | some a ↦
            RecordProjection.agent_projection r.owner_uid a r.created_at_unix_seconds
              r.lifecycle_epoch review
        | none ↦
            RecordProjection.human_projection r.owner_uid r.created_at_unix_seconds
              r.lifecycle_epoch review
      ]
    ]

abbrev ran : Option DirectStatus → Bool
ran none = false
ran (some DirectStatus.pending) = false
ran (some DirectStatus.approved) = false
ran (some DirectStatus.denied) = false
ran (some DirectStatus.expired) = false
ran (some DirectStatus.running) = true
ran (some (DirectStatus.completed _)) = true
ran (some (DirectStatus.failed _)) = true

-- The statuses that may follow one another in a history.
abbrev pub follows : DirectStatus → DirectStatus → Bool
follows DirectStatus.pending DirectStatus.approved = true
follows DirectStatus.pending DirectStatus.denied = true
follows DirectStatus.pending DirectStatus.expired = true
follows DirectStatus.approved DirectStatus.running = true
follows DirectStatus.approved DirectStatus.expired = true
follows DirectStatus.approved (DirectStatus.failed _) = true
follows DirectStatus.running (DirectStatus.completed _) = true
follows DirectStatus.running (DirectStatus.failed _) = true
follows _ _ = false

abbrev pub status_follows : Option DirectStatus → Option DirectStatus → Bool
status_follows none next = false
status_follows (some s) none = false
status_follows (some s) (some t) = follows s t

-- The first event records the submission; a later one a legal step or a reconciliation.
unfoldable pub position_valid : DirectRecord → ℕ → Option DirectStatus → HistoryEvent → Bool
position_valid r ordinal previous e =
    if ordinal == 0
    then e.outcome == HistoryOutcome.submitted
        && e.at_unix_seconds == some r.created_at_unix_seconds
      || e.outcome == HistoryOutcome.legacy_unknown && is_none e.at_unix_seconds
    else (e.outcome == HistoryOutcome.reconciled
          && is_some_and is_terminal previous
          && previous == e.status
        || status_follows previous e.status)

-- A recorded start or completion cannot precede the one-time execution claim.
unfoldable pub claim_valid : Bool → HistoryEvent → Bool
claim_valid claimed e =
    claimed
    || not (ran e.status)
    || e.outcome == HistoryOutcome.legacy_unknown
    || e.outcome == HistoryOutcome.recovered

abbrev pub is_live : DirectStatus → Bool
is_live s = s == DirectStatus.approved || s == DirectStatus.running

abbrev pub review_text : Text → Bool
review_text t = not (is_empty t) && leb (length t) 256 && not (has_control t)

-- A receipt belongs to a claimed create request, and names an item once one was created.
unfoldable pub receipt_valid : DirectReview → Bool → WriteReceipt → Bool
receipt_valid v claimed receipt =
    is_some v.create
    && claimed
    && receipt.attempt_id == v.id
    && is_none_or valid_id receipt.item_id
    && (not (
          receipt.status == WriteStatus.verified
          || receipt.status == WriteStatus.created_unverified)
        || is_some receipt.item_id)

module _ ⦃h : Host⦄ where
  unfoldable pub digest : DirectRecord → Text
  unfolding projection
  digest r = hex_sha256 (h.record_bytes (projection r))

  -- `DirectRecord::seal`
  unfoldable pub seal : DirectRecord → DirectRecord
  seal r = record r { binding_digest = digest r }

  unfoldable pub history_step : DirectRecord → ℕ → Option DirectStatus → HistoryEvent → Bool
  unfolding position_valid claim_valid
  history_step r ordinal previous e =
      e.ordinal == ordinal
      && matches_record r e
      && claim_valid r.execution_claimed e
      && position_valid r ordinal previous e

  -- The loop over the events: the last status, or `none` at an event that is refused.
  unfoldable pub history_loop :
      DirectRecord → ℕ → Option DirectStatus → List HistoryEvent → Option (Option DirectStatus)
  history_loop r ordinal previous [] = some previous
  history_loop r ordinal previous (e ∷ es) =
      let rest = history_loop r (suc ordinal) e.status es in
      if history_step r ordinal previous e then rest else none

  -- `DirectRecord::validate_history`
  unfoldable pub validate_history : DirectRecord → Bool
  unfolding history_loop history_step
  validate_history r =
      r.history_version == history_version
      && not (is_empty r.audit)
      && leb (length r.audit) 5
      && is_some_and (λ p. p == some r.review.status) (history_loop r 0 none r.audit)
      && (not (is_terminal r.review.status)
          || is_some_and (λ e. e.write_receipt == r.write_receipt) (last r.audit))

  requester_matches : DirectRecord → Bool
  requester_matches r = elim r.agent_owner [
    | some a ↦ owner_valid a && a.uid == r.owner_uid && r.review.requester == review_requester a
    | none ↦ r.review.requester == human_requester
  ]

  create_review_valid : DirectReview → CreateEffect → Bool
  create_review_valid v c =
      create_valid c
      && is_none v.ssh
      && v.effect == create_effect_text
      && v.target == c.destination.reference

  -- What `validate` asks of the fields that no operation changes.
  unfoldable pub shape_valid : DirectRecord → Text → ℕ → Bool
  unfolding requester_matches create_review_valid
  shape_valid r id epoch =
      let v = r.review in
      valid_request_id id
      && v.id == id
      && not (r.owner_uid == u32_max)
      && leb r.lifecycle_epoch epoch
      && ltb r.created_at_unix_seconds v.expires_at_unix_seconds
      && requester_matches r
      && valid_operation_id v.operation
      && review_text v.effect
      && is_none_or (create_review_valid v) v.create
      && (elim v.ssh [ some s ↦ v.target == ssh_target s | none ↦ review_text v.target ])
      && is_none_or ssh_valid v.ssh
      && leb (length v.arguments) 32
      && all review_text v.arguments
      && not (is_empty v.credentials)
      && leb (length v.credentials) 16
      && all (λ c. review_text c.label) v.credentials
      && valid_sha256 v.executable_digest
      && valid_sha256 v.policy_digest
      && v.arguments_digest == arguments_digest v.arguments
      && (v.one_time == one_time_text
          || v.one_time == previous_one_time_text
          || v.one_time == legacy_one_time_text)

  -- `DirectRecord::validate`
  unfoldable pub validate : DirectRecord → Text → ℕ → Bool
  validate r id epoch =
      is_none_or (receipt_valid r.review r.execution_claimed) r.write_receipt
      && r.binding_digest == digest r
      && is_none_or (λ d. is_some r.agent_owner && valid_sha256 d) r.replay_digest
      && is_none_or (λ b. b == approval_binding r) r.approval
      && (not (is_live r.review.status)
          || is_some r.approval
          || r.review.one_time == legacy_one_time_text)
      && validate_history r
      && shape_valid r id epoch
      && exit_in_range r.review.status
