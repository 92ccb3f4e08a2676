-- ===== src/Request/History.antt =====
-- `HistoryEvent` of src/access/history.rs: snapshots of a record, their validity, and their match
-- with the record that keeps them.
use vaultwarden_cli.Base.{
  ℕ, Bool, true, false, not, ◌&&◌, ◌||◌, Option, none, some, leb, ltb, ◌==◌, nat_eq, text_eq,
  option_text_eq, if◌then◌else◌, Text, all, is_empty, is_some, length, is_none_or, is_some_and,
  unwrap_or, Result, ok, err,
}
use vaultwarden_cli.Host.{Host}
use vaultwarden_cli.Storage.{WriteReceipt}
use vaultwarden_cli.Ident.{valid_operation_id, valid_sha256, valid_request_id}
use vaultwarden_cli.Policy.Ssh.{ssh_valid}
use vaultwarden_cli.Request.Types.{
  DirectRecord, DirectStatus, HistoryEvent, HistoryOutcome, RequesterSnapshot, RequestOwner,
  RequestError, ApprovalMethod, event_eq, outcome_eq,
}
use vaultwarden_cli.Request.Status.{is_terminal, status_consistent}

abbrev pub history_version : ℕ
history_version = 1

abbrev pub u32_max : ℕ
u32_max = 4294967295

-- `DirectRecord::owner`
unfoldable pub owner : DirectRecord → RequestOwner
owner r = elim r.agent_owner [
  | none ↦ RequestOwner.human r.owner_uid
  | some a ↦ RequestOwner.agent a
]

requester_snapshot : DirectRecord → RequesterSnapshot
unfolding owner
requester_snapshot r = elim (owner r) [
  | RequestOwner.human uid ↦ RequesterSnapshot.human uid r.review.requester
  | RequestOwner.agent a ↦ RequesterSnapshot.agent a.label a.fingerprint
]

-- `HistoryEvent::snapshot`
unfoldable pub snapshot : DirectRecord → ℕ → ℕ → HistoryOutcome → Option DirectStatus → HistoryEvent
unfolding requester_snapshot
snapshot r ordinal now outcome status = record {
  version = history_version;
  request_id = r.review.id;
  operation = r.review.operation;
  requester = requester_snapshot r;
  policy_revision = r.review.policy_digest;
  credentials = r.review.credentials;
  create = r.review.create;
  write_receipt = r.write_receipt;
  ssh = r.review.ssh;
  created_at_unix_seconds = r.created_at_unix_seconds;
  expires_at_unix_seconds = r.review.expires_at_unix_seconds;
  at_unix_seconds = some now;
  ordinal = ordinal;
  outcome = outcome;
  status = status;
  approval = none;
}

-- `HistoryEvent::consistent_outcome`
unfoldable pub consistent_outcome : HistoryOutcome → Option DirectStatus → Bool
consistent_outcome o status =
    o == HistoryOutcome.reconciled && is_some_and is_terminal status
    || is_some_and (status_consistent o) status
    || o == HistoryOutcome.legacy_unknown

abbrev pub short_text : Text → Bool
short_text t = not (is_empty t) && leb (length t) 256

abbrev requester_valid : RequesterSnapshot → Bool
requester_valid (RequesterSnapshot.human uid label) = not (uid == u32_max) && short_text label
requester_valid (RequesterSnapshot.agent label fingerprint) =
    short_text label && valid_sha256 fingerprint

approval_valid : HistoryOutcome → Option ApprovalMethod → Bool
approval_valid o none = true
approval_valid o (some (ApprovalMethod.biometric key_id)) =
    o == HistoryOutcome.approved && valid_sha256 key_id

-- Earlier snapshots precede the write: theirs may lack the item that the record now names.
unfoldable pub receipt_follows : Option WriteReceipt → Option WriteReceipt → Bool
receipt_follows none latest = true
receipt_follows (some r) none = false
receipt_follows (some r) (some latest) =
    r.attempt_id == latest.attempt_id && is_none_or (λ i. latest.item_id == some i) r.item_id

-- The event that `matches_record` expects: the record's snapshot with the event's own facts.
unfoldable pub expected_event : DirectRecord → HistoryEvent → HistoryEvent
unfolding snapshot
expected_event r e =
    record (snapshot r e.ordinal (unwrap_or 0 e.at_unix_seconds) e.outcome e.status) {
      at_unix_seconds = e.at_unix_seconds;
      write_receipt = e.write_receipt;
      approval = e.approval;
    }

module _ ⦃h : Host⦄ where
  -- The parts of an event's validity that its record alone decides.
  unfoldable pub identity_valid : HistoryEvent → Bool
  identity_valid e =
      e.version == history_version
      && valid_request_id e.request_id
      && valid_operation_id e.operation
      && valid_sha256 e.policy_revision
      && ltb e.created_at_unix_seconds e.expires_at_unix_seconds
      && requester_valid e.requester
      && not (is_empty e.credentials)
      && leb (length e.credentials) 16
      && all (λ c. short_text c.label) e.credentials
      && is_none_or ssh_valid e.ssh

  -- `HistoryEvent::valid`
  unfoldable pub event_valid : HistoryEvent → Bool
  unfolding approval_valid
  event_valid e =
      identity_valid e
      && (is_some e.at_unix_seconds || e.outcome == HistoryOutcome.legacy_unknown)
      && approval_valid e.outcome e.approval
      && consistent_outcome e.outcome e.status

  -- `HistoryEvent::matches_record`
  unfoldable pub matches_record : DirectRecord → HistoryEvent → Bool
  matches_record r e =
      receipt_follows e.write_receipt r.write_receipt && event_valid e && e == expected_event r e

-- `history::limit`
unfoldable pub limit : Option ℕ → Result RequestError ℕ
limit value =
    let n = unwrap_or 50 value in
    if leb 1 n && leb n 200 then ok n else err RequestError.invalid_request
