-- ===== src/Provider/Writes.antt =====
-- The durable receipt of a create request: `begin_write`, `record_write`, `write_reconciliation`
-- and `reconcile_write`.
use vaultwarden_cli.Base.{
  ℕ, ◌^◌, Bool, false, not, ◌&&◌, Option, none, some, List, [], ◌∷◌, ◌++◌, ◌==◌, text_eq,
  option_text_eq, ltb, if◌then◌else◌, Text, any, is_some, is_none, is_none_or, is_some_and, length,
  last, Result, ok, map_err, ◌>>=◌, ◌>>◌, guard, ok_or,
}
use vaultwarden_cli.Strings.{trim_end}
use vaultwarden_cli.Host.{Host}
use vaultwarden_cli.Storage.{WriteReceipt, WriteStatus, write_status_eq, destination_eq}
use vaultwarden_cli.Policy.Types.{CreateEffect}
use vaultwarden_cli.Request.Types.{
  DirectRecord, DirectStatus, HistoryOutcome, ApprovalBinding, RequestError, status_eq,
  option_binding_eq, outcome_eq,
}
use vaultwarden_cli.Request.Status.{is_terminal}
use vaultwarden_cli.Request.History.{snapshot}
use vaultwarden_cli.State.Types.{ProviderState, RequestRecord}
use vaultwarden_cli.Store.{Io, wall_time}
use vaultwarden_cli.Provider.Defs.{
  Provider, Plan, write, answer, unavailable, transact, query, find_request, find_direct,
  with_request,
}

abbrev pub with_direct : RequestRecord → DirectRecord → RequestRecord
with_direct r d = record r { direct = some d }

-- Two effects create the same item: the same server, up to trailing slashes, and destination.
unfoldable pub same_target : CreateEffect → CreateEffect → Bool
same_target a b = trim_end b'/' a.server == trim_end b'/' b.server && a.destination == b.destination

-- A request that has attempted to write to the target of this effect.
unfoldable pub has_attempted : CreateEffect → RequestRecord → Bool
unfolding same_target
has_attempted effect r = elim r.direct [
  | none ↦ false
  | some d ↦ is_some d.write_receipt && is_some_and (λ c. same_target c effect) d.review.create
]

unfoldable pub attempted_elsewhere : Text → CreateEffect → List RequestRecord → Bool
unfolding has_attempted
attempted_elsewhere id effect = any λ r. not (r.id == id) && has_attempted effect r

unfoldable pub uncertain_receipt : Text → WriteReceipt
uncertain_receipt id = record { attempt_id = id; item_id = none; status = WriteStatus.uncertain }

unfoldable pub begin_plan : ApprovalBinding → ProviderState → Result RequestError (Plan (Unit {0}))
begin_plan b s = do
  r ← ok_or (find_request b.request_id s.requests) RequestError.not_found
  d ← ok_or r.direct RequestError.not_found
  guard
      (d.execution_claimed
        && d.review.status == DirectStatus.running
        && d.approval == some b
        && is_none d.write_receipt)
      RequestError.already_decided
  effect ← ok_or d.review.create RequestError.invalid_request
  guard (not (attempted_elsewhere b.request_id effect s.requests)) RequestError.already_decided
  let d' : DirectRecord = record d { write_receipt = some (uncertain_receipt b.request_id) }
  ok (write (with_request s b.request_id (with_direct r d')) tt)

unfoldable pub record_plan :
    ApprovalBinding
    → Option Text
    → WriteStatus
    → ProviderState
    → Result RequestError (Plan (Unit {0}))
record_plan b item status s = do
  r ← ok_or (find_request b.request_id s.requests) RequestError.not_found
  d ← ok_or r.direct RequestError.not_found
  receipt ← ok_or d.write_receipt RequestError.invalid_request
  guard (is_none_or (λ old. some old == item) receipt.item_id) RequestError.invalid_request
  let receipt' : WriteReceipt = record receipt { item_id = item; status = status }
  let d' : DirectRecord = record d { write_receipt = some receipt' }
  ok (write (with_request s b.request_id (with_direct r d')) tt)

-- `write_reconciliation`: the effect and the receipt of a request that has ended.
unfoldable pub reconciliation_plan :
    Text → ProviderState → Result RequestError (CreateEffect × WriteReceipt)
reconciliation_plan id s = do
  d ← ok_or (find_direct id s.requests) RequestError.not_found
  guard (is_terminal d.review.status) RequestError.invalid_request
  effect ← ok_or d.review.create RequestError.invalid_request
  receipt ← ok_or d.write_receipt RequestError.invalid_request
  ok (effect, receipt)

abbrev pub is_reconciled : DirectRecord → Bool
is_reconciled d = is_some_and (λ e. e.outcome == HistoryOutcome.reconciled) (last d.audit)

unfoldable pub reconciled_receipt : WriteReceipt → Text → WriteReceipt
reconciled_receipt receipt item = record receipt {
  item_id = some item;
  status =
      if receipt.status == WriteStatus.verified
      then WriteStatus.verified
      else WriteStatus.created_unverified;
}

-- The record with its item named, and the event that says so.
unfoldable pub reconciled_record : DirectRecord → WriteReceipt → ℕ → DirectRecord
reconciled_record d receipt now =
    let d' : DirectRecord = record d { write_receipt = some receipt } in
    record d' {
      audit =
          d.audit
          ++ snapshot d' (length d.audit) now HistoryOutcome.reconciled (some d.review.status) ∷ [];
    }

unfoldable pub reconcile_plan :
    Text → Text → Io → ProviderState → Result RequestError (Plan WriteReceipt)
reconcile_plan id item io s = do
  r ← ok_or (find_request id s.requests) RequestError.not_found
  d ← ok_or r.direct RequestError.not_found
  guard (is_terminal d.review.status) RequestError.invalid_request
  receipt ← ok_or d.write_receipt RequestError.invalid_request
  guard (is_none_or (λ old. old == item) receipt.item_id) RequestError.invalid_request
  if is_reconciled d
      then ok (answer receipt)
      else (guard (ltb (length d.audit) (2 ^ 32)) RequestError.invalid_request
          >> (map_err unavailable (wall_time io 0) >>= λ now.
              let receipt' = reconciled_receipt receipt item in
              ok (
                write (with_request s id (with_direct r (reconciled_record d receipt' now)))
                  receipt')))

module _ ⦃h : Host⦄ where
  unfoldable pub begin_write :
      Provider → ApprovalBinding → Io → Result RequestError (Unit {0}) × Provider
  begin_write p b io = transact unavailable p io (begin_plan b)

  unfoldable pub record_write :
      Provider
      → ApprovalBinding
      → Option Text
      → WriteStatus
      → Io
      → Result RequestError (Unit {0}) × Provider
  record_write p b item status io = transact unavailable p io (record_plan b item status)

  unfoldable pub write_reconciliation :
      Provider → Text → Io → Result RequestError (CreateEffect × WriteReceipt)
  write_reconciliation p id io = query unavailable p io (reconciliation_plan id)

  -- A second reconciliation returns before the state in memory is replaced.
  unfoldable pub reconcile_write :
      Provider → Text → Text → Io → Result RequestError WriteReceipt × Provider
  reconcile_write p id item io = transact unavailable p io (reconcile_plan id item io)
