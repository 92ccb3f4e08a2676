-- ===== src/State/Transition.antt =====
-- `RequestRecord::transition`, the sole mutation path of a direct request's lifecycle.
use vaultwarden_cli.Base.{
  ℕ, ◌%◌, ◌^◌, Bool, true, false, ◌&&◌, ◌||◌, none, some, [], ◌∷◌, ◌++◌, if◌then◌else◌, length,
  Result, ok, err,
}
use vaultwarden_cli.Request.Types.{DirectRecord, DirectStatus, DecisionOutcome}
use vaultwarden_cli.Request.Status.{is_terminal, outcome}
use vaultwarden_cli.Request.History.{snapshot}
use vaultwarden_cli.Request.Record.{approval_binding}
use vaultwarden_cli.State.Types.{RequestRecord, RequestLifecycleStatus, ProviderDiagnostic}

abbrev pub is_failed : DirectStatus → Bool
is_failed (DirectStatus.failed _) = true
is_failed DirectStatus.pending = false
is_failed DirectStatus.approved = false
is_failed DirectStatus.denied = false
is_failed DirectStatus.expired = false
is_failed DirectStatus.running = false
is_failed (DirectStatus.completed _) = false

abbrev pub step_legal : DirectStatus → DirectStatus → Bool
step_legal DirectStatus.pending DirectStatus.approved = true
step_legal DirectStatus.pending DirectStatus.denied = true
step_legal DirectStatus.pending DirectStatus.expired = true
step_legal DirectStatus.approved DirectStatus.expired = true
step_legal DirectStatus.approved DirectStatus.running = true
step_legal DirectStatus.running (DirectStatus.completed _) = true
step_legal DirectStatus.running (DirectStatus.failed _) = true
step_legal _ _ = false

abbrev pub is_approved : DirectStatus → Bool
is_approved DirectStatus.approved = true
is_approved DirectStatus.pending = false
is_approved DirectStatus.running = false
is_approved DirectStatus.denied = false
is_approved DirectStatus.expired = false
is_approved (DirectStatus.completed _) = false
is_approved (DirectStatus.failed _) = false

-- Before a claim an approved request may not fail; after it, it may.
abbrev pub legal : DirectRecord → DirectStatus → Bool
legal d next =
    step_legal d.review.status next
    || (d.execution_claimed && is_approved d.review.status && is_failed next)

abbrev pub lifecycle_of : DirectStatus → RequestLifecycleStatus
lifecycle_of DirectStatus.pending = RequestLifecycleStatus.pending
lifecycle_of DirectStatus.approved = RequestLifecycleStatus.approved
lifecycle_of DirectStatus.denied = RequestLifecycleStatus.denied
lifecycle_of DirectStatus.expired = RequestLifecycleStatus.invalidated
lifecycle_of DirectStatus.running = RequestLifecycleStatus.running
lifecycle_of (DirectStatus.completed _) = RequestLifecycleStatus.completed
lifecycle_of (DirectStatus.failed _) = RequestLifecycleStatus.failed

-- The binding is set on approval and dropped at the end.
with_approval : DirectRecord → DirectStatus → DirectRecord
with_approval d next = record d {
  approval =
      if is_approved next
      then some (approval_binding d)
      else (if is_terminal next then none else d.approval);
}

-- The record after a legal step: one more event, and the new status.
unfoldable pub advance : DirectRecord → DirectStatus → DecisionOutcome → ℕ → DirectRecord
unfolding with_approval
advance d next decision now = record (with_approval d next) {
  audit =
      d.audit ++ snapshot d (length d.audit % 2 ^ 32) now (outcome next decision) (some next) ∷ [];
  review = record (d.review) { status = next };
}

unfoldable pub advance_request :
    RequestRecord → DirectRecord → DirectStatus → DecisionOutcome → ℕ → RequestRecord
advance_request r d next decision now = record r {
  status = lifecycle_of next;
  direct = some (advance d next decision now);
}

-- No step leads to `Pending`, so the source's later refusal of it is not reached.
unfoldable pub transition :
    RequestRecord → DirectStatus → DecisionOutcome → ℕ → Result ProviderDiagnostic RequestRecord
unfolding advance_request
transition r next decision now = elim r.direct [
  | none ↦ err ProviderDiagnostic.invalid_state
  | some d ↦
      if legal d next
      then ok (advance_request r d next decision now)
      else err ProviderDiagnostic.invalid_state
]
