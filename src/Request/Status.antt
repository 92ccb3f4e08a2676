-- ===== src/Request/Status.antt =====
-- The statuses of a request, and the outcome that its history reports for each.
use vaultwarden_cli.Base.{ℕ, Bool, true, false, if◌then◌else◌, ◌==◌, ℤ}
use Prim.Native.Nat.{compare, Ordering}
use vaultwarden_cli.Request.Types.{
  DirectStatus, DirectFailure, DecisionOutcome, HistoryOutcome, decision_eq, outcome_eq,
}

-- `DirectStatus::is_terminal`
abbrev pub is_terminal : DirectStatus → Bool
is_terminal DirectStatus.pending = false
is_terminal DirectStatus.approved = false
is_terminal DirectStatus.running = false
is_terminal DirectStatus.denied = true
is_terminal DirectStatus.expired = true
is_terminal (DirectStatus.completed _) = true
is_terminal (DirectStatus.failed _) = true

abbrev completed_outcome : ℤ → HistoryOutcome
completed_outcome (ℤ.pos ℕ.zero) = HistoryOutcome.succeeded
completed_outcome (ℤ.pos (ℕ.suc n)) = HistoryOutcome.execution_nonzero
completed_outcome (ℤ.negsuc n) = HistoryOutcome.execution_nonzero

abbrev unless_recovered : DecisionOutcome → HistoryOutcome → HistoryOutcome
unless_recovered d o = if d == DecisionOutcome.recovered then HistoryOutcome.recovered else o

abbrev failed_outcome : DirectFailure → DecisionOutcome → HistoryOutcome
failed_outcome DirectFailure.review_unavailable d = HistoryOutcome.review_unavailable
failed_outcome DirectFailure.execution_unavailable d =
    unless_recovered d HistoryOutcome.execution_unavailable
failed_outcome DirectFailure.execution_rejected d = HistoryOutcome.execution_rejected
failed_outcome DirectFailure.execution_nonzero d = HistoryOutcome.execution_nonzero
failed_outcome DirectFailure.execution_signaled d = HistoryOutcome.execution_signaled
failed_outcome DirectFailure.observation_lost d = unless_recovered d HistoryOutcome.observation_lost

abbrev expired_outcome : DecisionOutcome → HistoryOutcome
expired_outcome DecisionOutcome.review_unavailable = HistoryOutcome.review_unavailable
expired_outcome DecisionOutcome.execution_unavailable = HistoryOutcome.execution_unavailable
expired_outcome DecisionOutcome.invalidated = HistoryOutcome.invalidated
expired_outcome DecisionOutcome.recovered = HistoryOutcome.recovered
expired_outcome DecisionOutcome.approved = HistoryOutcome.expired
expired_outcome DecisionOutcome.denied = HistoryOutcome.expired
expired_outcome DecisionOutcome.expired = HistoryOutcome.expired

-- `history::outcome`
unfoldable pub outcome : DirectStatus → DecisionOutcome → HistoryOutcome
outcome DirectStatus.pending d = HistoryOutcome.submitted
outcome DirectStatus.approved d = HistoryOutcome.approved
outcome DirectStatus.denied d = HistoryOutcome.denied
outcome DirectStatus.running d = HistoryOutcome.execution_started
outcome (DirectStatus.completed code) d = completed_outcome code
outcome (DirectStatus.failed reason) d = failed_outcome reason d
outcome DirectStatus.expired d = expired_outcome d

-- `StrictDirectStatus`: on the wire an exit code is a byte.
unfoldable pub exit_in_range : DirectStatus → Bool
exit_in_range (DirectStatus.completed (ℤ.pos n)) = elim (compare n 255) [
  | Ordering.gt ↦ false
  | _ ↦ true
]
exit_in_range (DirectStatus.completed (ℤ.negsuc n)) = false
exit_in_range _ = true

-- The failures of a completed run that a status and an outcome share.
abbrev failed_consistent : HistoryOutcome → DirectFailure → Bool
failed_consistent HistoryOutcome.execution_nonzero DirectFailure.execution_nonzero = true
failed_consistent HistoryOutcome.execution_signaled DirectFailure.execution_signaled = true
failed_consistent HistoryOutcome.execution_rejected DirectFailure.execution_rejected = true
failed_consistent HistoryOutcome.execution_unavailable DirectFailure.execution_unavailable = true
failed_consistent HistoryOutcome.review_unavailable DirectFailure.review_unavailable = true
failed_consistent HistoryOutcome.recovered DirectFailure.execution_unavailable = true
failed_consistent HistoryOutcome.recovered DirectFailure.observation_lost = true
failed_consistent HistoryOutcome.observation_lost DirectFailure.observation_lost = true
failed_consistent _ _ = false

abbrev completed_consistent : HistoryOutcome → ℤ → Bool
completed_consistent HistoryOutcome.succeeded (ℤ.pos ℕ.zero) = true
completed_consistent HistoryOutcome.execution_nonzero (ℤ.pos (ℕ.suc n)) = elim (compare n 254) [
  | Ordering.gt ↦ false
  | _ ↦ true
]
completed_consistent _ _ = false

abbrev expired_consistent : HistoryOutcome → Bool
expired_consistent HistoryOutcome.expired = true
expired_consistent HistoryOutcome.review_unavailable = true
expired_consistent HistoryOutcome.invalidated = true
expired_consistent HistoryOutcome.execution_unavailable = true
expired_consistent HistoryOutcome.recovered = true
expired_consistent _ = false

abbrev pub status_consistent : HistoryOutcome → DirectStatus → Bool
status_consistent o DirectStatus.pending = o == HistoryOutcome.submitted
status_consistent o DirectStatus.approved = o == HistoryOutcome.approved
status_consistent o DirectStatus.denied = o == HistoryOutcome.denied
status_consistent o DirectStatus.running = o == HistoryOutcome.execution_started
status_consistent o DirectStatus.expired = expired_consistent o
status_consistent o (DirectStatus.completed code) = completed_consistent o code
status_consistent o (DirectStatus.failed reason) = failed_consistent o reason
