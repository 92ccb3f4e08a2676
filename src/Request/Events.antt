-- ===== src/Request/Events.antt =====
-- Facts about the history of a record: the loop over its events, and the events of a valid one.
use vaultwarden_cli.Base.{
  ℕ, suc, ◌+◌, ◌≤◌, ◌≡◌, ◌⊎◌, true, false, Option, none, some, List, [], ◌∷◌, ◌++◌, ◌==◌, nat_eq,
  if◌then◌else◌, length, and_then, arith, inl, inr, Bool-cases, Option-cases,
}
use mathlib.Core.Bool.{decide}
use native.Mathlib.Nat.{add-zero}
use vaultwarden_cli.Host.{Host}
use vaultwarden_cli.Request.Types.{
  DirectRecord, DirectStatus, DecisionOutcome, HistoryEvent, option_status_eq, outcome_eq,
  HistoryOutcome-discrete, DecisionOutcome-discrete,
}
use vaultwarden_cli.Request.Status.{is_terminal, outcome, exit_in_range, status_consistent}
use vaultwarden_cli.Request.History.{matches_record}
use vaultwarden_cli.Request.Record.{
  history_loop, history_step, position_valid, claim_valid, follows,
}

-- How far a status is from the submission.
abbrev pub rank : DirectStatus → ℕ
rank DirectStatus.pending = 0
rank DirectStatus.approved = 1
rank DirectStatus.running = 2
rank DirectStatus.denied = 3
rank DirectStatus.expired = 3
rank (DirectStatus.completed _) = 3
rank (DirectStatus.failed _) = 3

abbrev pub rank? : Option DirectStatus → ℕ
rank? none = 0
rank? (some s) = rank s

follows-rank : (s t : DirectStatus) → follows s t ≡ true → rank s + 1 ≤ rank t
follows-rank s t h = ground arith

rank-terminal : (s : DirectStatus) → is_terminal s ≡ true → rank s ≡ 3
rank-terminal s h = ground arith

pub rank-live : (s : DirectStatus) → is_terminal s ≡ false → rank s ≤ 2
rank-live s h = ground arith

-- The outcome that `transition` records is one that its status admits.
pub outcome-consistent :
    (s : DirectStatus) (d : DecisionOutcome)
    → exit_in_range s ≡ true
    → status_consistent (outcome s d) s ≡ true
unfolding outcome exit_in_range HistoryOutcome-discrete DecisionOutcome-discrete decide
outcome-consistent s d h = ground arith

further :
    (s u t : DirectStatus) (n : ℕ)
    → ((rank s + 1 ≤ rank u) ⊎ (3 ≤ rank u))
    → ((rank u + n ≤ rank t) ⊎ (3 ≤ rank t))
    → ((rank s + suc n ≤ rank t) ⊎ (3 ≤ rank t))
further s u t n h k = omega arith

short :
    (s t : DirectStatus) (n : ℕ)
    → ((rank s + n ≤ rank t) ⊎ (3 ≤ rank t))
    → rank t ≤ 2
    → suc n ≤ rank t + 1
short s t n h k = omega arith

add_suc : (a b : ℕ) → suc a + b ≡ a + suc b
add_suc a b = omega arith

module _ ⦃h : Host⦄ where
  pub history_loop-append :
      (r : DirectRecord) (n : ℕ) (p : Option DirectStatus) (es : List HistoryEvent)
      (e : HistoryEvent)
      → history_loop r n p (es ++ e ∷ [])
        ≡ and_then
            (history_loop r n p es)
            (λ q. if history_step r (n + length es) q e then some e.status else none)
  unfolding history_loop
  history_loop-append r n p [] e = rw add-zero
  history_loop-append r n p (x ∷ es) e = elim (Bool-cases (history_step r n p x)) [
    | inl good ↦ rw (good, history_loop-append r (suc n) x.status es e, add_suc n (length es))
    | inr bad ↦ rw bad
  ]

  -- A later event moves on, or repeats a terminal status.
  position-rank :
      (r : DirectRecord) (n : ℕ) (s : DirectStatus) (e : HistoryEvent)
      → position_valid r (suc n) (some s) e ≡ true
      → (t : DirectStatus) × (e.status ≡ some t) × ((rank s + 1 ≤ rank t) ⊎ (3 ≤ rank t))
  unfolding position_valid
  position-rank r n s e h = elim (Option-cases e.status) [
    | inl gone ↦ absurd (ground (arith, option_status_eq.eq_iff (some s) e.status))
    | inr (t, at) ↦ (
      t,
      at,
      ground (arith, option_status_eq.eq_iff (some s) e.status, follows-rank s t, rank-terminal s),
    )
  ]

  end-rank :
      (r : DirectRecord) (n : ℕ) (s t : DirectStatus)
      → history_loop r (suc n) (some s) [] ≡ some (some t)
      → rank s + 0 ≤ rank t
  unfolding history_loop
  end-rank r n s t e = ground arith

  none-position :
      (r : DirectRecord) (n : ℕ) (e : HistoryEvent) → position_valid r (suc n) none e ≡ true → ⊥
  unfolding position_valid
  none-position r n e h = ground arith

  pub history_loop-cons :
      (r : DirectRecord) (n : ℕ) (p : Option DirectStatus) (e : HistoryEvent)
      (es : List HistoryEvent) {q : Option DirectStatus}
      → history_loop r n p (e ∷ es) ≡ some q
      → (history_step r n p e ≡ true) × (history_loop r (suc n) e.status es ≡ some q)
  unfolding history_loop
  history_loop-cons r n p e es h = ground arith

  pub step-parts :
      (r : DirectRecord) (n : ℕ) (p : Option DirectStatus) (e : HistoryEvent)
      → history_step r n p e ≡ true
      → ((e.ordinal == n) ≡ true)
        × (matches_record r e ≡ true)
        × (claim_valid r.execution_claimed e ≡ true)
        × (position_valid r n p e ≡ true)
  unfolding history_step
  step-parts r n p e h = ground arith

  tail-rank :
      (r : DirectRecord) (n : ℕ) (s : DirectStatus) (es : List HistoryEvent) (t : DirectStatus)
      → history_loop r (suc n) (some s) es ≡ some (some t)
      → (rank s + length es ≤ rank t) ⊎ (3 ≤ rank t)
  tail-rank r n s [] t h = inl (end-rank r n s t h)
  tail-rank r n s (e ∷ es) t h =
      let (good, rest) = history_loop-cons r (suc n) (some s) e es h in
      let (u, at, moved) = position-rank r n s e (step-parts r (suc n) (some s) e good).3 in
      let below : (rank u + length es ≤ rank t) ⊎ (3 ≤ rank t) =
        tail-rank r (suc n) u es t (rw at at rest) in
      further s u t (length es) moved below

  -- A first event with no status leaves nothing that could follow.
  none-stays :
      (r : DirectRecord) (n : ℕ) (es : List HistoryEvent) (t : DirectStatus)
      → history_loop r (suc n) none es ≡ some (some t)
      → ⊥
  unfolding history_loop
  none-stays r n [] t h = cc
  none-stays r n (e ∷ es) t h =
      none-position r n e
        (step-parts r (suc n) none e (history_loop-cons r (suc n) none e es h).0).3

  -- A record whose last status is not terminal has made at most one event for each status so far.
  pub length-le-rank :
      (r : DirectRecord) (es : List HistoryEvent) (t : DirectStatus)
      → history_loop r 0 none es ≡ some (some t)
      → is_terminal t ≡ false
      → length es ≤ rank t + 1
  length-le-rank r [] t h live = omega arith
  length-le-rank r (e ∷ es) t h live =
      let (good, rest) = history_loop-cons r 0 none e es h in
      elim (Option-cases e.status) [
        | inl gone ↦ absurd (none-stays r 0 es t (rw gone at rest))
        | inr (s, at) ↦
            short s t (length es) (tail-rank r 0 s es t (rw at at rest)) (rank-live t live)
      ]
