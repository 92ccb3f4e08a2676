-- ===== src/State/Steps.antt =====
-- What a successful `transition` tells of the request before and after it.
use vaultwarden_cli.Base.{◌≡◌, true, none, some, arith, inl, inr, Bool-cases, Option-cases, ok, ℕ}
use vaultwarden_cli.Request.Types.{DirectRecord, DirectStatus, DecisionOutcome}
use vaultwarden_cli.State.Types.{RequestRecord}
use vaultwarden_cli.State.Transition.{transition, legal, advance_request}

module _ (r : RequestRecord) (next : DirectStatus) (decision : DecisionOutcome) (now : ℕ) where
  no_record : r.direct ≡ none → {r' : RequestRecord} → transition r next decision now ≡ ok r' → ⊥
  unfolding transition
  no_record e {r'} t = ground arith

  taken :
      (d : DirectRecord)
      → r.direct ≡ some d
      → {r' : RequestRecord} → transition r next decision now ≡ ok r'
      → (legal d next ≡ true) × (r' ≡ advance_request r d next decision now)
  unfolding transition
  taken d e {r'} t = elim (Bool-cases (legal d next)) [
    | inl l ↦ (l, ground arith)
    | inr l ↦ ground arith
  ]

  pub transition-ok :
      {r' : RequestRecord}
      → transition r next decision now ≡ ok r'
      → (d : DirectRecord) × (r.direct ≡ some d)
        × (legal d next ≡ true)
        × (r' ≡ advance_request r d next decision now)
  transition-ok t = elim (Option-cases r.direct) [
    | inl gone ↦ absurd (no_record gone t)
    | inr (d, at) ↦ let (l, done) = taken d at t in (d, at, l, done)
  ]
