-- ===== src/State/Keep.antt =====
-- `RequestRecord::transition` against `DirectRecord::validate`.
use vaultwarden_cli.Base.{ℕ, ◌≡◌, ap, sym, ◌∙◌, true, some, Text, ok}
use vaultwarden_cli.Host.{Host}
use vaultwarden_cli.Request.Types.{DirectRecord, DirectStatus, DecisionOutcome}
use vaultwarden_cli.Request.Status.{exit_in_range}
use vaultwarden_cli.Request.Record.{validate, claim_valid}
use vaultwarden_cli.State.Types.{RequestRecord}
use vaultwarden_cli.State.Transition.{transition, legal, advance, advance_request}
use vaultwarden_cli.State.Steps.{transition-ok}
use vaultwarden_cli.State.Advance.{new_event, validate-advance}

some-injective : {A : Type 0} {a b : A} → some a ≡ some b → a ≡ b
some-injective e = cc

module _ ⦃h : Host⦄ where
  -- Let the record of a request validate under an identifier and an epoch, let the exit code of the
  -- next status be in range, and let the event that the step adds pass the claim test. Then a
  -- transition that succeeds leaves a record that validates under the same identifier and epoch.
  pub transition-valid :
      (r r' : RequestRecord) (d : DirectRecord) (next : DirectStatus) (decision : DecisionOutcome)
      (now : ℕ) (id : Text) (epoch : ℕ)
      → r.direct ≡ some d
      → validate d id epoch ≡ true
      → exit_in_range next ≡ true
      → claim_valid d.execution_claimed (new_event d next decision now) ≡ true
      → transition r next decision now ≡ ok r'
      → (d' : DirectRecord) × (r'.direct ≡ some d') × (validate d' id epoch ≡ true)
  unfolding advance_request
  transition-valid r r' d next decision now id epoch at v x c t =
      let (c', at', l, done) = transition-ok r next decision now t in
      let same = some-injective (sym at' ∙ at) in
      (
        advance d next decision now,
        ap (λ y. y.direct) done ∙ ap (λ y. some (advance y next decision now)) same,
        validate-advance d next decision now id epoch v (record {
          legal_step = ap (λ y. legal y next) (sym same) ∙ l;
          exit_byte = x;
          claim = c;
        }),
      )
