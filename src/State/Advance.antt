-- ===== src/State/Advance.antt =====
-- A legal step keeps a valid record valid: nothing that `transition` writes is refused on the next
-- read.
use mathlib.Core.Bool.{decide}
use native.Mathlib.Nat.{zero-add}
use vaultwarden_cli.Base.{
  ℕ, suc, ◌%◌, ◌^◌, ◌≤◌, ◌<◌, ◌≡◌, refl, ◌∙◌, true, false, ◌||◌, Option, none, some, List, [], ◌∷◌,
  ◌++◌, ◌==◌, nat_eq, text_eq, option_text_eq, length, last, arith, Text, beq_refl, last-append,
  length-append, is_some_and, is_empty, is_none_or, is_some, &&-intro, not,
}
use vaultwarden_cli.Host.{Host}
use vaultwarden_cli.Storage.{option_receipt_eq}
use vaultwarden_cli.Request.Types.{
  DirectRecord, DirectStatus, DecisionOutcome, HistoryEvent, event_eq, option_status_eq, outcome_eq,
  DirectStatus-discrete, status_eq, binding_eq,
}
use vaultwarden_cli.Request.Status.{is_terminal, outcome, exit_in_range}
use vaultwarden_cli.Request.History.{snapshot, matches_record, consistent_outcome, expected_event}
use vaultwarden_cli.Request.Record.{
  history_loop, history_step, validate_history, validate, claim_valid, position_valid, follows,
  approval_binding, shape_valid, digest, receipt_valid, is_live, legacy_one_time_text,
}
use vaultwarden_cli.Request.Events.{
  history_loop-append, length-le-rank, outcome-consistent, rank-live,
}
use vaultwarden_cli.Request.Snapshots.{
  identity-snapshot, snapshot-matches, IsHistory, IsHistory-parts, history-intro, some-matches,
}
use vaultwarden_cli.Request.Valid.{validate-parts, validate-intro}
use vaultwarden_cli.State.Transition.{advance, legal}

not-empty-append :
    (es : List HistoryEvent) (e : HistoryEvent) → not (is_empty (es ++ e ∷ [])) ≡ true
not-empty-append [] e = refl
not-empty-append (x ∷ es) e = refl

begun_length : (es : List HistoryEvent) → not (is_empty es) ≡ true → 0 < length es
begun_length [] h = cc
begun_length (e ∷ es) h = omega arith

module _ ⦃h : Host⦄ (d : DirectRecord) (next : DirectStatus) (decision : DecisionOutcome)
    (now : ℕ) where
  -- An old event matches the advanced record as it matched the record.
  matches-advance :
      (e : HistoryEvent) → matches_record (advance d next decision now) e ≡ matches_record d e
  unfolding matches_record expected_event advance
  matches-advance e = refl

  step-advance :
      (n : ℕ) (p : Option DirectStatus) (e : HistoryEvent)
      → history_step (advance d next decision now) n p e ≡ history_step d n p e
  unfolding history_step matches_record expected_event position_valid advance
  step-advance n p e = refl

  loop-advance :
      (n : ℕ) (p : Option DirectStatus) (es : List HistoryEvent)
      → history_loop (advance d next decision now) n p es ≡ history_loop d n p es
  unfolding history_loop
  loop-advance n p [] = refl
  loop-advance n p (e ∷ es) = rw (step-advance n p e, loop-advance (suc n) e.status es)

  shape-advance :
      (id : Text) (epoch : ℕ)
      → shape_valid (advance d next decision now) id epoch ≡ shape_valid d id epoch
  unfolding shape_valid advance
  shape-advance id epoch = refl

  digest-advance : digest (advance d next decision now) ≡ digest d
  unfolding digest advance
  digest-advance = refl

module _ ⦃h : Host⦄ (d : DirectRecord) (next : DirectStatus) (decision : DecisionOutcome)
    (now : ℕ) where
  unfoldable pub new_event : HistoryEvent
  new_event = snapshot d (length d.audit % 2 ^ 32) now (outcome next decision) (some next)

  -- What a legal step needs beyond a valid record: an exit code on the wire is a byte, and an
  -- execution is recorded of a claimed request only, or by recovery.
  pub record IsRecordable : Type 0 where
    pub legal_step : legal d next ≡ true
    pub exit_byte : exit_in_range next ≡ true
    pub claim : claim_valid d.execution_claimed new_event ≡ true

  legal-follows : legal d next ≡ true → follows d.review.status next ≡ true
  legal-follows l = ground arith

  legal-live : legal d next ≡ true → is_terminal d.review.status ≡ false
  legal-live l = ground arith

  legal-receipt : (advance d next decision now).audit ≡ d.audit ++ new_event ∷ []
  unfolding advance new_event
  legal-receipt = refl

  new_event-status : new_event.status ≡ some next
  unfolding new_event snapshot
  new_event-status = refl

  new_event-consistent :
      exit_in_range next ≡ true → consistent_outcome (outcome next decision) (some next) ≡ true
  unfolding consistent_outcome
  new_event-consistent x = ground (arith, outcome-consistent next decision x)

  new_event-matches : IsHistory d → exit_in_range next ≡ true → matches_record d new_event ≡ true
  unfolding new_event
  new_event-matches p x =
      let (e, m) = some-matches d p in
      snapshot-matches d (length d.audit % 2 ^ 32) now (outcome next decision) next
        (identity-snapshot d e (length d.audit % 2 ^ 32) now (outcome next decision) (some next) m)
        (new_event-consistent x)

  -- Before a step at most three events are recorded, and at least one.
  length-before : IsHistory d → legal d next ≡ true → length d.audit ≤ 3
  length-before p l = omega (
    arith,
    length-le-rank d d.audit d.review.status p.ends (legal-live l),
    rank-live d.review.status (legal-live l),
  )

  length-begun : IsHistory d → 0 < length d.audit
  length-begun p = begun_length d.audit p.begun

  new_event-ordinal : length d.audit ≤ 3 → (new_event.ordinal == length d.audit) ≡ true
  unfolding new_event snapshot
  new_event-ordinal l = ground arith

  new_event-position :
      legal d next ≡ true
      → 0 < length d.audit
      → position_valid d (length d.audit) (some d.review.status) new_event ≡ true
  unfolding position_valid
  new_event-position l b = rw new_event-status (ground (arith, legal-follows l))

  new_event-step :
      IsHistory d
      → IsRecordable
      → history_step d (length d.audit) (some d.review.status) new_event ≡ true
  unfolding history_step
  new_event-step p r =
      &&-intro
        (&&-intro
          (&&-intro (new_event-ordinal (length-before p r.legal_step))
            (new_event-matches p r.exit_byte))
          r.claim)
        (new_event-position r.legal_step (length-begun p))

  step-loop :
      IsHistory d
      → IsRecordable
      → history_loop d 0 none (d.audit ++ new_event ∷ []) ≡ some (some next)
  step-loop p r = rw (
    history_loop-append d 0 none d.audit new_event,
    p.ends,
    zero-add,
    new_event-step p r,
    new_event-status,
  )

  new_event-receipt :
      is_some_and (λ e. e.write_receipt == d.write_receipt) (last (d.audit ++ new_event ∷ []))
      ≡ true
  unfolding new_event snapshot
  new_event-receipt = rw (last-append d.audit new_event) (beq_refl d.write_receipt)

  pub history-advance :
      validate_history d ≡ true
      → IsRecordable
      → validate_history (advance d next decision now) ≡ true
  unfolding advance new_event
  history-advance v r =
      let p = IsHistory-parts d v in
      history-intro (advance d next decision now)
        (record {
          version = p.version;
          begun = not-empty-append d.audit new_event;
          bounded =
              omega (arith, length-before p r.legal_step, length-append d.audit (new_event ∷ []));
          ends =
              loop-advance d next decision now 0 none (d.audit ++ new_event ∷ []) ∙ step-loop p r;
        })
        (λ t. new_event-receipt)

  approval-advance :
      is_none_or (λ b. b == approval_binding d) d.approval ≡ true
      → is_none_or
          (λ b. b == approval_binding (advance d next decision now))
          (advance d next decision now).approval
        ≡ true
  unfolding advance approval_binding
  approval-advance a = ground (arith, beq_refl (approval_binding d))

  live-advance :
      legal d next ≡ true
      → (not (is_live d.review.status)
          || is_some d.approval
          || d.review.one_time == legacy_one_time_text)
        ≡ true
      → (not (is_live next)
          || is_some (advance d next decision now).approval
          || d.review.one_time == legacy_one_time_text)
        ≡ true
  unfolding advance DirectStatus-discrete decide
  live-advance l a = ground arith

  receipt-advance :
      is_none_or
        (receipt_valid (record (d.review) { status = next }) d.execution_claimed)
        d.write_receipt
      ≡ is_none_or (receipt_valid d.review d.execution_claimed) d.write_receipt
  unfolding receipt_valid
  receipt-advance = refl

  -- A legal, recordable step keeps the whole record valid.
  pub validate-advance :
      (id : Text) (epoch : ℕ)
      → validate d id epoch ≡ true
      → IsRecordable
      → validate (advance d next decision now) id epoch ≡ true
  unfolding advance
  validate-advance id epoch v r =
      let p = validate-parts d id epoch v in
      validate-intro (advance d next decision now) id epoch (record {
        receipt = rw receipt-advance p.receipt;
        sealed = rw (digest-advance d next decision now) p.sealed;
        replay = p.replay;
        approval = approval-advance p.approval;
        live = live-advance r.legal_step p.live;
        history = history-advance p.history r;
        shape = rw (shape-advance d next decision now id epoch) p.shape;
        exit = r.exit_byte;
      })
