-- ===== src/Request/Snapshots.antt =====
-- Snapshots match the record that they were taken of; the parts of a valid history.
use vaultwarden_cli.Base.{
  ℕ, ◌≤◌, ◌≡◌, refl, ap, sym, ◌∙◌, true, Option, none, some, List, [], ◌∷◌, ◌==◌, nat_eq, text_eq,
  option_text_eq, length, last, arith, Text, beq_refl, is_some_and, is_empty, is_none_or, &&-intro,
  not,
}
use vaultwarden_cli.Host.{Host}
use vaultwarden_cli.Storage.{WriteReceipt, option_receipt_eq}
use vaultwarden_cli.Request.Types.{
  DirectRecord, DirectStatus, HistoryEvent, HistoryOutcome, event_eq, option_status_eq, outcome_eq,
}
use vaultwarden_cli.Request.Status.{is_terminal}
use vaultwarden_cli.Request.History.{
  snapshot, matches_record, event_valid, identity_valid, consistent_outcome, receipt_follows,
  expected_event, history_version,
}
use vaultwarden_cli.Request.Record.{history_loop, validate_history}
use vaultwarden_cli.Request.Events.{history_loop-cons, step-parts}

item_refl : (o : Option Text) → is_none_or (λ i. o == some i) o ≡ true
item_refl none = refl
item_refl (some i) = beq_refl (some i)

receipt_follows_refl : (r : Option WriteReceipt) → receipt_follows r r ≡ true
unfolding receipt_follows
receipt_follows_refl none = refl
receipt_follows_refl (some r) = ground (arith, beq_refl r.attempt_id, item_refl r.item_id)

module _ ⦃h : Host⦄ (d : DirectRecord) (e : HistoryEvent) where
  pub matches-parts :
      matches_record d e ≡ true
      → (receipt_follows e.write_receipt d.write_receipt ≡ true)
        × (event_valid e ≡ true)
        × (e ≡ expected_event d e)
  unfolding matches_record
  matches-parts m = ground (arith, event_eq.eq_iff e (expected_event d e))

  pub identity-event : event_valid e ≡ true → identity_valid e ≡ true
  unfolding event_valid
  identity-event v = ground arith

  identity-expected :
      (n now : ℕ) (o : HistoryOutcome) (s : Option DirectStatus)
      → identity_valid (expected_event d e) ≡ identity_valid (snapshot d n now o s)
  unfolding identity_valid expected_event
  identity-expected n now o s = refl

  -- An event that matches its record has the identity that every snapshot of the record has.
  pub identity-snapshot :
      (n now : ℕ) (o : HistoryOutcome) (s : Option DirectStatus)
      → matches_record d e ≡ true
      → identity_valid (snapshot d n now o s) ≡ true
  identity-snapshot n now o s m =
      let (_, v, same) = matches-parts m in
      sym (identity-expected n now o s) ∙ ap identity_valid (sym same) ∙ identity-event v

module _ ⦃h : Host⦄ (d : DirectRecord) (n now : ℕ) (o : HistoryOutcome) (s : DirectStatus) where
  expected-snapshot : expected_event d (snapshot d n now o (some s)) ≡ snapshot d n now o (some s)
  unfolding expected_event
  expected-snapshot = refl

  snapshot-valid :
      identity_valid (snapshot d n now o (some s)) ≡ true
      → consistent_outcome o (some s) ≡ true
      → event_valid (snapshot d n now o (some s)) ≡ true
  unfolding event_valid snapshot
  snapshot-valid i c = &&-intro (&&-intro (&&-intro i refl) refl) c

  snapshot-follows :
      receipt_follows (snapshot d n now o (some s)).write_receipt d.write_receipt ≡ true
  unfolding snapshot
  snapshot-follows = receipt_follows_refl d.write_receipt

  -- A snapshot of a record whose identity is valid matches it, if its outcome admits its status.
  pub snapshot-matches :
      identity_valid (snapshot d n now o (some s)) ≡ true
      → consistent_outcome o (some s) ≡ true
      → matches_record d (snapshot d n now o (some s)) ≡ true
  unfolding matches_record
  snapshot-matches i c =
      &&-intro (&&-intro snapshot-follows (snapshot-valid i c))
        (rw expected-snapshot (beq_refl (snapshot d n now o (some s))))

-- The parts of a valid history.
pub record IsHistory ⦃h : Host⦄ (d : DirectRecord) : Type 0 where
  pub version : (d.history_version == history_version) ≡ true
  pub begun : not (is_empty d.audit) ≡ true
  pub bounded : length d.audit ≤ 5
  pub ends : history_loop d 0 none d.audit ≡ some (some d.review.status)

module _ ⦃h : Host⦄ (d : DirectRecord) where
  pub IsHistory-parts : validate_history d ≡ true → IsHistory d
  unfolding validate_history
  IsHistory-parts v = record {
    version = ground arith;
    begun = ground arith;
    bounded = ground arith;
    ends = ends_at (history_loop d 0 none d.audit) (ground arith);
  }
    where
      ends_at :
          (o : Option (Option DirectStatus))
          → is_some_and (λ p. p == some d.review.status) o ≡ true
          → o ≡ some (some d.review.status)
      ends_at none e = cc
      ends_at (some p) e = ap some ((option_status_eq.eq_iff p (some d.review.status)).0 e)

  pub history-intro :
      IsHistory d
      → (is_terminal d.review.status ≡ true
          → is_some_and (λ e. e.write_receipt == d.write_receipt) (last d.audit) ≡ true)
      → validate_history d ≡ true
  unfolding validate_history
  history-intro p settled =
      rw p.ends
        (ground (arith, p.version, p.begun, p.bounded, settled, beq_refl (some d.review.status)))

  -- A valid history has an event that matches the record.
  pub some-matches : IsHistory d → (e : HistoryEvent) × (matches_record d e ≡ true)
  some-matches p = at_start d.audit p.begun p.ends
    where
      at_start :
          (es : List HistoryEvent)
          → not (is_empty es) ≡ true
          → history_loop d 0 none es ≡ some (some d.review.status)
          → (e : HistoryEvent) × (matches_record d e ≡ true)
      at_start [] b l = cc
      at_start (e ∷ es) b l = (e, (step-parts d 0 none e (history_loop-cons d 0 none e es l).0).1)
