-- ===== src/Provider/Changes.antt =====
-- What each change that an operation makes does to a request.
use vaultwarden_cli.Base.{
  ◌≡◌, refl, subst, sym, Bool, true, false, Option, none, some, List, text_eq, arith, inl, inr,
  Option-cases, is_some, not, ◌&&◌, ◌==◌, ok, ℕ,
}
use vaultwarden_cli.Request.Types.{
  DirectRecord, DirectStatus, DecisionOutcome, HistoryEvent, ApprovalMethod, status_eq,
}
use vaultwarden_cli.Request.Status.{is_terminal}
use vaultwarden_cli.Request.Record.{projection}
use vaultwarden_cli.State.Lifecycle.{Lifecycle, Reaches, legal_step}
use vaultwarden_cli.State.Types.{RequestRecord, RequestLifecycleStatus, lifecycle_status_eq}
use vaultwarden_cli.State.Transition.{transition, legal, advance, advance_request}
use vaultwarden_cli.State.Steps.{transition-ok}
use vaultwarden_cli.Storage.{WriteReceipt}
use vaultwarden_cli.Provider.Requests.{with_method, note_method}
use vaultwarden_cli.Host.{Host}
use vaultwarden_cli.Provider.Evolution.{Evolves, OptionEvolves, RequestEvolves, RequestEvolves-refl}

not_legal :
    (d : DirectRecord) (next : DirectStatus)
    → legal d next ≡ true
    → is_terminal d.review.status ≡ true
    → ⊥
not_legal d next l t = ground arith

one_step : {s t : DirectStatus} {b c : Bool} → Lifecycle s b t c → Reaches s b t c
one_step {s} {t} {b} {c} l = Reaches.step s t t b c c l (Reaches.stay t c)

step-Evolves :
    (d : DirectRecord) (next : DirectStatus) (decision : DecisionOutcome) (now : ℕ)
    → legal d next ≡ true
    → Evolves false d (advance d next decision now)
unfolding advance projection
step-Evolves d next decision now l = record {
  claimed = λ c. c;
  receipt = λ c. c;
  no_receipt = λ c. refl;
  create = refl;
  terms = refl;
  replay = refl;
  path = one_step (legal_step d.review.status next d.execution_claimed l);
  ended = λ t. absurd (not_legal d next l t);
}

-- A step of the lifecycle evolves its request.
pub transition-evolves :
    (r : RequestRecord) (next : DirectStatus) (decision : DecisionOutcome) (now : ℕ)
    {r' : RequestRecord}
    → transition r next decision now ≡ ok r'
    → RequestEvolves false r r'
unfolding OptionEvolves advance_request
transition-evolves r next decision now e =
    let (d, at, l, done) = transition-ok r next decision now e in
    subst (RequestEvolves false r) (sym done)
      (record { same_id = refl; record_of = rw at (step-Evolves d next decision now l) })

-- A request whose record is replaced by one that it evolves to.
pub direct-Evolves :
    (b : Bool) (r : RequestRecord) (d d' : DirectRecord)
    → r.direct ≡ some d
    → Evolves b d d'
    → RequestEvolves b r (record r { direct = some d' })
unfolding OptionEvolves
direct-Evolves b r d d' at v = record {
  same_id = refl;
  record_of = subst (λ o. OptionEvolves b o (some d')) (sym at) v;
}

claim_path :
    (d : DirectRecord)
    → (d.review.status == DirectStatus.approved) ≡ true
    → d.execution_claimed ≡ false
    → Reaches d.review.status d.execution_claimed d.review.status true
claim_path d s c =
    subst (λ x. Reaches x d.execution_claimed x true)
      (sym ((status_eq.eq_iff d.review.status DirectStatus.approved).0 s))
      (subst (λ b. Reaches DirectStatus.approved b DirectStatus.approved true) (sym c)
        (one_step Lifecycle.claim))

-- A claim of an approved request that is not claimed.
pub claim-evolves :
    (r : RequestRecord) (d : DirectRecord)
    → r.direct ≡ some d
    → (r.status == RequestLifecycleStatus.approved
        && d.review.status == DirectStatus.approved
        && not d.execution_claimed)
      ≡ true
    → RequestEvolves false r (record r { direct = some (record d { execution_claimed = true }) })
unfolding projection
claim-evolves r d at allowed =
    direct-Evolves false r d (record d { execution_claimed = true }) at
      (record {
        claimed = λ c. refl;
        receipt = λ c. c;
        no_receipt = λ c. refl;
        create = refl;
        terms = refl;
        replay = refl;
        path = claim_path d (ground arith) (ground arith);
        ended = λ t. refl;
      })

-- Another receipt and another history.
pub receipt-evolves :
    (b : Bool) (r : RequestRecord) (d : DirectRecord) (x : WriteReceipt) (es : List HistoryEvent)
    → r.direct ≡ some d
    → (b ≡ false → is_some d.write_receipt ≡ true)
    → RequestEvolves b r
        (record r { direct = some (record d { write_receipt = some x; audit = es }) })
unfolding projection
receipt-evolves b r d x es at has =
    direct-Evolves b r d (record d { write_receipt = some x; audit = es }) at
      (record {
        claimed = λ c. c;
        receipt = λ c. refl;
        no_receipt = λ c. sym (has c);
        create = refl;
        terms = refl;
        replay = refl;
        path = Reaches.stay d.review.status d.execution_claimed;
        ended = λ t. refl;
      })

module _ ⦃h : Host⦄ (m : ApprovalMethod) (r : RequestRecord) where
  with_method-some :
      (d : DirectRecord)
      → r.direct ≡ some d
      → with_method (some m) r
        ≡ record r { direct = some (record d { audit = note_method (some m) d.audit }) }
  unfolding with_method
  with_method-some d at = rw at refl

  with_method-none : r.direct ≡ none → with_method (some m) r ≡ r
  unfolding with_method
  with_method-none at = rw at refl

  audit-Evolves :
      (d : DirectRecord) (es : List HistoryEvent) → Evolves false d (record d { audit = es })
  unfolding projection
  audit-Evolves d es = record {
    claimed = λ c. c;
    receipt = λ c. c;
    no_receipt = λ c. refl;
    create = refl;
    terms = refl;
    replay = refl;
    path = Reaches.stay d.review.status d.execution_claimed;
    ended = λ t. refl;
  }

  some_method : RequestEvolves false r (with_method (some m) r)
  some_method = elim (Option-cases r.direct) [
    | inl gone ↦
        subst (RequestEvolves false r) (sym (with_method-none gone)) (RequestEvolves-refl false r)
    | inr (d, at) ↦ subst (RequestEvolves false r) (sym (with_method-some d at)) (
        direct-Evolves false r d (record d { audit = note_method (some m) d.audit }) at
          (audit-Evolves d (note_method (some m) d.audit)))
  ]

pub method-evolves :
    ⦃h : Host⦄ (m : Option ApprovalMethod) (r : RequestRecord)
    → RequestEvolves false r (with_method m r)
unfolding with_method
method-evolves none r = RequestEvolves-refl false r
method-evolves (some m) r = some_method m r
