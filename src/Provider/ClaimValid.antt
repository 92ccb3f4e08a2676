-- ===== src/Provider/ClaimValid.antt =====
-- A claim leaves a record that validates.
use vaultwarden_cli.Base.{
  ℕ, suc, ◌≡◌, refl, ap, sym, ◌∙◌, Bool, true, Option, none, some, List, [], ◌∷◌, ◌==◌, Text, arith,
  Bool-cases, inl, inr, is_none_or,
}
use vaultwarden_cli.Base.{Sound, Sound-ok, soundness, ok, is_some_and, last}
use vaultwarden_cli.Host.{Host}
use vaultwarden_cli.State.Types.{ProviderState, RequestRecord}
use vaultwarden_cli.Provider.Defs.{
  Plan, write, keep, answer, find_request, find_direct, with_request, visible,
}
use vaultwarden_cli.Provider.Execution.{claim_plan}
use vaultwarden_cli.Provider.Evolution.{some-injective}
use vaultwarden_cli.Provider.Growth.{visible-some}
use vaultwarden_cli.Provider.Lookup.{found_direct, find_direct-replace}
use vaultwarden_cli.Request.Types.{
  DirectRecord, DirectReview, DirectStatus, HistoryEvent, ApprovalBinding,
}
use vaultwarden_cli.Request.History.{matches_record, expected_event}
use vaultwarden_cli.Request.Record.{
  validate, validate_history, history_loop, history_step, claim_valid, position_valid,
  receipt_valid, approval_binding, digest, shape_valid,
}
use vaultwarden_cli.Storage.{option_receipt_eq}
use vaultwarden_cli.Request.Status.{is_terminal}
use vaultwarden_cli.Request.Valid.{validate-parts, validate-intro}
use vaultwarden_cli.Request.Snapshots.{history-intro, IsHistory-parts}

module _ ⦃h : Host⦄ (d : DirectRecord) where
  unfoldable pub claimed : DirectRecord
  claimed = record d { execution_claimed = true }

  step-claimed :
      (n : ℕ) (p : Option DirectStatus) (e : HistoryEvent)
      → history_step d n p e ≡ true
      → history_step claimed n p e ≡ true
  unfolding history_step matches_record expected_event position_valid claimed claim_valid
  step-claimed n p e s = ground arith

  receipt-claimed :
      (v : DirectReview) (b : Bool)
      → is_none_or (receipt_valid v b) d.write_receipt ≡ true
      → is_none_or (receipt_valid v true) d.write_receipt ≡ true
  unfolding receipt_valid
  receipt-claimed v b e = ground arith

  step-taken :
      (n : ℕ) (p : Option DirectStatus) (e : HistoryEvent) (es : List HistoryEvent)
      (q : Option DirectStatus)
      → history_loop d n p (e ∷ es) ≡ some q
      → (history_step d n p e ≡ true) × (history_loop d (suc n) e.status es ≡ some q)
  unfolding history_loop
  step-taken n p e es q l = elim (Bool-cases (history_step d n p e)) [
    | inl taken ↦ (taken, ground arith)
    | inr refused ↦ ground arith
  ]

  loop-claimed :
      (n : ℕ) (p : Option DirectStatus) (es : List HistoryEvent) (q : Option DirectStatus)
      → history_loop d n p es ≡ some q
      → history_loop claimed n p es ≡ some q
  unfolding history_loop
  loop-claimed n p [] q l = l
  loop-claimed n p (e ∷ es) q l =
      let (taken, rest) = step-taken n p e es q l in
      rw (step-claimed n p e taken) (loop-claimed (suc n) e.status es q rest)

  last-receipt :
      validate_history d ≡ true
      → is_terminal d.review.status ≡ true
      → is_some_and (λ e. e.write_receipt == d.write_receipt) (last d.audit) ≡ true
  unfolding validate_history
  last-receipt v t = ground arith

  history-claimed : validate_history d ≡ true → validate_history claimed ≡ true
  unfolding claimed
  history-claimed v =
      let p = IsHistory-parts d v in
      history-intro claimed
        (record {
          version = p.version;
          begun = p.begun;
          bounded = p.bounded;
          ends = loop-claimed 0 none d.audit (some d.review.status) p.ends;
        })
        (last-receipt v)

  digest-claimed : digest claimed ≡ digest d
  unfolding digest claimed
  digest-claimed = refl

  shape-claimed : (id : Text) (epoch : ℕ) → shape_valid claimed id epoch ≡ shape_valid d id epoch
  unfolding shape_valid claimed
  shape-claimed id epoch = refl

  approval-claimed : approval_binding claimed ≡ approval_binding d
  unfolding approval_binding claimed
  approval-claimed = refl

  -- A record that validates still does, under the same identifier and epoch, when it is claimed.
  validate-claimed :
      (id : Text) (epoch : ℕ) → validate d id epoch ≡ true → validate claimed id epoch ≡ true
  unfolding claimed
  validate-claimed id epoch v =
      let p = validate-parts d id epoch v in
      validate-intro claimed id epoch (record {
        receipt = receipt-claimed d.review d.execution_claimed p.receipt;
        sealed = rw digest-claimed p.sealed;
        replay = p.replay;
        approval = rw approval-claimed p.approval;
        live = p.live;
        history = history-claimed p.history;
        shape = rw (shape-claimed id epoch) p.shape;
        exit = p.exit;
      })

-- A plan that claims leaves the request claimed, with a record that validates.
unfoldable Validates : ⦃h : Host⦄ → Text → ℕ → Plan ApprovalBinding → Type 0
Validates id epoch (write t b) =
    (d' : DirectRecord) × (find_direct id t.requests ≡ some d')
    × (d'.execution_claimed ≡ true)
    × (validate d' id epoch ≡ true)
Validates id epoch (keep t b) = Unit {0}
Validates id epoch (answer b) = Unit {0}

module _ ⦃h : Host⦄ (id : Text) (epoch : ℕ) (s : ProviderState) (c : DirectRecord)
    (at : find_direct id s.requests ≡ some c) (v : validate c id epoch ≡ true) where
  kept :
      {E : Type 0} (human provider_uid : ℕ) (r : RequestRecord) (d : DirectRecord)
      (b : ApprovalBinding)
      → find_request id s.requests ≡ some r
      → visible human provider_uid r.direct ≡ some d
      → Sound {E = E} (Validates id epoch) (
          ok (
            write
              (with_request s id
                (record r { direct = some (record d { execution_claimed = true }) }))
              b))
  unfolding Validates claimed
  kept human provider_uid r d b found seen =
      let same = some-injective (
        sym (visible-some human provider_uid r.direct seen)
        ∙ sym (found_direct id s.requests r found)
        ∙ at) in
      Sound-ok _ (
        claimed d,
        find_direct-replace id s.requests r (record r { direct = some (claimed d) }) found refl,
        refl,
        validate-claimed d id epoch (ap (λ x. validate x id epoch) same ∙ v),
      )

  claim-Validates :
      (human provider_uid : ℕ) → Sound (Validates id epoch) (claim_plan human provider_uid id s)
  unfolding claim_plan
  claim-Validates human provider_uid = search (soundness, kept) depth 10

  -- A claim of a request whose record validates, if it plans a write, leaves that request claimed
  -- with a record that validates under the same identifier and epoch.
  pub claim-valid :
      (human provider_uid : ℕ) (t : ProviderState) (b : ApprovalBinding)
      → claim_plan human provider_uid id s ≡ ok (write t b)
      → (d' : DirectRecord) × (find_direct id t.requests ≡ some d')
        × (d'.execution_claimed ≡ true)
        × (validate d' id epoch ≡ true)
  unfolding Validates
  claim-valid human provider_uid t b e = (claim-Validates human provider_uid).holds (write t b) e
