-- ===== src/Provider/Growth.antt =====
-- Every write that an operation plans lets the requests evolve.
use vaultwarden_cli.Base.{
  ◌≡◌, refl, Bool, true, false, Option, none, some, List, [], ◌∷◌, ◌++◌, text_eq, Text, arith, ok,
  ℕ, map_err, guard, ◌>>=◌, ◌>>◌, Sound, soundness, Sound-ok, Sound-if, ltb, length, ◌^◌, &&-intro,
}
use vaultwarden_cli.Host.{Host}
use vaultwarden_cli.Storage.{WriteReceipt, WriteStatus}
use vaultwarden_cli.Request.Types.{
  DirectRecord, DirectReview, DirectStatus, DecisionOutcome, ApprovalBinding, ApprovalMethod,
  RequestError,
}
use vaultwarden_cli.State.Types.{ProviderState, RequestRecord, RequestLifecycleStatus}
use vaultwarden_cli.Request.Record.{seal}
use vaultwarden_cli.State.Transition.{transition}
use vaultwarden_cli.Store.{Io, wall_time}
use vaultwarden_cli.Provider.Defs.{
  Plan, write, keep, answer, with_request, find_request, unavailable, visible,
}
use vaultwarden_cli.Provider.Requests.{
  Submitter, DirectSubmission, submitted, with_method, create_plan, decide_plan,
}
use vaultwarden_cli.Provider.Writes.{
  with_direct, reconciled_record, reconciled_receipt, begin_plan, record_plan, reconcile_plan,
}
use vaultwarden_cli.Provider.Execution.{
  CleanupEvidence, cancel_plan, claim_plan, started_plan, finish_plan,
}
use vaultwarden_cli.Provider.Evolution.{
  Grows, RequestEvolves, is_untouched, Grows-append, Grows-replace, RequestEvolves-trans,
}
use vaultwarden_cli.Provider.Changes.{
  transition-evolves, claim-evolves, receipt-evolves, method-evolves,
}

-- What a plan may write over these requests.
unfoldable pub PlanGrows : {A : Type 0} → Bool → List RequestRecord → Plan A → Type 0
PlanGrows b rs (write s a) = Grows b rs s.requests
PlanGrows b rs (keep s a) = Unit {0}
PlanGrows b rs (answer a) = Unit {0}

-- One request that is found and replaced.
replace_grows :
    {E A : Type 0} (begins : Bool) (id : Text) (s : ProviderState) (r r' : RequestRecord) {a : A}
    → find_request id s.requests ≡ some r
    → RequestEvolves begins r r'
    → Sound {E = E} (PlanGrows begins s.requests) (ok (write (with_request s id r') a))
unfolding PlanGrows
replace_grows begins id s r r' e v = Sound-ok _ (Grows-replace begins id s.requests r r' e v)

decided-evolves :
    ⦃h : Host⦄ (m : Option ApprovalMethod) (r : RequestRecord) (next : DirectStatus)
    (decision : DecisionOutcome) (now : ℕ) (r' : RequestRecord)
    → transition r next decision now ≡ ok r'
    → RequestEvolves false r (with_method m r')
decided-evolves m r next decision now r' t =
    RequestEvolves-trans false r r' (with_method m r') (transition-evolves r next decision now t)
      (method-evolves m r')

begin-evolves :
    (r : RequestRecord) (d : DirectRecord) (x : WriteReceipt)
    → r.direct ≡ some d
    → RequestEvolves true r (with_direct r (record d { write_receipt = some x }))
begin-evolves r d x at = receipt-evolves true r d x d.audit at (λ e. cc)

record-evolves :
    (r : RequestRecord) (d : DirectRecord) (x y : WriteReceipt)
    → r.direct ≡ some d
    → d.write_receipt ≡ some x
    → RequestEvolves false r (with_direct r (record d { write_receipt = some y }))
record-evolves r d x y at has = receipt-evolves false r d y d.audit at (λ e. rw has refl)

reconcile-evolves :
    (r : RequestRecord) (d : DirectRecord) (x y : WriteReceipt) (now : ℕ)
    → r.direct ≡ some d
    → d.write_receipt ≡ some x
    → RequestEvolves false r (with_direct r (reconciled_record d y now))
unfolding reconciled_record
reconcile-evolves r d x y now at has = receipt-evolves false r d y _ at (λ e. rw has refl)

module _ ⦃h : Host⦄ where
  pub cancel-grows :
      (human provider_uid : ℕ) (id : Text) (io : Io) (s : ProviderState)
      → Sound (PlanGrows false s.requests) (cancel_plan human provider_uid id io s)
  unfolding cancel_plan
  cancel-grows human provider_uid id io s =
      search (soundness, replace_grows, transition-evolves) depth 12

  pub started-grows :
      (b : ApprovalBinding) (io : Io) (s : ProviderState)
      → Sound (PlanGrows false s.requests) (started_plan b io s)
  unfolding started_plan
  started-grows b io s = search (soundness, replace_grows, transition-evolves) depth 12

  pub finish-grows :
      (b : ApprovalBinding) (status : DirectStatus) (cleanup : CleanupEvidence) (io : Io)
      (s : ProviderState)
      → Sound (PlanGrows false s.requests) (finish_plan b status cleanup io s)
  unfolding finish_plan
  finish-grows b status cleanup io s =
      search (soundness, replace_grows, transition-evolves) depth 12

  pub visible-some :
      (human provider_uid : ℕ) (o : Option DirectRecord) {d : DirectRecord}
      → visible human provider_uid o ≡ some d
      → o ≡ some d
  unfolding visible
  visible-some human provider_uid none e = e
  visible-some human provider_uid (some x) e = ground arith

  pub claim-grows :
      (human provider_uid : ℕ) (id : Text) (s : ProviderState)
      → Sound (PlanGrows false s.requests) (claim_plan human provider_uid id s)
  unfolding claim_plan
  claim-grows human provider_uid id s =
      search (soundness, replace_grows, claim-evolves, visible-some) depth 12

  pub decide-grows :
      (b : ApprovalBinding) (approve : Bool) (method : Option ApprovalMethod) (now : ℕ)
      (s : ProviderState)
      → Sound (PlanGrows false s.requests) (decide_plan b approve method now s)
  unfolding decide_plan
  decide-grows b approve method now s = search (soundness, replace_grows, decided-evolves) depth 12

  pub begin-grows :
      (b : ApprovalBinding) (s : ProviderState) → Sound (PlanGrows true s.requests) (begin_plan b s)
  unfolding begin_plan
  begin-grows b s = search (soundness, replace_grows, begin-evolves) depth 12

  pub record-grows :
      (b : ApprovalBinding) (item : Option Text) (status : WriteStatus) (s : ProviderState)
      → Sound (PlanGrows false s.requests) (record_plan b item status s)
  unfolding record_plan
  record-grows b item status s = search (soundness, replace_grows, record-evolves) depth 12

  answer_grows :
      {E A : Type 0} (rs : List RequestRecord) (a : A)
      → Sound {E = E} (PlanGrows false rs) (ok (answer a))
  unfolding PlanGrows
  answer_grows rs a = Sound-ok (answer a) tt

  reconcile_rest :
      (id item : Text) (io : Io) (s : ProviderState) (r : RequestRecord) (d : DirectRecord)
      (x : WriteReceipt)
      → find_request id s.requests ≡ some r
      → r.direct ≡ some d
      → d.write_receipt ≡ some x
      → Sound (PlanGrows false s.requests) (
          guard (ltb (length d.audit) (2 ^ 32)) RequestError.invalid_request
          >> (map_err unavailable (wall_time io 0) >>= λ now.
              let receipt = reconciled_receipt x item in
              ok (
                write
                  (with_request s id (with_direct r (reconciled_record d receipt now)))
                  receipt)))
  reconcile_rest id item io s r d x found at has =
      search (soundness, replace_grows, reconcile-evolves) depth 12

  pub reconcile-grows :
      (id item : Text) (io : Io) (s : ProviderState)
      → Sound (PlanGrows false s.requests) (reconcile_plan id item io s)
  unfolding reconcile_plan
  reconcile-grows id item io s = search (soundness, Sound-if, reconcile_rest, answer_grows) depth 14

  append_grows :
      {E A : Type 0} (s : ProviderState) (r : RequestRecord) {a : A}
      → is_untouched r ≡ true
      → Sound {E = E}
          (PlanGrows false s.requests)
          (ok (write (record s { requests = s.requests ++ r ∷ [] }) a))
  unfolding PlanGrows
  append_grows s r u = Sound-ok _ (Grows-append false s.requests (r ∷ []) (&&-intro u refl))

  submitted-untouched :
      (id : Text) (status : RequestLifecycleStatus) (who : Submitter) (now epoch : ℕ)
      (review : DirectReview)
      → is_untouched
          (record { id = id; status = status; direct = some (submitted who now epoch review) })
        ≡ true
  unfolding is_untouched submitted seal
  submitted-untouched id status who now epoch review = refl

  pub create-grows :
      (who : Submitter) (input : DirectSubmission) (now expires : ℕ) (allowed : Bool) (io : Io)
      (s : ProviderState)
      → Sound (PlanGrows false s.requests) (create_plan who input now expires allowed io s)
  unfolding create_plan
  create-grows who input now expires allowed io s =
      search (soundness, append_grows, submitted-untouched) depth 14
