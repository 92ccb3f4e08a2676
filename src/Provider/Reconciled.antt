-- ===== src/Provider/Reconciled.antt =====
-- Reconciliation is idempotent.
use mathlib.Core.Bool.{decide}
use vaultwarden_cli.Base.{
  ℕ, ◌^◌, ◌≡◌, refl, ap, sym, ◌∙◌, true, some, List, [], ◌∷◌, ◌==◌, text_eq, Text, beq_refl,
  Bool-cases, inl, inr, last-append, length, ltb, guard, map_err, ◌>>=◌, ◌>>◌, ok, Sound, Sound-ok,
  Sound-if, soundness,
}
use vaultwarden_cli.Storage.{WriteReceipt}
use vaultwarden_cli.Request.Types.{DirectRecord, HistoryOutcome-discrete, RequestError, outcome_eq}
use vaultwarden_cli.Request.Status.{is_terminal}
use vaultwarden_cli.Request.History.{snapshot}
use vaultwarden_cli.State.Types.{ProviderState, RequestRecord}
use vaultwarden_cli.Store.{Io, wall_time}
use vaultwarden_cli.Provider.Defs.{
  Plan, write, keep, answer, unavailable, find_request, replace_request, with_request,
}
use vaultwarden_cli.Provider.Writes.{
  reconcile_plan, reconciled_record, reconciled_receipt, is_reconciled, with_direct,
}
use vaultwarden_cli.Provider.Evolution.{find_request-same, find_request-other, first_found}
use vaultwarden_cli.Provider.Lookup.{replace_request-same, replace_request-other}

find_request-replace :
    (id : Text) (rs : List RequestRecord) (r r' : RequestRecord)
    → find_request id rs ≡ some r
    → r'.id ≡ r.id
    → find_request id (replace_request id r' rs) ≡ some r'
unfolding find_request
find_request-replace id [] r r' e q = cc
find_request-replace id (x ∷ rs) r r' e q = elim (Bool-cases (x.id == id)) [
  | inl same ↦
      ap (find_request id) (replace_request-same id r' x rs same)
      ∙ find_request-same id r' rs
          (ap (λ y. y == id) (q ∙ sym (ap (λ y. y.id) (first_found id x rs same e))) ∙ same)
  | inr other ↦
      ap (find_request id) (replace_request-other id r' x rs other)
      ∙ find_request-other id x (replace_request id r' rs) other
      ∙ find_request-replace id rs r r' (sym (find_request-other id x rs other) ∙ e) q
]

reconciled_again :
    (id item : Text) (io : Io) (s : ProviderState) (r : RequestRecord) (d : DirectRecord)
    (x : WriteReceipt)
    → find_request id s.requests ≡ some r
    → r.direct ≡ some d
    → is_terminal d.review.status ≡ true
    → d.write_receipt ≡ some x
    → x.item_id ≡ some item
    → is_reconciled d ≡ true
    → reconcile_plan id item io s ≡ ok (answer x)
unfolding reconcile_plan
reconciled_again id item io s r d x f at t w i l = rw (f, at, t, w, i, beq_refl item, l) refl

is_reconciled-record :
    (d : DirectRecord) (x : WriteReceipt) (now : ℕ)
    → is_reconciled (reconciled_record d x now) ≡ true
unfolding reconciled_record snapshot HistoryOutcome-discrete decide
is_reconciled-record d x now = rw (last-append d.audit) refl

-- A plan whose write is answered, when it is planned again.
unfoldable PlanRepeats : Text → Text → Plan WriteReceipt → Type 0
PlanRepeats id item (write t x) = (io : Io) → reconcile_plan id item io t ≡ ok (answer x)
PlanRepeats id item (keep t x) = Unit {0}
PlanRepeats id item (answer x) = Unit {0}

module _ (id item : Text) (s : ProviderState) (r : RequestRecord) (d : DirectRecord)
    (x : WriteReceipt) (found : find_request id s.requests ≡ some r)
    (ended : is_terminal d.review.status ≡ true) where
  repeats :
      {E : Type 0} (now : ℕ)
      → Sound {E = E} (PlanRepeats id item) (
          ok (
            write
              (with_request s id
                (with_direct r (reconciled_record d (reconciled_receipt x item) now)))
              (reconciled_receipt x item)))
  unfolding PlanRepeats reconciled_record reconciled_receipt
  repeats now = Sound-ok _ λ io.
      let d' = reconciled_record d (reconciled_receipt x item) now in
      reconciled_again id item io (with_request s id (with_direct r d')) (with_direct r d') d'
        (reconciled_receipt x item)
        (find_request-replace id s.requests r (with_direct r d') found refl) refl ended refl refl
        (is_reconciled-record d (reconciled_receipt x item) now)

  rest-repeats :
      (io : Io)
      → Sound (PlanRepeats id item) (
          guard (ltb (length d.audit) (2 ^ 32)) RequestError.invalid_request
          >> (map_err unavailable (wall_time io 0) >>= λ now.
              let receipt = reconciled_receipt x item in
              ok (
                write
                  (with_request s id (with_direct r (reconciled_record d receipt now)))
                  receipt)))
  rest-repeats io = search (soundness, repeats) depth 8

answer_repeats :
    {E : Type 0} (id item : Text) (x : WriteReceipt)
    → Sound {E = E} (PlanRepeats id item) (ok (answer x))
unfolding PlanRepeats
answer_repeats id item x = Sound-ok (answer x) tt

plan-repeats :
    (id item : Text) (io : Io) (s : ProviderState)
    → Sound (PlanRepeats id item) (reconcile_plan id item io s)
unfolding reconcile_plan
plan-repeats id item io s = search (soundness, Sound-if, rest-repeats, answer_repeats) depth 14

-- Reconciliation is idempotent: once it has planned a write, the same call on the state that it wrote
-- answers the same receipt and writes nothing, whatever it meets outside the program.
pub reconcile-again :
    (id item : Text) (io io' : Io) (s t : ProviderState) (x : WriteReceipt)
    → reconcile_plan id item io s ≡ ok (write t x)
    → reconcile_plan id item io' t ≡ ok (answer x)
unfolding PlanRepeats
reconcile-again id item io io' s t x e = (plan-repeats id item io s).holds (write t x) e io'
