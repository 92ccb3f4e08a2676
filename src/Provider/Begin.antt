-- ===== src/Provider/Begin.antt =====
-- `begin_write` admits one request for a target, and no run of the provider admits another.
use vaultwarden_cli.Base.{
  ℕ, ◌≤◌, ◌≡◌, refl, ap, sym, ◌∙◌, subst, Bool, true, false, not, ◌&&◌, Option, none, some, List,
  [], ◌∷◌, text_eq, Text, arith, Bool-cases, Option-cases, inl, inr, &&-true, is_some, is_none,
  is_some_and, Sound, soundness, Sound-ok, ok,
}
use vaultwarden_cli.Host.{Host}
use vaultwarden_cli.Storage.{WriteReceipt, destination_eq}
use vaultwarden_cli.Strings.{trim_end}
use vaultwarden_cli.Policy.Types.{CreateEffect}
use vaultwarden_cli.Request.Types.{DirectRecord, ApprovalBinding}
use vaultwarden_cli.State.Types.{ProviderState, RequestRecord}
use vaultwarden_cli.State.Unique.{Unique, state_valid-Unique}
use vaultwarden_cli.Provider.Defs.{
  Plan, write, keep, answer, find_request, replace_request, with_request,
}
use vaultwarden_cli.Provider.Writes.{
  begin_plan, same_target, has_attempted, attempted_elsewhere, with_direct,
}
use vaultwarden_cli.Provider.Evolution.{Grows}
use vaultwarden_cli.Provider.Kept.{is_begin, planned-Grows}
use vaultwarden_cli.Provider.Runs.{Planned, Runs, stop, run}
use vaultwarden_cli.Provider.Attempts.{
  attempts, has_attempted-some, has_attempted-none, Grows-attempts, replace_unattempted,
  replace_attempted,
}
use vaultwarden_cli.State.Types.{initial}

pointwise :
    {A : Type 0} (f g : A → Bool)
    → ((a : A) → f a ≡ g a)
    → (o : Option A) → is_some_and f o ≡ is_some_and g o
pointwise f g e none = refl
pointwise f g e (some a) = e a

-- Two effects with the same target are attempted by the same requests.
module _ (a b : CreateEffect) (t : same_target a b ≡ true) where
  same_server : trim_end b'/' a.server ≡ trim_end b'/' b.server
  unfolding same_target
  same_server =
      (text_eq.eq_iff (trim_end b'/' a.server) (trim_end b'/' b.server)).0 (&&-true _ _ t).0

  same_destination : a.destination ≡ b.destination
  unfolding same_target
  same_destination = (destination_eq.eq_iff a.destination b.destination).0 (&&-true _ _ t).1

  same_targets : (c : CreateEffect) → same_target c a ≡ same_target c b
  unfolding same_target
  same_targets c = rw (same_server, same_destination) refl

  same_attempted : (r : RequestRecord) → has_attempted a r ≡ has_attempted b r
  same_attempted r = elim (Option-cases r.direct) [
    | inl gone ↦ has_attempted-none a r gone ∙ sym (has_attempted-none b r gone)
    | inr (d, at) ↦
        has_attempted-some a r d at
        ∙ ap (λ v. is_some d.write_receipt && v)
            (pointwise (λ x. same_target x a) (λ x. same_target x b) same_targets d.review.create)
        ∙ sym (has_attempted-some b r d at)
  ]

  same_elsewhere :
      (id : Text) (rs : List RequestRecord)
      → attempted_elsewhere id a rs ≡ attempted_elsewhere id b rs
  unfolding attempted_elsewhere
  same_elsewhere id [] = refl
  same_elsewhere id (r ∷ rs) = rw (same_attempted r, same_elsewhere id rs) refl

-- Every target has been attempted once at most.
unfoldable pub AttemptedOnce : List RequestRecord → Type 0
AttemptedOnce rs = (c : CreateEffect) → attempts c rs ≤ 1

unfoldable PlanOnce : {A : Type 0} → List RequestRecord → Plan A → Type 0
PlanOnce rs (write t a) = Unique rs → AttemptedOnce rs → AttemptedOnce t.requests
PlanOnce rs (keep t a) = Unit {0}
PlanOnce rs (answer a) = Unit {0}

-- The receipt of `begin_write` is the first attempt of its target.
module _ (id : Text) (rs : List RequestRecord) (r : RequestRecord) (d : DirectRecord)
    (x : WriteReceipt) (effect : CreateEffect) (found : find_request id rs ≡ some r)
    (at : r.direct ≡ some d) (new : d.write_receipt ≡ none) (create : d.review.create ≡ some effect)
    (first : attempted_elsewhere id effect rs ≡ false) where
  begun_record : DirectRecord
  begun_record = record d { write_receipt = some x }

  begun_attempted :
      (c : CreateEffect) → has_attempted c (with_direct r begun_record) ≡ same_target effect c
  unfolding begun_record
  begun_attempted c =
      has_attempted-some c (with_direct r begun_record) begun_record refl ∙ rw create refl

  not_attempted : (c : CreateEffect) → has_attempted c r ≡ false
  not_attempted c = has_attempted-some c r d at ∙ rw new refl

  begun_once :
      Unique rs
      → AttemptedOnce rs
      → AttemptedOnce (replace_request id (with_direct r begun_record) rs)
  unfolding AttemptedOnce
  begun_once u o c = elim (Bool-cases (same_target effect c)) [
    | inl same ↦
        replace_attempted c id rs r (with_direct r begun_record) u found
          (sym (same_elsewhere effect c same id rs) ∙ first)
    | inr other ↦
        subst (λ n. n ≤ 1)
          (sym (
            replace_unattempted c id rs r (with_direct r begun_record) found
              (begun_attempted c ∙ other ∙ sym (not_attempted c))))
          (o c)
  ]

module _ (id : Text) (s : ProviderState) (r : RequestRecord) (d : DirectRecord) (x : WriteReceipt)
    (effect : CreateEffect) (p q t : Bool) (found : find_request id s.requests ≡ some r)
    (at : r.direct ≡ some d) (guards : (p && q && t && is_none d.write_receipt) ≡ true)
    (create : d.review.create ≡ some effect)
    (first : not (attempted_elsewhere id effect s.requests) ≡ true) where
  no_receipt : d.write_receipt ≡ none
  no_receipt = ground arith

  begin_once :
      {E : Type 0} (u : Unit {0})
      → Sound {E = E}
          (PlanOnce s.requests)
          (ok (write (with_request s id (with_direct r (record d { write_receipt = some x }))) u))
  unfolding PlanOnce begun_record
  begin_once u =
      Sound-ok _ (begun_once id s.requests r d x effect found at no_receipt create (ground arith))

begin-once :
    (b : ApprovalBinding) (s : ProviderState) → Sound (PlanOnce s.requests) (begin_plan b s)
unfolding begin_plan
begin-once b s = search (soundness, begin_once) depth 12

module _ ⦃h : Host⦄ where
  grown_once :
      (rs ss : List RequestRecord) → Grows false rs ss → AttemptedOnce rs → AttemptedOnce ss
  unfolding AttemptedOnce
  grown_once rs ss g o c = subst (λ n. n ≤ 1) (sym (Grows-attempts c rs ss g)) (o c)

  planned_once :
      {s t : ProviderState} (p : Planned s t)
      → Unique s.requests
      → AttemptedOnce s.requests
      → AttemptedOnce t.requests
  unfolding PlanOnce is_begin
  planned_once {s} {t} (Planned.begun b _ _ v e) u o = (begin-once b s).holds (write t v) e u o
  planned_once {s} {t} p u o = grown_once s.requests t.requests (planned-Grows p) o

  -- Over every run of the provider, if at most one request has attempted to write to each target
  -- before it, then at most one has after it.
  pub attempted-once :
      (uid : ℕ) (s t : ProviderState)
      → Runs uid s t
      → ((c : CreateEffect) → attempts c s.requests ≤ 1)
      → (c : CreateEffect) → attempts c t.requests ≤ 1
  unfolding AttemptedOnce
  attempted-once uid s t (stop _) o = o
  attempted-once uid s u (run _ t _ valid p rest) o =
      attempted-once uid t u rest (planned_once p (state_valid-Unique s uid valid) o)

  -- No two requests of a state that the provider reaches from its initial one have attempted to
  -- write to the same target.
  pub initial-attempted-once :
      (uid : ℕ) (t : ProviderState)
      → Runs uid initial t
      → (c : CreateEffect) → attempts c t.requests ≤ 1
  unfolding attempts initial
  initial-attempted-once uid t r = attempted-once uid initial t r (λ c. omega arith)
