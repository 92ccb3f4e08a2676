-- ===== src/Provider/Attempts.antt =====
-- No two requests ever attempt to write to the same target.
use vaultwarden_cli.Base.{
  ℕ, ◌+◌, ◌≤◌, ◌≡◌, refl, ap, sym, ◌∙◌, subst, Bool, true, false, not, ◌&&◌, Option, none, some,
  List, [], ◌∷◌, ◌==◌, text_eq, Text, any, all, arith, Bool-cases, Option-cases, inl, inr, is_some,
  is_some_and, if◌then◌else◌,
}
use vaultwarden_cli.Storage.{destination_eq}
use vaultwarden_cli.Policy.Types.{CreateEffect}
use vaultwarden_cli.Request.Types.{DirectRecord}
use vaultwarden_cli.State.Types.{RequestRecord}
use vaultwarden_cli.State.Unique.{Unique}
use vaultwarden_cli.Provider.Defs.{find_request, replace_request}
use vaultwarden_cli.Provider.Writes.{same_target, has_attempted, attempted_elsewhere}
use vaultwarden_cli.Provider.Evolution.{
  Grows, RequestEvolves, OptionEvolves, is_untouched, find_request-other, first_found,
}
use vaultwarden_cli.Provider.Lookup.{option_evolved, replace_request-same, replace_request-other}

-- How many requests have attempted to write to this target.
unfoldable pub attempts : CreateEffect → List RequestRecord → ℕ
attempts c [] = 0
attempts c (r ∷ rs) = (if has_attempted c r then 1 else 0) + attempts c rs

pub untouched_attempts :
    (c : CreateEffect) (rs : List RequestRecord) → all is_untouched rs ≡ true → attempts c rs ≡ 0
unfolding attempts has_attempted is_untouched
untouched_attempts c [] e = refl
untouched_attempts c (r ∷ rs) e = ground (arith, untouched_attempts c rs)

pub has_attempted-some :
    (c : CreateEffect) (r : RequestRecord) (d : DirectRecord)
    → r.direct ≡ some d
    → has_attempted c r
      ≡ (is_some d.write_receipt && is_some_and (λ x. same_target x c) d.review.create)
unfolding has_attempted
has_attempted-some c r d e = rw (has_attempted, e) refl

pub has_attempted-none :
    (c : CreateEffect) (r : RequestRecord) → r.direct ≡ none → has_attempted c r ≡ false
unfolding has_attempted
has_attempted-none c r e = rw (has_attempted, e) refl

none_evolved : (b : Bool) (o p : Option DirectRecord) → OptionEvolves b o p → o ≡ none → p ≡ none
unfolding OptionEvolves
none_evolved b none none v e = refl
none_evolved b none (some d) v e = absurd v
none_evolved b (some c) p v e = cc

evolves_attempted :
    (c : CreateEffect) (r s : RequestRecord)
    → RequestEvolves false r s
    → has_attempted c s ≡ has_attempted c r
evolves_attempted c r s v = elim (Option-cases r.direct) [
  | inl gone ↦
      has_attempted-none c s (none_evolved false r.direct s.direct v.record_of gone)
      ∙ sym (has_attempted-none c r gone)
  | inr (d, at) ↦
      let (d', at', w) = option_evolved false r.direct s.direct v.record_of at in
      has_attempted-some c s d' at'
      ∙ rw (w.no_receipt refl, w.create) refl
      ∙ sym (has_attempted-some c r d at)
]

pub Grows-attempts :
    (c : CreateEffect) (rs ss : List RequestRecord)
    → Grows false rs ss
    → attempts c ss ≡ attempts c rs
unfolding attempts Grows
Grows-attempts c [] ss g = untouched_attempts c ss g
Grows-attempts c (r ∷ rs) [] g = absurd g
Grows-attempts c (r ∷ rs) (s ∷ ss) g =
    rw (evolves_attempted c r s g.0, Grows-attempts c rs ss g.1) refl

pub replace_unattempted :
    (c : CreateEffect) (id : Text) (rs : List RequestRecord) (r r' : RequestRecord)
    → find_request id rs ≡ some r
    → has_attempted c r' ≡ has_attempted c r
    → attempts c (replace_request id r' rs) ≡ attempts c rs
unfolding find_request attempts replace_request
replace_unattempted c id [] r r' e q = cc
replace_unattempted c id (x ∷ rs) r r' e q = elim (Bool-cases (x.id == id)) [
  | inl same ↦
      ap (attempts c) (replace_request-same id r' x rs same)
      ∙ rw (q, first_found id x rs same e) refl
  | inr other ↦
      ap (attempts c) (replace_request-other id r' x rs other)
      ∙ rw (replace_unattempted c id rs r r' (sym (find_request-other id x rs other) ∙ e) q) refl
]

none_elsewhere :
    (c : CreateEffect) (id : Text) (rs : List RequestRecord)
    → any (λ x. x.id == id) rs ≡ false
    → attempted_elsewhere id c rs ≡ false
    → attempts c rs ≡ 0
unfolding attempts attempted_elsewhere
none_elsewhere c id [] p q = refl
none_elsewhere c id (r ∷ rs) p q = ground (arith, none_elsewhere c id rs)

first_unique :
    (id : Text) (x : RequestRecord) (rs : List RequestRecord)
    → (x.id == id) ≡ true
    → any (λ y. y.id == x.id) rs ≡ false
    → any (λ y. y.id == id) rs ≡ false
first_unique id x rs e u =
    subst (λ t. any (λ y. y.id == t) rs ≡ false) ((text_eq.eq_iff x.id id).0 e) u

elsewhere-cons :
    (c : CreateEffect) (id : Text) (x : RequestRecord) (rs : List RequestRecord)
    → attempted_elsewhere id c (x ∷ rs) ≡ false
    → ((not (x.id == id) && has_attempted c x) ≡ false) × (attempted_elsewhere id c rs ≡ false)
unfolding attempted_elsewhere
elsewhere-cons c id x rs e = (ground arith, ground arith)

pub replace_attempted :
    (c : CreateEffect) (id : Text) (rs : List RequestRecord) (r r' : RequestRecord)
    → Unique rs
    → find_request id rs ≡ some r
    → attempted_elsewhere id c rs ≡ false
    → attempts c (replace_request id r' rs) ≤ 1
unfolding attempts attempted_elsewhere Unique find_request
replace_attempted c id [] r r' u e q = cc
replace_attempted c id (x ∷ rs) r r' u e q = elim (Bool-cases (x.id == id)) [
  | inl same ↦
      subst (λ ys. attempts c ys ≤ 1) (sym (replace_request-same id r' x rs same))
        (ground (
          arith,
          none_elsewhere c id rs (first_unique id x rs same u.0) (elsewhere-cons c id x rs q).1,
        ))
  | inr other ↦
      subst (λ ys. attempts c ys ≤ 1) (sym (replace_request-other id r' x rs other))
        (ground (
          arith,
          replace_attempted c id rs r r' u.1 (sym (find_request-other id x rs other) ∙ e)
              (elsewhere-cons c id x rs q).1,
        ))
]
