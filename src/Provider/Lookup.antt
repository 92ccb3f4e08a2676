-- ===== src/Provider/Lookup.antt =====
-- Finding a request by its identifier, after a write and over a step of the provider.
use vaultwarden_cli.Base.{
  ◌≡◌, refl, ap, subst, sym, ◌∙◌, Bool, true, false, Option, none, some, List, [], ◌∷◌, ◌==◌,
  text_eq, Text, Bool-cases, inl, inr,
}
use vaultwarden_cli.Request.Types.{DirectRecord}
use vaultwarden_cli.State.Types.{RequestRecord}
use vaultwarden_cli.Provider.Defs.{replace_request, find_request, find_direct}
use vaultwarden_cli.Provider.Evolution.{
  Evolves, OptionEvolves, Grows, some-injective, find_request-other, first_found,
}

pub find_direct-same :
    (id : Text) (x : RequestRecord) (rs : List RequestRecord)
    → (x.id == id) ≡ true
    → find_direct id (x ∷ rs) ≡ x.direct
unfolding find_direct find_request
find_direct-same id x rs e = rw (find_direct, find_request, e) refl

pub find_direct-other :
    (id : Text) (x : RequestRecord) (rs : List RequestRecord)
    → (x.id == id) ≡ false
    → find_direct id (x ∷ rs) ≡ find_direct id rs
unfolding find_direct find_request
find_direct-other id x rs e = rw (find_direct, find_request, e) refl

pub option_evolved :
    (b : Bool) (o p : Option DirectRecord) {d : DirectRecord}
    → OptionEvolves b o p
    → o ≡ some d
    → (d' : DirectRecord) × (p ≡ some d') × Evolves b d d'
unfolding OptionEvolves
option_evolved b none p v e = cc
option_evolved b (some c) none v e = absurd v
option_evolved b (some c) (some d') v e =
    (d', refl, subst (λ x. Evolves b x d') (some-injective e) v)

pub replace_request-same :
    (id : Text) (r' x : RequestRecord) (rs : List RequestRecord)
    → (x.id == id) ≡ true
    → replace_request id r' (x ∷ rs) ≡ r' ∷ rs
unfolding replace_request
replace_request-same id r' x rs e = rw (replace_request, e) refl

pub replace_request-other :
    (id : Text) (r' x : RequestRecord) (rs : List RequestRecord)
    → (x.id == id) ≡ false
    → replace_request id r' (x ∷ rs) ≡ x ∷ replace_request id r' rs
unfolding replace_request
replace_request-other id r' x rs e = rw (replace_request, e) refl

pub found_direct :
    (id : Text) (rs : List RequestRecord) (r : RequestRecord)
    → find_request id rs ≡ some r
    → find_direct id rs ≡ r.direct
unfolding find_direct
found_direct id rs r e = rw (find_direct, e) refl

pub find_direct-replace :
    (id : Text) (rs : List RequestRecord) (r r' : RequestRecord)
    → find_request id rs ≡ some r
    → r'.id ≡ r.id
    → find_direct id (replace_request id r' rs) ≡ r'.direct
unfolding find_request replace_request
find_direct-replace id [] r r' e q = cc
find_direct-replace id (x ∷ rs) r r' e q = elim (Bool-cases (x.id == id)) [
  | inl same ↦
      ap (find_direct id) (replace_request-same id r' x rs same)
      ∙ find_direct-same id r' rs
          (ap (λ y. y == id) (q ∙ sym (ap (λ y. y.id) (first_found id x rs same e))) ∙ same)
  | inr other ↦
      ap (find_direct id) (replace_request-other id r' x rs other)
      ∙ find_direct-other id x (replace_request id r' rs) other
      ∙ find_direct-replace id rs r r' (sym (find_request-other id x rs other) ∙ e) q
]

pub Grows-find :
    (b : Bool) (id : Text) (rs ss : List RequestRecord) {d : DirectRecord}
    → Grows b rs ss
    → find_direct id rs ≡ some d
    → (d' : DirectRecord) × (find_direct id ss ≡ some d') × Evolves b d d'
unfolding Grows find_direct find_request
Grows-find b id [] ss g e = cc
Grows-find b id (r ∷ rs) [] g e = absurd g
Grows-find b id (r ∷ rs) (s ∷ ss) g e = elim (Bool-cases (r.id == id)) [
  | inl same ↦
      let (d', at, v) =
        option_evolved b r.direct s.direct g.0.record_of
          (sym (find_direct-same id r rs same) ∙ e) in
      (d', find_direct-same id s ss (ap (λ x. x == id) g.0.same_id ∙ same) ∙ at, v)
  | inr other ↦
      let (d', at, v) = Grows-find b id rs ss g.1 (sym (find_direct-other id r rs other) ∙ e) in
      (d', find_direct-other id s ss (ap (λ x. x == id) g.0.same_id ∙ other) ∙ at, v)
]
