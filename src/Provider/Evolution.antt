-- ===== src/Provider/Evolution.antt =====
-- What the provider's operations may do to the requests that they find: a request is never dropped
-- or renamed, its terms stay, a claim and a receipt stay, and an ended request keeps its status.
use vaultwarden_cli.Base.{
  ◌≡◌, refl, ap, subst, ◌∙◌, sym, Bool, true, false, not, Option, none, some, List, [], ◌∷◌, ◌++◌,
  ◌==◌, text_eq, Text, Bool-cases, inl, inr, is_some, all,
}
use vaultwarden_cli.Request.Types.{DirectRecord}
use vaultwarden_cli.Request.Status.{is_terminal}
use vaultwarden_cli.Request.Record.{projection}
use vaultwarden_cli.State.Lifecycle.{Reaches, Reaches-trans}
use vaultwarden_cli.State.Types.{RequestRecord, RequestLifecycleStatus}
use vaultwarden_cli.Provider.Defs.{find_request, replace_request}

-- `begins` is true of `begin_write` alone, which gives a record its receipt.
pub record Evolves (begins : Bool) (d d' : DirectRecord) : Type 0 where
  pub claimed : d.execution_claimed ≡ true → d'.execution_claimed ≡ true
  pub receipt : is_some d.write_receipt ≡ true → is_some d'.write_receipt ≡ true
  pub no_receipt : begins ≡ false → is_some d'.write_receipt ≡ is_some d.write_receipt
  pub create : d'.review.create ≡ d.review.create
  pub terms : projection d' ≡ projection d
  pub replay : d'.replay_digest ≡ d.replay_digest
  pub path : Reaches d.review.status d.execution_claimed d'.review.status d'.execution_claimed
  pub ended : is_terminal d.review.status ≡ true → d'.review.status ≡ d.review.status

unfoldable pub OptionEvolves : Bool → Option DirectRecord → Option DirectRecord → Type 0
OptionEvolves b none none = Unit {0}
OptionEvolves b none (some d) = ⊥
OptionEvolves b (some d) none = ⊥
OptionEvolves b (some d) (some d') = Evolves b d d'

pub record RequestEvolves (begins : Bool) (r r' : RequestRecord) : Type 0 where
  pub same_id : r'.id ≡ r.id
  pub record_of : OptionEvolves begins r.direct r'.direct

-- A request that was submitted and not more.
unfoldable pub is_untouched : RequestRecord → Bool
is_untouched r = elim r.direct [ none ↦ true | some d ↦ not (is_some d.write_receipt) ]

-- The requests evolve one by one, and new ones are appended.
unfoldable pub Grows : Bool → List RequestRecord → List RequestRecord → Type 0
Grows b [] ss = all is_untouched ss ≡ true
Grows b (r ∷ rs) [] = ⊥
Grows b (r ∷ rs) (s ∷ ss) = RequestEvolves b r s × Grows b rs ss

pub some-injective : {A : Type 0} {a b : A} → some a ≡ some b → a ≡ b
some-injective e = cc

pub Evolves-refl : (b : Bool) (d : DirectRecord) → Evolves b d d
Evolves-refl b d = record {
  claimed = λ c. c;
  receipt = λ c. c;
  no_receipt = λ c. refl;
  create = refl;
  terms = refl;
  replay = refl;
  path = Reaches.stay d.review.status d.execution_claimed;
  ended = λ c. refl;
}

OptionEvolves-refl : (b : Bool) (o : Option DirectRecord) → OptionEvolves b o o
unfolding OptionEvolves
OptionEvolves-refl b none = tt
OptionEvolves-refl b (some d) = Evolves-refl b d

pub RequestEvolves-refl : (b : Bool) (r : RequestRecord) → RequestEvolves b r r
RequestEvolves-refl b r = record { same_id = refl; record_of = OptionEvolves-refl b r.direct }

pub status_evolves :
    (b : Bool) (r : RequestRecord) (status : RequestLifecycleStatus)
    → RequestEvolves b r (record r { status = status })
status_evolves b r status = record { same_id = refl; record_of = OptionEvolves-refl b r.direct }

pub Grows-refl : (b : Bool) (rs : List RequestRecord) → Grows b rs rs
unfolding Grows
Grows-refl b [] = refl
Grows-refl b (r ∷ rs) = (RequestEvolves-refl b r, Grows-refl b rs)

pub Grows-append :
    (b : Bool) (rs ss : List RequestRecord) → all is_untouched ss ≡ true → Grows b rs (rs ++ ss)
unfolding Grows
Grows-append b [] ss u = u
Grows-append b (r ∷ rs) ss u = (RequestEvolves-refl b r, Grows-append b rs ss u)

pub find_request-same :
    (id : Text) (x : RequestRecord) (rs : List RequestRecord)
    → (x.id == id) ≡ true
    → find_request id (x ∷ rs) ≡ some x
unfolding find_request
find_request-same id x rs h = rw h refl

pub find_request-other :
    (id : Text) (x : RequestRecord) (rs : List RequestRecord)
    → (x.id == id) ≡ false
    → find_request id (x ∷ rs) ≡ find_request id rs
unfolding find_request
find_request-other id x rs h = rw h refl

pub first_found :
    (id : Text) (x : RequestRecord) (rs : List RequestRecord) {r : RequestRecord}
    → (x.id == id) ≡ true
    → find_request id (x ∷ rs) ≡ some r
    → x ≡ r
first_found id x rs h e = some-injective (sym (find_request-same id x rs h) ∙ e)

pub Grows-replace :
    (b : Bool) (id : Text) (rs : List RequestRecord) (r r' : RequestRecord)
    → find_request id rs ≡ some r
    → RequestEvolves b r r'
    → Grows b rs (replace_request id r' rs)
unfolding Grows find_request replace_request
Grows-replace b id [] r r' e v = cc
Grows-replace b id (x ∷ rs) r r' e v = elim (Bool-cases (x.id == id)) [
  | inl same ↦
      rw same
        (subst (λ y. RequestEvolves b y r') (sym (first_found id x rs same e)) v, Grows-refl b rs)
  | inr other ↦ rw other (
    RequestEvolves-refl b x,
    Grows-replace b id rs r r' (sym (find_request-other id x rs other) ∙ e) v,
  )
]

pub Evolves-trans :
    (b : Bool) (d e f : DirectRecord) → Evolves b d e → Evolves b e f → Evolves b d f
Evolves-trans b d e f p q = record {
  claimed = λ c. q.claimed (p.claimed c);
  receipt = λ c. q.receipt (p.receipt c);
  no_receipt = λ c. q.no_receipt c ∙ p.no_receipt c;
  create = q.create ∙ p.create;
  terms = q.terms ∙ p.terms;
  replay = q.replay ∙ p.replay;
  path = Reaches-trans _ _ _ _ _ _ p.path q.path;
  ended = λ t. q.ended (ap is_terminal (p.ended t) ∙ t) ∙ p.ended t;
}

OptionEvolves-trans :
    (b : Bool) (o p q : Option DirectRecord)
    → OptionEvolves b o p
    → OptionEvolves b p q
    → OptionEvolves b o q
unfolding OptionEvolves
OptionEvolves-trans b none none none u v = tt
OptionEvolves-trans b none none (some f) u v = v
OptionEvolves-trans b none (some e) q u v = absurd u
OptionEvolves-trans b (some d) none q u v = absurd u
OptionEvolves-trans b (some d) (some e) none u v = v
OptionEvolves-trans b (some d) (some e) (some f) u v = Evolves-trans b d e f u v

pub RequestEvolves-trans :
    (b : Bool) (r s t : RequestRecord)
    → RequestEvolves b r s
    → RequestEvolves b s t
    → RequestEvolves b r t
RequestEvolves-trans b r s t p q = record {
  same_id = q.same_id ∙ p.same_id;
  record_of = OptionEvolves-trans b r.direct s.direct t.direct p.record_of q.record_of;
}

weaken_option : (o p : Option DirectRecord) → OptionEvolves false o p → OptionEvolves true o p
unfolding OptionEvolves
weaken_option none none u = tt
weaken_option none (some d) u = u
weaken_option (some d) none u = u
weaken_option (some d) (some e) u = record {
  claimed = u.claimed;
  receipt = u.receipt;
  no_receipt = λ c. cc;
  create = u.create;
  terms = u.terms;
  replay = u.replay;
  path = u.path;
  ended = u.ended;
}

pub weaken : (r s : RequestRecord) → RequestEvolves false r s → RequestEvolves true r s
weaken r s v = record {
  same_id = v.same_id;
  record_of = weaken_option r.direct s.direct v.record_of;
}

pub weaken-Grows : (rs ss : List RequestRecord) → Grows false rs ss → Grows true rs ss
unfolding Grows
weaken-Grows [] ss g = g
weaken-Grows (r ∷ rs) [] g = g
weaken-Grows (r ∷ rs) (s ∷ ss) g = (weaken r s g.0, weaken-Grows rs ss g.1)
