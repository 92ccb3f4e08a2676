-- ===== src/Request/Newest.antt =====
-- `history::newest` of src/access/history.rs: the order of listed events, and the latest of them.
use vaultwarden_cli.Base.{
  ℕ, zero, suc, ◌≡◌, refl, sym, ap, ◌∙◌, subst, Bool, true, false, ◌&&◌, &&-true, &&-intro, ◌⊎◌,
  inl, inr, Bool-cases, Option, none, some, List, [], ◌∷◌, leb, ◌==◌, nat_eq, text_eq, PartialEq,
  if◌then◌else◌, take, arith,
}
use vaultwarden_cli.Policy.Order.{text_leb-total}
use vaultwarden_cli.Policy.Checks.{text_leb, sort, insert_sorted}
use vaultwarden_cli.Request.Types.{HistoryEvent, option_time_eq}

-- The order of `Option<u64>`, with `None` first.
abbrev time_leb : Option ℕ → Option ℕ → Bool
time_leb none t = true
time_leb (some a) none = false
time_leb (some a) (some b) = leb a b

-- By time, then by request, then by the place in its history; the latest first.
unfoldable pub newer : HistoryEvent → HistoryEvent → Bool
newer a b =
    if a.at_unix_seconds == b.at_unix_seconds
    then (if a.request_id == b.request_id
        then leb b.ordinal a.ordinal
        else text_leb b.request_id a.request_id)
    else time_leb b.at_unix_seconds a.at_unix_seconds

unfoldable pub newest : List HistoryEvent → ℕ → List HistoryEvent
newest events limit = take limit (sort newer events)

time_leb-total : (a b : Option ℕ) → (time_leb a b ≡ true) ⊎ (time_leb b a ≡ true)
time_leb-total none b = inl refl
time_leb-total (some a) none = inr refl
time_leb-total (some a) (some b) = ground arith

eq_comm {ℓ} : {A : Type ℓ} ⦃e : PartialEq A⦄ (a b : A) → (a == b) ≡ (b == a)
eq_comm ⦃e⦄ a b = elim (Bool-cases (a == b)) [
  | inl p ↦ p ∙ sym ((e.eq_iff b a).1 (sym ((e.eq_iff a b).0 p)))
  | inr p ↦ elim (Bool-cases (b == a)) [
    | inl q ↦ (e.eq_iff a b).1 (sym ((e.eq_iff b a).0 q)) ∙ sym q
    | inr q ↦ p ∙ sym q
  ]
]

-- Where the first parts of two pairs differ, they decide; where they agree, the second parts do.
either :
    (same first first' second second' : Bool)
    → (first ≡ true) ⊎ (first' ≡ true)
    → (second ≡ true) ⊎ (second' ≡ true)
    → (if same then second else first) ≡ false
    → (if same then second' else first') ≡ true
either same first first' second second' p q e = ground arith

either_of :
    (same first first' second second' : Bool)
    → (first ≡ true) ⊎ (first' ≡ true)
    → (second ≡ true) ⊎ (second' ≡ true)
    → ((if same then second else first) ≡ true) ⊎ ((if same then second' else first') ≡ true)
either_of true first first' second second' p q = q
either_of false first first' second second' p q = p

ordinal-total : (m n : ℕ) → (leb m n ≡ true) ⊎ (leb n m ≡ true)
ordinal-total m n = ground arith

-- Of two events one is not older than the other.
pub newer-total : (a b : HistoryEvent) → newer a b ≡ false → newer b a ≡ true
unfolding newer
newer-total a b e =
    rw (eq_comm b.at_unix_seconds a.at_unix_seconds, eq_comm b.request_id a.request_id)
      (either (a.at_unix_seconds == b.at_unix_seconds) _ _ _ _
        (time_leb-total b.at_unix_seconds a.at_unix_seconds)
        (either_of (a.request_id == b.request_id) _ _ _ _ (text_leb-total b.request_id a.request_id)
          (ordinal-total b.ordinal a.ordinal))
        e)

-- Each event of the list is not older than the next.
unfoldable pub is_ordered : List HistoryEvent → Bool
is_ordered [] = true
is_ordered (a ∷ []) = true
is_ordered (a ∷ b ∷ es) = newer a b && is_ordered (b ∷ es)

insert-front :
    (e b : HistoryEvent) (es : List HistoryEvent)
    → newer e b ≡ true
    → insert_sorted newer e (b ∷ es) ≡ e ∷ b ∷ es
unfolding insert_sorted
insert-front e b es h = rw h refl

insert-later :
    (e b : HistoryEvent) (es : List HistoryEvent)
    → newer e b ≡ false
    → insert_sorted newer e (b ∷ es) ≡ b ∷ insert_sorted newer e es
unfolding insert_sorted
insert-later e b es h = rw h refl

ordered-tail :
    (a : HistoryEvent) (es : List HistoryEvent) → is_ordered (a ∷ es) ≡ true → is_ordered es ≡ true
unfolding is_ordered
ordered-tail a [] h = refl
ordered-tail a (b ∷ es) h = (&&-true (newer a b) _ h).1

ordered-head :
    (a b : HistoryEvent) (es : List HistoryEvent)
    → is_ordered (a ∷ b ∷ es) ≡ true
    → newer a b ≡ true
unfolding is_ordered
ordered-head a b es h = (&&-true (newer a b) _ h).0

ordered-cons :
    (a b : HistoryEvent) (es : List HistoryEvent)
    → newer a b ≡ true
    → is_ordered (b ∷ es) ≡ true
    → is_ordered (a ∷ b ∷ es) ≡ true
unfolding is_ordered
ordered-cons a b es p q = &&-intro p q

-- An event that is older than the first goes behind it.
behind :
    (e b : HistoryEvent) (es : List HistoryEvent)
    → newer b e ≡ true
    → is_ordered (b ∷ es) ≡ true
    → is_ordered (insert_sorted newer e es) ≡ true
    → is_ordered (b ∷ insert_sorted newer e es) ≡ true
behind e b [] h o r = unfold insert_sorted is_ordered in &&-intro h refl
behind e b (c ∷ es) h o r = elim (Bool-cases (newer e c)) [
  | inl first ↦
      rw (insert-front e c es first)
        (ordered-cons b e (c ∷ es) h (ordered-cons e c es first (ordered-tail b (c ∷ es) o)))
  | inr later ↦ rw (insert-later e c es later) (
      ordered-cons b c _ (ordered-head b c es o)
        (subst (λ fs. is_ordered fs ≡ true) (insert-later e c es later) r))
]

insert-ordered :
    (e : HistoryEvent) (es : List HistoryEvent)
    → is_ordered es ≡ true
    → is_ordered (insert_sorted newer e es) ≡ true
insert-ordered e [] h = unfold insert_sorted is_ordered in refl
insert-ordered e (b ∷ es) h = elim (Bool-cases (newer e b)) [
  | inl first ↦ rw (insert-front e b es first) (ordered-cons e b es first h)
  | inr later ↦
      rw (insert-later e b es later)
        (behind e b es (newer-total e b later) h (insert-ordered e es (ordered-tail b es h)))
]

pub sort-ordered : (es : List HistoryEvent) → is_ordered (sort newer es) ≡ true
unfolding sort
sort-ordered [] = unfold is_ordered in refl
sort-ordered (e ∷ es) = insert-ordered e (sort newer es) (sort-ordered es)

insert-first :
    (e : HistoryEvent) (es : List HistoryEvent)
    → is_ordered (e ∷ es) ≡ true
    → insert_sorted newer e es ≡ e ∷ es
insert-first e [] h = unfold insert_sorted in refl
insert-first e (b ∷ es) h = insert-front e b es (ordered-head e b es h)

-- Sorting leaves an ordered list.
pub sort-same : (es : List HistoryEvent) → is_ordered es ≡ true → sort newer es ≡ es
unfolding sort
sort-same [] h = refl
sort-same (e ∷ es) h =
    ap (insert_sorted newer e) (sort-same es (ordered-tail e es h)) ∙ insert-first e es h

pub take-ordered :
    (n : ℕ) (es : List HistoryEvent) → is_ordered es ≡ true → is_ordered (take n es) ≡ true
take-ordered zero es h = unfold is_ordered in refl
take-ordered (suc n) [] h = h
take-ordered (suc zero) (a ∷ es) h = unfold is_ordered in refl
take-ordered (suc (suc n)) (a ∷ []) h = unfold is_ordered in refl
take-ordered (suc (suc n)) (a ∷ b ∷ es) h =
    ordered-cons a b (take n es) (ordered-head a b es h)
      (take-ordered (suc n) (b ∷ es) (ordered-tail a (b ∷ es) h))

take-shorter :
    (n : ℕ) (b : HistoryEvent) (es : List HistoryEvent) → take n (b ∷ take n es) ≡ take n (b ∷ es)
take-shorter zero b es = refl
take-shorter (suc zero) b es = refl
take-shorter (suc (suc n)) b [] = refl
take-shorter (suc (suc n)) b (c ∷ es) = ap (λ fs. b ∷ fs) (take-shorter (suc n) c es)

-- What is cut off before an insertion would be cut off after it.
pub take-insert :
    (n : ℕ) (e : HistoryEvent) (es : List HistoryEvent)
    → take n (insert_sorted newer e (take n es)) ≡ take n (insert_sorted newer e es)
take-insert zero e es = refl
take-insert (suc n) e [] = refl
take-insert (suc n) e (b ∷ es) = elim (Bool-cases (newer e b)) [
  | inl first ↦
      rw (insert-front e b es first, insert-front e b (take n es) first)
        (ap (λ fs. e ∷ fs) (take-shorter n b es))
  | inr later ↦
      rw (insert-later e b es later, insert-later e b (take n es) later)
        (ap (λ fs. b ∷ fs) (take-insert n e es))
]
