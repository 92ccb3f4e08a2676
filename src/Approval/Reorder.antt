-- ===== src/Approval/Reorder.antt =====
-- The canonical form of src/access/approval_v2.rs does not depend on the order of an object's members.
use vaultwarden_cli.Base.{
  ◌≡◌, refl, sym, ap, ◌∙◌, true, false, ◌⊎◌, inl, inr, Bool-cases, Option, none, some, Option-cases,
  List, [], ◌∷◌, ◌++◌, Text, text_eq, ◌==◌, map, map_option, arith,
}
use vaultwarden_cli.Policy.Checks.{insert_sorted, sort}
use vaultwarden_cli.Policy.Order.{text_leb-total, text_leb_antisym, text_leb_trans}
use vaultwarden_cli.Approval.Canonical.{
  Value, Members, Json, key_leb, canonical, members, object_text, with_member, joined, member_text,
}

-- Orders of the members of one object, which names each key once.
pub data Reorders : Members → Members → Type 0 where
  same : (ms : Members) → Reorders ms ms
  swap :
      (j k : Text) (v w : Value) (ms : Members)
      → (j == k) ≡ false
      → Reorders
          (Members.member j v (Members.member k w ms))
          (Members.member k w (Members.member j v ms))
  under :
      (k : Text) (v : Value) (ms ns : Members)
      → Reorders ms ns
      → Reorders (Members.member k v ms) (Members.member k v ns)
  after : (ls ms ns : Members) → Reorders ls ms → Reorders ms ns → Reorders ls ns

abbrev Pair : Type 0
Pair = Text × Text

front :
    (a c : Pair) (cs : List Pair)
    → key_leb a c ≡ true
    → insert_sorted key_leb a (c ∷ cs) ≡ a ∷ c ∷ cs
unfolding insert_sorted
front a c cs h = rw h refl

later :
    (a c : Pair) (cs : List Pair)
    → key_leb a c ≡ false
    → insert_sorted key_leb a (c ∷ cs) ≡ c ∷ insert_sorted key_leb a cs
unfolding insert_sorted
later a c cs h = rw h refl

-- Two insertions of pairs of which the first comes before the second.
insert_comm :
    (a b : Pair) (cs : List Pair)
    → key_leb a b ≡ true
    → key_leb b a ≡ false
    → insert_sorted key_leb a (insert_sorted key_leb b cs)
      ≡ insert_sorted key_leb b (insert_sorted key_leb a cs)
insert_comm a b [] p q = unfold insert_sorted in rw (p, q) refl
insert_comm a b (c ∷ cs) p q = elim (Bool-cases (key_leb b c)) [
  | inl bc ↦
      let ac : key_leb a c ≡ true = text_leb_trans a.0 b.0 c.0 p bc in
      ap (insert_sorted key_leb a) (front b c cs bc)
      ∙ front a b (c ∷ cs) p
      ∙ sym (
          ap (insert_sorted key_leb b) (front a c cs ac)
          ∙ later b a (c ∷ cs) q
          ∙ ap (λ xs. a ∷ xs) (front b c cs bc))
  | inr bc ↦ elim (Bool-cases (key_leb a c)) [
    | inl ac ↦
        ap (insert_sorted key_leb a) (later b c cs bc)
        ∙ front a c (insert_sorted key_leb b cs) ac
        ∙ sym (
            ap (insert_sorted key_leb b) (front a c cs ac)
            ∙ later b a (c ∷ cs) q
            ∙ ap (λ xs. a ∷ xs) (later b c cs bc))
    | inr ac ↦
        ap (insert_sorted key_leb a) (later b c cs bc)
        ∙ later a c (insert_sorted key_leb b cs) ac
        ∙ ap (λ xs. c ∷ xs) (insert_comm a b cs p q)
        ∙ sym (
            ap (insert_sorted key_leb b) (later a c cs ac)
            ∙ later b c (insert_sorted key_leb a cs) bc)
  ]
]

strictly : (a b : Pair) → (a.0 == b.0) ≡ false → key_leb a b ≡ true → key_leb b a ≡ false
strictly a b d p = elim (Bool-cases (key_leb b a)) [
  | inl q ↦ absurd (ground (arith, (text_eq.eq_iff a.0 b.0).1 (text_leb_antisym a.0 b.0 p q), d))
  | inr q ↦ q
]

insert_swap :
    (a b : Pair) (cs : List Pair)
    → (a.0 == b.0) ≡ false
    → insert_sorted key_leb a (insert_sorted key_leb b cs)
      ≡ insert_sorted key_leb b (insert_sorted key_leb a cs)
insert_swap a b cs d = elim (Bool-cases (key_leb a b)) [
  | inl p ↦ insert_comm a b cs p (strictly a b d p)
  | inr p ↦ sym (insert_comm b a cs (first p (text_leb-total a.0 b.0)) p)
]
  where
    first : key_leb a b ≡ false → (key_leb a b ≡ true) ⊎ (key_leb b a ≡ true) → key_leb b a ≡ true
    first p (inl q) = cc
    first p (inr q) = q

sorted : Option (List Pair) → Option (List Pair)
sorted o = map_option (sort key_leb) o

swapped :
    (j k : Text) (q c q' c' : Option Text) (o : Option (List Pair))
    → (j == k) ≡ false
    → sorted (with_member j q c (with_member k q' c' o))
      ≡ sorted (with_member k q' c' (with_member j q c o))
unfolding sorted sort
swapped j k none c none c' o d = refl
swapped j k none c (some x') none o d = refl
swapped j k none c (some x') (some y') o d = refl
swapped j k (some x) none none c' o d = refl
swapped j k (some x) none (some x') none o d = refl
swapped j k (some x) none (some x') (some y') o d = refl
swapped j k (some x) (some y) none c' o d = refl
swapped j k (some x) (some y) (some x') none o d = refl
swapped j k (some x) (some y) (some x') (some y') none d = refl
swapped j k (some x) (some y) (some x') (some y') (some ps) d =
    ap some (insert_swap (j, x ++ b':' ∷ y) (k, x' ++ b':' ∷ y') (sort key_leb ps) d)

kept_under :
    (k : Text) (q c : Option Text) (o o' : Option (List Pair))
    → sorted o ≡ sorted o'
    → sorted (with_member k q c o) ≡ sorted (with_member k q c o')
unfolding sorted sort
kept_under k none c o o' e = refl
kept_under k (some x) none o o' e = refl
kept_under k (some x) (some y) none none e = refl
kept_under k (some x) (some y) none (some qs) e = cc
kept_under k (some x) (some y) (some ps) none e = cc
kept_under k (some x) (some y) (some ps) (some qs) e =
    ap (λ o. map_option (insert_sorted key_leb (k, x ++ b':' ∷ y)) o) e

module _ ⦃j : Json⦄ where
  reorder-sorted : (ms ns : Members) → Reorders ms ns → sorted (members ms) ≡ sorted (members ns)
  unfolding members
  reorder-sorted ms ns (Reorders.same _) = refl
  reorder-sorted ms ns (Reorders.swap x y v w rest d) =
      swapped x y (j.quoted x) (canonical v) (j.quoted y) (canonical w) (members rest) d
  reorder-sorted ms ns (Reorders.under k v ls os r) =
      kept_under k (j.quoted k) (canonical v) (members ls) (members os) (reorder-sorted ls os r)
  reorder-sorted ms ns (Reorders.after _ ls _ r t) = reorder-sorted ms ls r ∙ reorder-sorted ls ns t

  object-sorted :
      (ms : Members)
      → canonical (Value.object ms)
        ≡ map_option (λ ps. b'{' ∷ joined (map member_text ps) ++ b'}' ∷ []) (sorted (members ms))
  unfolding canonical object_text sorted
  object-sorted ms = elim (Option-cases (members ms)) [
    | inl e ↦ rw e refl
    | inr (ps, e) ↦ rw e refl
  ]

  -- Two objects with the same members in different orders have one canonical form.
  pub canonical-Reorders :
      (ms ns : Members) → Reorders ms ns → canonical (Value.object ms) ≡ canonical (Value.object ns)
  canonical-Reorders ms ns r =
      object-sorted ms
      ∙ ap (map_option (λ ps. b'{' ∷ joined (map member_text ps) ++ b'}' ∷ []))
          (reorder-sorted ms ns r)
      ∙ sym (object-sorted ns)
