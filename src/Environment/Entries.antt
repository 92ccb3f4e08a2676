-- ===== src/Environment/Entries.antt =====
-- What a child's environment holds.
use vaultwarden_cli.Base.{
  ℕ, suc, ◌+◌, ◌≤◌, ◌≡◌, refl, sym, ap, ◌∙◌, subst, Bool, true, false, not, ◌&&◌, ◌||◌, inl, inr,
  Bool-cases, Option, none, some, List, [], ◌∷◌, ◌++◌, ◌==◌, text_eq, Text, codes, all, length,
  arith, beq_refl, if◌then◌else◌,
}
use vaultwarden_cli.Provider.Evolution.{some-injective}
use vaultwarden_cli.Strings.{contains}
use vaultwarden_cli.Environment.{
  Mapping, valid_environment_name, baseline, baseline_name, entry, total, inserted,
  rejected_mapping, oversized, collect, from_mappings,
}

-- How many of the mappings have a name.
abbrev pub occurrences : Text → List Mapping → ℕ
occurrences x [] = 0
occurrences x (m ∷ ms) = let rest = occurrences x ms in if m.name == x then suc rest else rest

abbrev pub entries_of : List Mapping → List Text
entries_of [] = []
entries_of (m ∷ ms) = entry m ∷ entries_of ms

abbrev allowed : Mapping → Bool
allowed m = (baseline_name m.name || valid_environment_name m.name) && not (contains 0 m.value)

-- What the loop leaves.
record Collected (ms : List Mapping) (names entries out : List Text) : Type 0 where
  made : out ≡ entries ++ entries_of ms
  fine : all allowed ms ≡ true
  once : (x : Text) → (if inserted x names then 1 else 0) + occurrences x ms ≤ 1
  bounded : oversized entries ≡ false → oversized out ≡ false

passed :
    (r b : Bool) (rest : Option (List Text)) {out : List Text}
    → (if r || b then none else rest) ≡ some out
    → (r ≡ false) × (b ≡ false) × (rest ≡ some out)
passed true b rest e = cc
passed false true rest e = cc
passed false false rest e = (refl, refl, e)

once-cons :
    (m : Mapping) (ms : List Mapping) (names : List Text) (x : Text)
    → inserted m.name names ≡ false
    → (if inserted x (m.name ∷ names) then 1 else 0) + occurrences x ms ≤ 1
    → (if inserted x names then 1 else 0) + occurrences x (m ∷ ms) ≤ 1
once-cons m ms names x fresh h = elim (Bool-cases (m.name == x)) [
  | inl same ↦
      let gone : inserted x names ≡ false =
        subst (λ n. inserted n names ≡ false) ((text_eq.eq_iff m.name x).0 same) fresh in
      ground arith
  | inr other ↦ ground arith
]

appended : (es fs : List Text) (e : Text) → (es ++ e ∷ []) ++ fs ≡ es ++ e ∷ fs
appended [] fs e = refl
appended (x ∷ es) fs e = ap (λ t. x ∷ t) (appended es fs e)

ended : (es : List Text) → es ≡ es ++ []
ended [] = refl
ended (x ∷ es) = ap (λ t. x ∷ t) (ended es)

allowed-rejected_mapping :
    (m : Mapping) (names : List Text)
    → rejected_mapping names m ≡ false
    → (allowed m ≡ true) × (inserted m.name names ≡ false)
allowed-rejected_mapping m names e = ground arith

collect_lem :
    (ms : List Mapping) (names entries out : List Text)
    → collect ms names entries ≡ some out
    → Collected ms names entries out
unfolding collect
collect_lem [] names entries out e = record {
  made = sym (some-injective e) ∙ ended entries;
  fine = refl;
  once = λ x. ground arith;
  bounded = subst (λ o. oversized entries ≡ false → oversized o ≡ false) (some-injective e) λ b. b;
}
collect_lem (m ∷ ms) names entries out e =
    let (kept, fits, left) = passed _ _ _ e in
    let (fine, fresh) = allowed-rejected_mapping m names kept in
    let rest = collect_lem ms (m.name ∷ names) (entries ++ entry m ∷ []) out left in
    record {
      made = rest.made ∙ appended entries (entries_of ms) (entry m);
      fine = rw fine rest.fine;
      once = λ x. once-cons m ms names x fresh (rest.once x);
      bounded = λ b. rest.bounded fits;
    }

abbrev proper : Mapping → Bool
proper m = valid_environment_name m.name && not (contains 0 m.value)

proper-head :
    (m : Mapping) (ms : List Mapping)
    → allowed m ≡ true
    → (baseline_name m.name ≡ true → occurrences m.name (m ∷ ms) ≡ 0)
    → proper m ≡ true
proper-head m ms a none_left = elim (Bool-cases (baseline_name m.name)) [
  | inl taken ↦ absurd (clash (none_left taken))
  | inr free ↦ ground arith
]
  where
    clash : occurrences m.name (m ∷ ms) ≡ 0 → ⊥
    clash h = ground (arith, beq_refl m.name)

fewer :
    (x : Text) (m : Mapping) (ms : List Mapping) → occurrences x (m ∷ ms) ≡ 0 → occurrences x ms ≡ 0
fewer x m ms h = ground arith

all-proper :
    (ms : List Mapping)
    → all allowed ms ≡ true
    → ((x : Text) → baseline_name x ≡ true → occurrences x ms ≡ 0)
    → all proper ms ≡ true
all-proper [] a h = refl
all-proper (m ∷ ms) a h =
    let head : proper m ≡ true = proper-head m ms (ground arith) (h m.name) in
    let tail : all proper ms ≡ true = all-proper ms (ground arith) λ x b. fewer x m ms (h x b) in
    ground arith

counted_once :
    (m : Mapping) (ms : List Mapping) (x : Text)
    → (x == m.name) ≡ true
    → occurrences x (m ∷ ms) ≤ 1
    → occurrences x ms ≡ 0
counted_once m ms x same h =
    let flipped : (m.name == x) ≡ true =
      (text_eq.eq_iff m.name x).1 (sym ((text_eq.eq_iff x m.name).0 same)) in
    ground arith

at_most :
    (m : Mapping) (ms : List Mapping) (x : Text) → occurrences x (m ∷ ms) ≤ 1 → occurrences x ms ≤ 1
at_most m ms x h = ground arith

taken-of :
    (m n : Mapping) (ms : List Mapping) (x : Text)
    → occurrences x (m ∷ n ∷ ms) ≤ 1
    → (x == m.name || x == n.name) ≡ true
    → occurrences x ms ≡ 0
taken-of m n ms x h b = elim (Bool-cases (x == m.name)) [
  | inl first ↦ fewer x n ms (counted_once m (n ∷ ms) x first h)
  | inr other ↦ counted_once n ms x (ground arith) (at_most m (n ∷ ms) x h)
]

baseline-taken :
    (ms : List Mapping) (x : Text)
    → occurrences x (baseline ++ ms) ≤ 1
    → baseline_name x ≡ true
    → occurrences x ms ≡ 0
baseline-taken ms x h b =
    taken-of (record { name = codes "LANG"; value = codes "C" })
      (record { name = codes "LC_ALL"; value = codes "C" }) ms x h b

no_names :
    (ms : List Mapping) (x : Text)
    → (if inserted x [] then 1 else 0) + occurrences x ms ≤ 1
    → occurrences x ms ≤ 1
no_names ms x h = omega arith

third : (a b c : Bool) → (a && (b && c)) ≡ true → c ≡ true
third a b c h = ground arith

tail_allowed : (ms : List Mapping) → all allowed (baseline ++ ms) ≡ true → all allowed ms ≡ true
tail_allowed ms h = third _ _ _ h

-- An environment of a program.
pub record Holds (ms : List Mapping) (out : List Text) : Type 0 where
  pub listed : out ≡ entries_of (baseline ++ ms)
  pub named : all proper ms ≡ true
  pub once : (x : Text) → occurrences x (baseline ++ ms) ≤ 1
  pub counted : length out ≤ 32
  pub bounded : total out ≤ 32768

-- An environment that is made holds the two baseline variables and then the mappings, as `name=value`
-- and a zero byte each. The mappings have valid names and no zero byte in a value, no name occurs
-- twice, and there are at most 32 entries of at most 32768 bytes together.
pub from_mappings-Holds :
    (ms : List Mapping) (out : List Text) → from_mappings ms ≡ some out → Holds ms out
unfolding from_mappings
from_mappings-Holds ms out e =
    let made = collect_lem (baseline ++ ms) [] [] out e in
    let small : oversized out ≡ false = made.bounded refl in
    let single : (x : Text) → occurrences x (baseline ++ ms) ≤ 1 =
      λ x. no_names (baseline ++ ms) x (made.once x) in
    record {
      listed = made.made;
      named = all-proper ms (tail_allowed ms made.fine) λ x. baseline-taken ms x (single x);
      once = single;
      counted = ground arith;
      bounded = ground arith;
    }
