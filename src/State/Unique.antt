-- ===== src/State/Unique.antt =====
-- The identifiers of the requests of a valid state are distinct.
use vaultwarden_cli.Base.{
  ℕ, ◌≡◌, refl, ap, Bool, true, false, Option, none, some, List, [], ◌∷◌, ◌==◌, text_eq, Text, any,
  arith, Bool-cases, inl, inr, is_some_and,
}
use vaultwarden_cli.Host.{Host}
use vaultwarden_cli.Agents.{AgentBinding}
use vaultwarden_cli.State.Types.{ProviderState, RequestRecord}
use vaultwarden_cli.State.Validate.{
  mem, requests_valid, state_valid, markers_distinct, replay_of, add_marker,
}

unfoldable pub Unique : List RequestRecord → Type 0
Unique [] = Unit {0}
Unique (r ∷ rs) = (any (λ x. x.id == r.id) rs ≡ false) × Unique rs

module _ ⦃h : Host⦄ (bindings : List AgentBinding) (epoch : ℕ) where
  valid-cons :
      (ids ms : List Text) (r : RequestRecord) (rs : List RequestRecord)
      → requests_valid bindings epoch ids ms (r ∷ rs) ≡ true
      → (mem r.id ids ≡ false)
        × (requests_valid bindings epoch (r.id ∷ ids) (add_marker (replay_of r) ms) rs ≡ true)
  unfolding requests_valid
  valid-cons ids ms r rs e = ground arith

  same_member :
      (a b : Text) (ids : List Text) → mem a ids ≡ true → mem b ids ≡ false → (b == a) ≡ false
  same_member a b ids p q = elim (Bool-cases (b == a)) [
    | inl same ↦ absurd (clash (ap (λ x. mem x ids) ((text_eq.eq_iff b a).0 same)))
    | inr other ↦ other
  ]
    where
      clash : mem b ids ≡ mem a ids → ⊥
      clash e = cc

  later_member : (a b : Text) (ids : List Text) → mem a ids ≡ true → mem a (b ∷ ids) ≡ true
  later_member a b ids p = ground arith

  ids_fresh :
      (id : Text) (ids ms : List Text) (rs : List RequestRecord)
      → requests_valid bindings epoch ids ms rs ≡ true
      → mem id ids ≡ true
      → any (λ x. x.id == id) rs ≡ false
  ids_fresh id ids ms [] v m = refl
  ids_fresh id ids ms (r ∷ rs) v m =
      let (new, rest) = valid-cons ids ms r rs v in
      rw (same_member id r.id ids m new) (
        ids_fresh id (r.id ∷ ids) (add_marker (replay_of r) ms) rs rest
          (later_member id r.id ids m))

  first_member : (a : Text) (ids : List Text) → mem a (a ∷ ids) ≡ true
  first_member a ids = rw ((text_eq.eq_iff a a).1 refl) refl

  Unique-requests :
      (ids ms : List Text) (rs : List RequestRecord)
      → requests_valid bindings epoch ids ms rs ≡ true
      → Unique rs
  unfolding Unique
  Unique-requests ids ms [] v = tt
  Unique-requests ids ms (r ∷ rs) v =
      let (new, rest) = valid-cons ids ms r rs v in
      (
        ids_fresh r.id (r.id ∷ ids) (add_marker (replay_of r) ms) rs rest (first_member r.id ids),
        Unique-requests (r.id ∷ ids) (add_marker (replay_of r) ms) rs rest,
      )

some_case :
    {A : Type 0} (o : Option A) (f : A → Bool) → is_some_and f o ≡ true → (a : A) × (f a ≡ true)
some_case none f e = cc
some_case (some a) f e = (a, e)

module _ ⦃h : Host⦄ where
  requests-valid :
      (s : ProviderState) (uid : ℕ)
      → state_valid s uid ≡ true
      → is_some_and
          (λ ms. requests_valid s.pairings s.lifecycle_epoch [] ms s.requests)
          (markers_distinct [] s.query_replay_markers)
        ≡ true
  unfolding state_valid
  requests-valid s uid v = ground arith

  pub state_valid-Unique :
      (s : ProviderState) (uid : ℕ) → state_valid s uid ≡ true → Unique s.requests
  state_valid-Unique s uid v =
      let (ms, e) =
        some_case (markers_distinct [] s.query_replay_markers) _ (requests-valid s uid v) in
      Unique-requests s.pairings s.lifecycle_epoch [] ms s.requests e
