-- ===== src/Access/Fresh.antt =====
-- What `AccessRequest::new_at` makes.
use vaultwarden_cli.Base.{
  ℕ, ◌+◌, ◌^◌, ◌<◌, ◌≡◌, refl, Option, some, List, leb, ltb, ltb→lt, Text, ok, Sound, Sound-ok,
  Sound-bind, Sound-guard, Sound-option, arith, ap, Bool-cases, inl, inr, true,
}
use vaultwarden_cli.Host.{Host}
use vaultwarden_cli.Access.Types.{
  AccessRequest, validate_access, is_expired_at, checked_add, new_at,
}

-- A valid request that lives from its creation for its lifetime.
pub record Fresh (created lifetime : ℕ) (r : AccessRequest) : Type 0 where
  pub valid : validate_access r ≡ ok tt
  pub created_then : r.created_at_unix_seconds ≡ created
  pub lives : 0 < lifetime
  pub bounded : r.expires_at_unix_seconds < 2 ^ 64
  pub expiry : (now : ℕ) → is_expired_at r now ≡ leb (created + lifetime) now

checked_add-some : (a b : ℕ) {c : ℕ} → checked_add a b ≡ some c → (c ≡ a + b) × (c < 2 ^ 64)
checked_add-some a b e = elim (Bool-cases (ltb (a + b) (2 ^ 64))) [
  | inl fits ↦ ground arith
  | inr wraps ↦ ground arith
]

compared-Sound :
    {E : Type 0} (a b : ℕ) → ltb a b ≡ true → Sound {E = E} {A = Unit {0}} (λ _. a < b) (ok tt)
compared-Sound a b h = Sound-ok tt (ltb→lt a b h)

validate-lives :
    (r : AccessRequest)
    → Sound (λ _. r.created_at_unix_seconds < r.expires_at_unix_seconds) (validate_access r)
unfolding validate_access
validate-lives r = search (Sound-guard, compared-Sound) depth 10

made-Fresh :
    {E : Type 0} (r : AccessRequest) (lifetime : ℕ) (u : Unit {0})
    → checked_add r.created_at_unix_seconds lifetime ≡ some r.expires_at_unix_seconds
    → validate_access r ≡ ok u
    → Sound {E = E} (Fresh r.created_at_unix_seconds lifetime) (ok r)
unfolding is_expired_at
made-Fresh r lifetime u added e =
    let (sum, bound) = checked_add-some r.created_at_unix_seconds lifetime added in
    let lives = (validate-lives r).holds u e in
    Sound-ok r record {
      valid = e;
      created_then = refl;
      lives = omega arith;
      bounded = bound;
      expiry = λ now. ap (λ x. leb x now) sum;
    }

module _ ⦃h : Host⦄ where
  new_at-Sound :
      (random : Option Text) (agent operation revision : Text) (args : List Text)
      (created lifetime : ℕ)
      → Sound
          (Fresh created lifetime)
          (new_at random agent operation revision args created lifetime)
  unfolding new_at
  new_at-Sound random agent operation revision args created lifetime =
      search (Sound-bind, Sound-option, made-Fresh) depth 8

  -- A new request is valid, lives for longer than no time, and expires within 64 bits; it is expired
  -- from its lifetime after its creation on, and not before.
  pub new_at-Fresh :
      (random : Option Text) (agent operation revision : Text) (args : List Text)
      (created lifetime : ℕ) (r : AccessRequest)
      → new_at random agent operation revision args created lifetime ≡ ok r
      → Fresh created lifetime r
  new_at-Fresh random agent operation revision args created lifetime r e =
      (new_at-Sound random agent operation revision args created lifetime).holds r e
