-- ===== src/Totp/Shape.antt =====
-- The codes of src/totp.rs: a seed that parses has a code at every time, of the form that it asks for.
use vaultwarden_cli.Base.{
  ℕ, zero, suc, ◌+◌, ◌/◌, ◌%◌, ◌^◌, ◌≤◌, ◌<◌, ◌≡◌, ◌∙◌, sym, refl, Bool, true, some, [], ◌∷◌,
  nat_eq, beq_refl, if◌then◌else◌, Text, length, last, get_elem?, all, arith, ok, lt→ltb,
  Bool-cases, inl, inr, &&-intro,
}
use vaultwarden_cli.Strings.{is_digit, contains}
use vaultwarden_cli.Totp.Seed.{Algorithm, TotpConfig, parse}
use vaultwarden_cli.Protocol.Framing.{u64_bytes}
use vaultwarden_cli.Totp.Code.{
  Mac, IsMac, digest_length, steam_alphabet, window, truncated, steam_code, format_code,
  generate_config, generate,
}
use vaultwarden_cli.Totp.Bounds.{IsInRange, parse-IsInRange}
use vaultwarden_cli.Totp.Decimal.{decimal_code-digits}

-- The characters of a code.
abbrev pub code_char : Bool → ℕ → Bool
code_char steam b = if steam then contains b steam_alphabet else is_digit b

get_elem?-some :
    (xs : Text) (i : ℕ)
    → i < length xs
    → (x : ℕ) × (get_elem? xs i ≡ some x) × (contains x xs ≡ true)
get_elem?-some [] i h = absurd (omega arith)
get_elem?-some (y ∷ xs) zero h = (y, refl, rw (beq_refl y) refl)
get_elem?-some (y ∷ xs) (suc i) h =
    let (x, e, c) = get_elem?-some xs i (omega arith) in (x, e, ground arith)

last-some : (b : ℕ) (bs : Text) → (x : ℕ) × (last (b ∷ bs) ≡ some x)
last-some b [] = (b, refl)
last-some b (c ∷ bs) = last-some c bs

window-ok :
    (offset : ℕ) (digest : Text)
    → offset + 4 ≤ length digest
    → (v : ℕ) × (window offset digest ≡ ok v) × (v < 2 ^ 31)
unfolding window
window-ok zero [] h = absurd (omega arith)
window-ok zero (a ∷ []) h = absurd (omega arith)
window-ok zero (a ∷ b ∷ []) h = absurd (omega arith)
window-ok zero (a ∷ b ∷ c ∷ []) h = absurd (omega arith)
window-ok zero (a ∷ b ∷ c ∷ d ∷ r) h = (_, refl, omega arith)
window-ok (suc k) [] h = absurd (omega arith)
window-ok (suc k) (a ∷ r) h = window-ok k r (omega arith)

-- The window that the last byte names is within a digest of twenty bytes or more.
pub truncated-ok :
    (digest : Text) → 20 ≤ length digest → (v : ℕ) × (truncated digest ≡ ok v) × (v < 2 ^ 31)
unfolding truncated
truncated-ok [] h = absurd (omega arith)
truncated-ok (b ∷ bs) h =
    let (final, e) = last-some b bs in
    let (v, at, small) = window-ok (final % 16) (b ∷ bs) (omega arith) in
    (v, rw (e, at) refl, small)

steam_code-ok :
    (n value : ℕ)
    → (t : Text) × (steam_code n value ≡ ok t) × (length t ≡ n) × (all (code_char true) t ≡ true)
unfolding steam_code
steam_code-ok zero value = ([], refl, omega arith, refl)
steam_code-ok (suc n) value =
    let (c, e, within) = get_elem?-some steam_alphabet (value % 26) (omega arith) in
    let (t, at, count, chars) = steam_code-ok n (value / 26) in
    (c ∷ t, rw (e, at) refl, omega (arith, count), &&-intro within chars)

-- A code in range is formatted, with its digits and characters.
pub format_code-ok :
    (c : TotpConfig) (code : ℕ)
    → IsInRange c
    → (t : Text) × (format_code c code ≡ ok t)
      × (length t ≡ c.digits)
      × (all (code_char c.steam) t ≡ true)
unfolding format_code
format_code-ok c code r = elim (Bool-cases c.steam) [
  | inl e ↦
      let (t, at, count, chars) = steam_code-ok 5 code in
      rw e (t, at, count ∙ sym (r.steam_digits e), chars)
  | inr e ↦
      let (t, at, count, _, chars) = decimal_code-digits c.digits code r.digits_from r.digits_to in
      rw e (t, at, count, chars)
]

module _ ⦃m : Mac⦄ where
  long_digest : (a : Algorithm) (d : Text) → length d ≡ digest_length a → 20 ≤ length d
  long_digest Algorithm.sha1 d e = omega arith
  long_digest Algorithm.sha256 d e = omega arith
  long_digest Algorithm.sha512 d e = omega arith

  generate_config-ok :
      (c : TotpConfig) (timestamp : ℕ)
      → IsMac m
      → IsInRange c
      → (t : Text) × (generate_config c timestamp ≡ ok t)
        × (length t ≡ c.digits)
        × (all (code_char c.steam) t ≡ true)
  unfolding generate_config
  generate_config-ok c timestamp mac r =
      let (d, e, size) = mac.accepts c.algorithm c.secret (u64_bytes (timestamp / c.period)) in
      let (v, at, _) = truncated-ok d (long_digest c.algorithm d size) in
      let (t, formatted, count, chars) = format_code-ok c v r in
      (t, rw (lt→ltb 0 c.period r.period_from, e, at, formatted) refl, count, chars)

  -- With an HMAC, a seed that parses has a code at every time, never an error: as many characters as
  -- its configuration has digits, which are decimal digits, or of Steam's alphabet for its seeds.
  pub generate-ok :
      (seed : Text) (timestamp : ℕ) {c : TotpConfig}
      → IsMac m
      → parse seed ≡ ok c
      → (t : Text) × (generate seed timestamp ≡ ok t)
        × (length t ≡ c.digits)
        × (all (code_char c.steam) t ≡ true)
  unfolding generate
  generate-ok seed timestamp {c} mac e =
      let (t, at, count, chars) = generate_config-ok c timestamp mac (parse-IsInRange seed e) in
      (t, rw (e, at) refl, count, chars)
