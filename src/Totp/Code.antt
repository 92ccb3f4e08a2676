-- ===== src/Totp/Code.antt =====
-- The derivation of a code in src/totp.rs: `generate` and `generate_config`.
use vaultwarden_cli.Base.{
  ℕ, zero, suc, ◌+◌, ◌-◌, ◌*◌, ◌/◌, ◌%◌, ◌^◌, ◌≡◌, Option, some, [], ◌∷◌, ◌++◌, ltb, nat_eq,
  if◌then◌else◌, Text, codes, drop, length, last, get_elem?, Result, ok, err, ◌>>=◌, ◌>>◌, guard,
  ok_or, print_digits,
}
use vaultwarden_cli.Protocol.Framing.{u64_bytes}
use vaultwarden_cli.Totp.Decode.{TotpError}
use vaultwarden_cli.Totp.Seed.{Algorithm, TotpConfig, parse}

-- The HMAC of a key and a message; `none` where the key has a length that it refuses.
pub record Mac : Type 0 where
  pub digest : Algorithm → Text → Text → Option Text

-- The bytes of a digest of each algorithm.
abbrev pub digest_length : Algorithm → ℕ
digest_length Algorithm.sha1 = 20
digest_length Algorithm.sha256 = 32
digest_length Algorithm.sha512 = 64

-- An HMAC takes a key of any length and has digests of the length of its hash.
pub record IsMac (m : Mac) : Type 0 where
  pub accepts :
      (a : Algorithm) (key message : Text)
      → (d : Text) × (m.digest a key message ≡ some d) × (length d ≡ digest_length a)

abbrev pub steam_alphabet : Text
steam_alphabet = codes "23456789BCDFGHJKMNPQRTVWXY"

-- `u32::from_be_bytes` of the four bytes from an offset, without the top bit.
unfoldable pub window : ℕ → Text → Result TotpError ℕ
window offset digest = elim (drop offset digest) [
  | a ∷ b ∷ c ∷ d ∷ r ↦ ok ((a * 2 ^ 24 + b * 2 ^ 16 + c * 2 ^ 8 + d) % 2 ^ 31)
  | _ ↦ err TotpError.panics
]

unfoldable pub truncated : Text → Result TotpError ℕ
unfolding window
truncated digest = do final ← ok_or (last digest) TotpError.panics; window (final % 16) digest

-- The loop of a Steam code; an index out of the alphabet would panic.
unfoldable pub steam_code : ℕ → ℕ → Result TotpError Text
steam_code zero value = ok []
steam_code (suc n) value = do
  char ← ok_or (get_elem? steam_alphabet (value % length steam_alphabet)) TotpError.panics
  rest ← steam_code n (value / length steam_alphabet)
  ok (char ∷ rest)

abbrev pub zeros : ℕ → Text
zeros zero = []
zeros (suc n) = b'0' ∷ zeros n

-- `format!("{:0width$}", n)` of a `u64`.
unfoldable pub padded : ℕ → ℕ → Text
unfolding print_digits
padded width n = let printed = print_digits 20 n in zeros (width - length printed) ++ printed

unfoldable pub decimal_code : ℕ → ℕ → Result TotpError Text
unfolding padded
decimal_code digits code = do
  guard (ltb (10 ^ digits) (2 ^ 64)) TotpError.digits_too_large
  ok (padded digits (code % 10 ^ digits))

unfoldable pub format_code : TotpConfig → ℕ → Result TotpError Text
unfolding steam_code decimal_code
format_code config code =
    if config.steam then steam_code 5 code else decimal_code config.digits code

module _ ⦃m : Mac⦄ where
  unfoldable pub generate_config : TotpConfig → ℕ → Result TotpError Text
  unfolding u64_bytes truncated format_code
  generate_config config timestamp = do
    guard (ltb 0 config.period) TotpError.zero_period
    digest ←
        ok_or (m.digest config.algorithm config.secret (u64_bytes (timestamp / config.period)))
          TotpError.invalid_secret
    code ← truncated digest
    format_code config code

  unfoldable pub generate : Text → ℕ → Result TotpError Text
  unfolding generate_config
  generate seed timestamp = do config ← parse seed; generate_config config timestamp
