-- ===== src/Totp/Bounds.antt =====
-- What `parse` of src/totp.rs leaves in a configuration: a secret, the digits and the period in range.
use vaultwarden_cli.Base.{
  ℕ, ◌^◌, ◌≤◌, ◌<◌, ◌≡◌, refl, Bool, true, false, some, List, [], ◌∷◌, ◌==◌, nat_eq, text_eq,
  if◌then◌else◌, Text, length, codes, arith, ok, ◌>>=◌, Sound, Sound-if, Sound-ok, Sound-bind,
  Sound-option, Sound-guard, subst, drop, soundness, Option-cases, inl, inr,
}
use vaultwarden_cli.Totp.Decode.{TotpError, decode_base32, parse_unsigned, trim}
use vaultwarden_cli.Totp.Seed.{
  Algorithm, TotpConfig, Parameters, read_digits, read_period, read_named, read_parameter,
  read_parameters, defaults, finish_config, parse_otpauth, plain_config, parse, has_prefix,
}
use vaultwarden_cli.Totp.Base32.{decode_base32-digits}

-- The numbers of the parameters read so far, and of a configuration.
record ParametersInRange (p : Parameters) : Type 0 where
  pub digits_from : 1 ≤ p.digits
  pub digits_to : p.digits ≤ 10
  pub period_from : 1 ≤ p.period
  pub period_to : p.period < 2 ^ 64
  pub secret_bytes : (s : Text) → p.secret ≡ some s → 1 ≤ length s

pub record IsInRange (c : TotpConfig) : Type 0 where
  pub digits_from : 1 ≤ c.digits
  pub digits_to : c.digits ≤ 10
  pub period_from : 1 ≤ c.period
  pub period_to : c.period < 2 ^ 64
  pub secret_bytes : 1 ≤ length c.secret
  pub steam_digits : c.steam ≡ true → c.digits ≡ 5

read_digits-range : (value : Text) → (1 ≤ read_digits value) × (read_digits value ≤ 10)
unfolding read_digits
read_digits-range value = ground arith

parse_unsigned-lt : (w : ℕ) (v : Text) (n : ℕ) → parse_unsigned w v ≡ some n → n < 2 ^ w
unfolding parse_unsigned
parse_unsigned-lt w [] n e = ground arith
parse_unsigned-lt w (b ∷ bs) n e = ground arith

read_period-range : (value : Text) → (1 ≤ read_period value) × (read_period value < 2 ^ 64)
unfolding read_period
read_period-range value = elim (Option-cases (parse_unsigned 64 (trim value))) [
  | inl e ↦ ground arith
  | inr (n, e) ↦ ground (arith, parse_unsigned-lt 64 (trim value) n e)
]

with_secret :
    (p : Parameters) (s : Text)
    → ParametersInRange p
    → 1 ≤ length s
    → ParametersInRange (record p { secret = some s })
with_secret p s r h = record {
  digits_from = r.digits_from;
  digits_to = r.digits_to;
  period_from = r.period_from;
  period_to = r.period_to;
  secret_bytes = λ t e. subst (λ t. 1 ≤ length t) (some-injective e) h;
}
  where
    some-injective : {t : Text} → some s ≡ some t → s ≡ t
    some-injective e = cc

with_algorithm :
    (p : Parameters) (a : Algorithm)
    → ParametersInRange p
    → ParametersInRange (record p { algorithm = a })
with_algorithm p a r = record {
  digits_from = r.digits_from;
  digits_to = r.digits_to;
  period_from = r.period_from;
  period_to = r.period_to;
  secret_bytes = r.secret_bytes;
}

with_digits :
    (p : Parameters) (n : ℕ)
    → ParametersInRange p
    → (1 ≤ n) × (n ≤ 10)
    → ParametersInRange (record p { digits = n })
with_digits p n r h = record {
  digits_from = h.0;
  digits_to = h.1;
  period_from = r.period_from;
  period_to = r.period_to;
  secret_bytes = r.secret_bytes;
}

with_period :
    (p : Parameters) (n : ℕ)
    → ParametersInRange p
    → (1 ≤ n) × (n < 2 ^ 64)
    → ParametersInRange (record p { period = n })
with_period p n r h = record {
  digits_from = r.digits_from;
  digits_to = r.digits_to;
  period_from = h.0;
  period_to = h.1;
  secret_bytes = r.secret_bytes;
}

secret_some_byte : (value : Text) {s : Text} → decode_base32 value ≡ ok s → 1 ≤ length s
secret_some_byte value e = let (_, _, h) = decode_base32-digits value e in h

read_named-InRange :
    (p : Parameters) (name value : Text)
    → ParametersInRange p
    → Sound ParametersInRange (read_named p name value)
unfolding read_named
read_named-InRange p name value r =
    Sound-if (name == codes "secret") _ _
      (λ _.
        Sound-bind (decode_base32 (trim value)) _
          (λ s e. Sound-ok _ (with_secret p s r (secret_some_byte (trim value) e))))
      (λ _.
        Sound-if (name == codes "algorithm") _ _ (λ _. Sound-ok _ (with_algorithm p _ r))
          (λ _.
            Sound-if (name == codes "digits") _ _
              (λ _. Sound-ok _ (with_digits p _ r (read_digits-range value)))
              (λ _.
                Sound-if (name == codes "period") _ _
                  (λ _. Sound-ok _ (with_period p _ r (read_period-range value)))
                  (λ _. Sound-ok p r))))

read_parameter-InRange :
    (p : Parameters) (q : Text) → ParametersInRange p → Sound ParametersInRange (read_parameter p q)
unfolding read_parameter
read_parameter-InRange p q r = search (soundness, read_named-InRange) depth 8

read_parameters-InRange :
    (p : Parameters) (qs : List Text)
    → ParametersInRange p
    → Sound ParametersInRange (read_parameters p qs)
unfolding read_parameters
read_parameters-InRange p [] r = Sound-ok p r
read_parameters-InRange p (q ∷ qs) r =
    Sound-bind (read_parameter p q) _
      (λ next e. read_parameters-InRange next qs ((read_parameter-InRange p q r).holds next e))

defaults-InRange : ParametersInRange defaults
defaults-InRange = record {
  digits_from = omega arith;
  digits_to = omega arith;
  period_from = omega arith;
  period_to = omega arith;
  secret_bytes = λ s e. cc;
}

finish_config-InRange : (p : Parameters) → ParametersInRange p → Sound IsInRange (finish_config p)
unfolding finish_config
finish_config-InRange p r = Sound-option p.secret TotpError.no_secret _ (λ s e. Sound-ok _ (record {
  digits_from = r.digits_from;
  digits_to = r.digits_to;
  period_from = r.period_from;
  period_to = r.period_to;
  secret_bytes = r.secret_bytes s e;
  steam_digits = λ e. cc;
}))

finished-InRange :
    (qs : List Text) → Sound IsInRange (read_parameters defaults qs >>= λ p. finish_config p)
finished-InRange qs = Sound-bind (read_parameters defaults qs) _ (λ p e.
    finish_config-InRange p ((read_parameters-InRange defaults qs defaults-InRange).holds p e))

parse_otpauth-InRange : (uri : Text) → Sound IsInRange (parse_otpauth uri)
unfolding parse_otpauth
parse_otpauth-InRange uri = search (Sound-guard, Sound-option, finished-InRange) depth 8

plain_config-InRange :
    (steam : Bool) (n : ℕ) (value : Text)
    → (1 ≤ n) × (n ≤ 10)
    → (steam ≡ true → n ≡ 5)
    → Sound IsInRange (plain_config steam n value)
unfolding plain_config
plain_config-InRange steam n value h five = Sound-bind (decode_base32 value) _ (λ s e.
    Sound-ok _ (record {
      digits_from = h.0;
      digits_to = h.1;
      period_from = omega arith;
      period_to = omega arith;
      secret_bytes = secret_some_byte value e;
      steam_digits = five;
    }))

-- A seed that parses has a secret, from one to ten digits, and a period of at least a second that a
-- u64 holds; Steam's has five digits.
pub parse-IsInRange : (seed : Text) {c : TotpConfig} → parse seed ≡ ok c → IsInRange c
unfolding parse
parse-IsInRange seed {c} e = (sound (trim seed)).holds c e
  where
    sound :
        (s : Text)
        → Sound IsInRange (
            if has_prefix (codes "otpauth://") s
            then parse_otpauth s
            else (if has_prefix (codes "steam://") s
                then plain_config true 5 (drop 8 s)
                else plain_config false 6 s))
    sound s =
        Sound-if (has_prefix (codes "otpauth://") s) _ _ (λ _. parse_otpauth-InRange s)
          (λ _.
            Sound-if (has_prefix (codes "steam://") s) _ _
              (λ _. plain_config-InRange true 5 (drop 8 s) (omega arith) (λ _. refl))
              (λ _. plain_config-InRange false 6 s (omega arith) (λ e. cc)))
