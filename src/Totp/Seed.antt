-- ===== src/Totp/Seed.antt =====
-- The seeds of src/totp.rs: `parse` of a bare secret, of a steam:// seed and of an otpauth:// URI.
use vaultwarden_cli.Base.{
  ℕ, Bool, true, false, ◌&&◌, Option, none, some, List, [], ◌∷◌, map, ltb, ◌==◌, nat_eq, text_eq,
  if◌then◌else◌, Text, codes, take, drop, length, leb, Result, ok, ◌>>=◌, ◌>>◌, guard, ok_or,
  unwrap_or,
}
use vaultwarden_cli.Strings.{split, to_lower}
use vaultwarden_cli.Totp.Decode.{
  TotpError, to_upper, eq_ignore_ascii_case, trim, parse_unsigned, percent_decode, decode_base32,
}

pub data Algorithm : Type 0 where
  sha1 sha256 sha512 : Algorithm

pub record TotpConfig : Type 0 where
  pub secret : Text
  pub algorithm : Algorithm
  pub digits : ℕ
  pub period : ℕ
  pub steam : Bool

-- What the loop over the parameters has read so far.
pub record Parameters : Type 0 where
  pub secret : Option Text
  pub algorithm : Algorithm
  pub digits : ℕ
  pub period : ℕ

-- `split_once` of one byte.
abbrev pub split_once : ℕ → Text → Option (Text × Text)
split_once s [] = none
split_once s (b ∷ bs) =
    let rest = split_once s bs in
    if b == s
    then some ([], bs)
    else elim rest [ none ↦ none | some (before, after) ↦ some (b ∷ before, after) ]

-- `get(..n)` of a seed, tested against a prefix of ASCII.
pub has_prefix : Text → Text → Bool
has_prefix p seed = leb (length p) (length seed) && eq_ignore_ascii_case (take (length p) seed) p

read_algorithm : Text → Algorithm
read_algorithm value =
    let upper = map to_upper value in
    if upper == codes "SHA256"
    then Algorithm.sha256
    else (if upper == codes "SHA512" then Algorithm.sha512 else Algorithm.sha1)

unfoldable pub read_digits : Text → ℕ
read_digits value = elim (parse_unsigned 32 (trim value)) [
  | none ↦ 6
  | some parsed ↦ if ltb 10 parsed then 10 else (if ltb 0 parsed then parsed else 6)
]

unfoldable pub read_period : Text → ℕ
read_period value = elim (parse_unsigned 64 (trim value)) [
  | none ↦ 30
  | some parsed ↦ if ltb 0 parsed then parsed else 30
]

-- One parameter, by its decoded name; the last of a name counts.
unfoldable pub read_named : Parameters → Text → Text → Result TotpError Parameters
unfolding read_algorithm read_digits read_period
read_named p name value =
    if name == codes "secret"
    then (decode_base32 (trim value) >>= λ s. ok (record p { secret = some s }))
    else (if name == codes "algorithm"
        then ok (record p { algorithm = read_algorithm value })
        else (if name == codes "digits"
            then ok (record p { digits = read_digits value })
            else (if name == codes "period"
                then ok (record p { period = read_period value })
                else ok p)))

unfoldable pub read_parameter : Parameters → Text → Result TotpError Parameters
unfolding read_named
read_parameter p parameter =
    let raw = unwrap_or (parameter, []) (split_once b'=' parameter) in
    do
      name ← percent_decode raw.0
      value ← percent_decode raw.1
      read_named p (map to_lower name) value

unfoldable pub read_parameters : Parameters → List Text → Result TotpError Parameters
unfolding read_parameter
read_parameters p [] = ok p
read_parameters p (q ∷ qs) = read_parameter p q >>= λ next. read_parameters next qs

-- The first part of a `split`.
first_part : Text → Text
first_part path = elim (split b'/' path) [ [] ↦ [] | p ∷ ps ↦ p ]

abbrev pub defaults : Parameters
defaults = record { secret = none; algorithm = Algorithm.sha1; digits = 6; period = 30 }

unfoldable pub finish_config : Parameters → Result TotpError TotpConfig
finish_config p = do
  secret ← ok_or p.secret TotpError.no_secret
  ok (record {
    secret = secret;
    algorithm = p.algorithm;
    digits = p.digits;
    period = p.period;
    steam = false;
  })

unfoldable pub parse_otpauth : Text → Result TotpError TotpConfig
unfolding first_part read_parameters finish_config
parse_otpauth uri = do
  guard (leb 10 (length uri)) TotpError.invalid_uri
  parts ← ok_or (split_once b'?' (drop 10 uri)) TotpError.no_parameters
  guard (eq_ignore_ascii_case (first_part parts.0) (codes "totp")) TotpError.not_totp
  p ← read_parameters defaults (split b'&' parts.1)
  finish_config p

-- A seed that is a secret alone, for ordinary codes and for Steam's.
unfoldable pub plain_config : Bool → ℕ → Text → Result TotpError TotpConfig
plain_config steam digits value = do
  secret ← decode_base32 value
  ok (record {
    secret = secret;
    algorithm = Algorithm.sha1;
    digits = digits;
    period = 30;
    steam = steam;
  })

unfoldable pub parse : Text → Result TotpError TotpConfig
unfolding has_prefix parse_otpauth plain_config
parse untrimmed =
    let seed = trim untrimmed in
    if has_prefix (codes "otpauth://") seed
    then parse_otpauth seed
    else (if has_prefix (codes "steam://") seed
        then plain_config true 5 (drop 8 seed)
        else plain_config false 6 seed)
