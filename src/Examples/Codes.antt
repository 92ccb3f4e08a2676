-- ===== src/Examples/Codes.antt =====
-- One-time passwords at concrete seeds.
use vaultwarden_cli.Base.{
  ℕ, zero, suc, ◌/◌, ◌%◌, ◌^◌, ◌≡◌, refl, true, false, some, [], ◌∷◌, Text, length, all, codes,
  arith, ok, digits_value, ◌*◌, ◌≤◌, Text-discrete, ℕ_discrete,
}
use mathlib.Core.Bool.{decide}
use vaultwarden_cli.Strings.{is_digit, is_alphanumeric}
use vaultwarden_cli.Totp.Decode.{
  trim, percent_decode, decode_base32, base32_loop, base32_digit, is_utf8, parse_unsigned,
  percent_bytes, hex_digit, hex_value, push_byte,
}
use vaultwarden_cli.Totp.Seed.{
  Algorithm, TotpConfig, parse, parse_otpauth, plain_config, read_parameters, read_parameter,
  read_named, read_digits, read_period, finish_config,
}
use vaultwarden_cli.Totp.Code.{Mac, IsMac, digest_length, generate, decimal_code}
use vaultwarden_cli.Totp.Base32.{decode_base32-digits, base32_digits, big_endian, spelled}
use vaultwarden_cli.Totp.Percent.{percent_decode-encode, percent_encode}
use vaultwarden_cli.Totp.Bounds.{IsInRange, parse-IsInRange}
use vaultwarden_cli.Totp.Decimal.{decimal_code-digits}
use vaultwarden_cli.Totp.Shape.{generate-ok, code_char}

abbrev secret_text : Text
secret_text = codes "gezd-GNBVG"

abbrev secret_bytes : Text
secret_bytes = codes "12345"

decodes : decode_base32 secret_text ≡ ok secret_bytes
unfolding decode_base32 base32_loop base32_digit
decodes = refl

decode_base32-digits_example :
    (length secret_bytes ≡ 5 * length (base32_digits secret_text) / 8)
    × (big_endian 0 secret_bytes
        ≡ spelled 0 (base32_digits secret_text) / 2 ^ (5 * length (base32_digits secret_text) % 8))
    × (1 ≤ length secret_bytes)
decode_base32-digits_example = decode_base32-digits secret_text decodes

escaped_text : is_utf8 (codes "50% & more") ≡ true
unfolding is_utf8
escaped_text = refl

percent_decode-encode_example :
    percent_decode (percent_encode is_alphanumeric (codes "50% & more")) ≡ ok (codes "50% & more")
percent_decode-encode_example =
    percent_decode-encode is_alphanumeric (codes "50% & more") escaped_text

abbrev seed : Text
seed = codes "otpauth://totp/a?secret=GEZDGNBV&digits=8&period=60&algorithm=sha256"

abbrev config : TotpConfig
config = record {
  secret = secret_bytes;
  algorithm = Algorithm.sha256;
  digits = 8;
  period = 60;
  steam = false;
}

parses : parse seed ≡ ok config
unfolding parse parse_otpauth plain_config read_parameters read_parameter read_named read_digits
    read_period finish_config decode_base32 base32_loop base32_digit percent_decode percent_bytes
    hex_digit hex_value push_byte is_utf8 parse_unsigned trim digits_value decide Text-discrete
    ℕ_discrete
parses = refl

parse-IsInRange_example : IsInRange config
parse-IsInRange_example = parse-IsInRange seed parses

decimal_code-digits_example :
    (t : Text) × (decimal_code 6 1287082 ≡ ok t)
    × (length t ≡ 6)
    × (digits_value 0 t ≡ some (1287082 % 10 ^ 6))
    × (all is_digit t ≡ true)
decimal_code-digits_example = decimal_code-digits 6 1287082 (omega arith) (omega arith)

-- A digest of the right length that does not depend on the key.
abbrev repeated : ℕ → Text
repeated zero = []
repeated (suc n) = 7 ∷ repeated n

instance abbrev toy_mac : Mac
toy_mac = record { digest = λ a key message. some (repeated (digest_length a)) }

toy_mac-IsMac : IsMac toy_mac
toy_mac-IsMac = record { accepts = λ a key message. (repeated (digest_length a), refl, sized a) }
  where
    sized : (a : Algorithm) → length (repeated (digest_length a)) ≡ digest_length a
    sized Algorithm.sha1 = refl
    sized Algorithm.sha256 = refl
    sized Algorithm.sha512 = refl

generate-ok_example :
    (t : Text) × (generate seed 90 ≡ ok t)
    × (length t ≡ config.digits)
    × (all (code_char config.steam) t ≡ true)
generate-ok_example = generate-ok seed 90 toy_mac-IsMac parses
