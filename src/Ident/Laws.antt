-- ===== src/Ident/Laws.antt =====
-- The digests that the provider computes are the digests that its records accept.
use vaultwarden_cli.Base.{
  ℕ, ◌/◌, ◌%◌, ◌<◌, ◌*◌, ◌≡◌, refl, true, [], ◌∷◌, nat_eq, Text, all, length, arith,
}
use vaultwarden_cli.Strings.{is_hex}
use vaultwarden_cli.Host.{Host}
use vaultwarden_cli.Ident.{hex_digit, hex_bytes, hex_sha256, valid_sha256}

abbrev pub AreBytes : Text → Type 0
AreBytes [] = Unit {0}
AreBytes (b ∷ bs) = (b < 256) × AreBytes bs

hex_digit-is_hex : (n : ℕ) → n < 16 → is_hex (hex_digit n) ≡ true
unfolding hex_digit
hex_digit-is_hex n h = ground arith

length-hex_bytes : (bs : Text) → length (hex_bytes bs) ≡ 2 * length bs
unfolding hex_bytes
length-hex_bytes [] = refl
length-hex_bytes (b ∷ bs) = omega (arith, length-hex_bytes bs)

all-hex_bytes : (bs : Text) → AreBytes bs → all is_hex (hex_bytes bs) ≡ true
unfolding hex_bytes
all-hex_bytes [] h = refl
all-hex_bytes (b ∷ bs) h =
    ground (arith, hex_digit-is_hex (b / 16), hex_digit-is_hex (b % 16), all-hex_bytes bs h.1)

-- A digest of 32 bytes, printed by `hex_sha256`, is one that `valid_sha256` accepts.
pub hex_sha256-valid :
    ⦃h : Host⦄ (t : Text)
    → length (h.sha256 t) ≡ 32
    → AreBytes (h.sha256 t)
    → valid_sha256 (hex_sha256 t) ≡ true
unfolding hex_sha256 valid_sha256
hex_sha256-valid ⦃h⦄ t len bytes =
    ground (arith, length-hex_bytes (h.sha256 t), all-hex_bytes (h.sha256 t) bytes)
