-- ===== src/Strings.antt =====
-- The methods of Rust's `str` that the source calls, on the bytes of a text.
use vaultwarden_cli.Base.{
  ℕ, ◌+◌, Bool, true, false, ◌&&◌, ◌||◌, Option, none, some, List, [], ◌∷◌, ltb, leb, ◌==◌, nat_eq,
  if◌then◌else◌, Text, is_empty, last,
}

abbrev pub is_lower : ℕ → Bool
is_lower b = leb b'a' b && leb b b'z'

abbrev pub is_upper : ℕ → Bool
is_upper b = leb b'A' b && leb b b'Z'

abbrev pub is_digit : ℕ → Bool
is_digit b = leb b'0' b && leb b b'9'

abbrev pub is_alphanumeric : ℕ → Bool
is_alphanumeric b = is_digit b || is_lower b || is_upper b

abbrev pub is_graphic : ℕ → Bool
is_graphic b = leb 0x21 b && leb b 0x7e

-- A lowercase hexadecimal digit.
abbrev pub is_hex : ℕ → Bool
is_hex b = is_digit b || (leb b'a' b && leb b b'f')

abbrev pub is_hexdigit : ℕ → Bool
is_hexdigit b = is_hex b || (leb b'A' b && leb b b'F')

abbrev pub to_lower : ℕ → ℕ
to_lower b = if is_upper b then b + 32 else b

-- `chars().any(char::is_control)`: C0, DEL, and upper control, whose characters are 0xC2 0x80 to 0xC2 0x9F.
abbrev c1_tail : Text → Bool
c1_tail [] = false
c1_tail (b ∷ bs) = leb 0x80 b && leb b 0x9f

abbrev pub has_control : Text → Bool
has_control [] = false
has_control (b ∷ bs) = ltb b 0x20 || b == 0x7f || (b == 0xc2 && c1_tail bs) || has_control bs

abbrev pub contains : ℕ → Text → Bool
contains x [] = false
contains x (b ∷ bs) = b == x || contains x bs

abbrev pub ends_with : ℕ → Text → Bool
ends_with x bs = elim (last bs) [ none ↦ false | some b ↦ b == x ]

abbrev pub first : Text → Option ℕ
first [] = none
first (b ∷ bs) = some b

-- `strip_prefix` and `starts_with` by a text.
abbrev pub strip_prefix : Text → Text → Option Text
strip_prefix [] bs = some bs
strip_prefix (p ∷ ps) [] = none
strip_prefix (p ∷ ps) (b ∷ bs) = let rest = strip_prefix ps bs in if p == b then rest else none

abbrev pub starts_with : Text → Text → Bool
starts_with p bs = elim (strip_prefix p bs) [ none ↦ false | some _ ↦ true ]

-- `split` by one byte: the parts between the separators, one more than there are of these.
abbrev push_part : ℕ → List Text → List Text
push_part b [] = (b ∷ []) ∷ []
push_part b (p ∷ ps) = (b ∷ p) ∷ ps

abbrev pub split : ℕ → Text → List Text
split s [] = [] ∷ []
split s (b ∷ bs) = let rest = split s bs in if b == s then [] ∷ rest else push_part b rest

-- `trim_end_matches` of one byte.
abbrev pub trim_end : ℕ → Text → Text
trim_end s [] = []
trim_end s (b ∷ bs) = let rest = trim_end s bs in if is_empty rest && b == s then [] else b ∷ rest
