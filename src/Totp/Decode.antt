-- ===== src/Totp/Decode.antt =====
-- The text methods that src/totp.rs calls, on UTF-8 bytes: `trim`, `from_utf8`, ASCII case, and the
-- unsigned integers; and its decoders `percent_decode`, `hex_value` and `decode_base32`.
use vaultwarden_cli.Base.{
  ℕ, zero, suc, ◌+◌, ◌-◌, ◌*◌, ◌/◌, ◌%◌, ◌^◌, Bool, true, false, ◌&&◌, ◌||◌, Option, none, some, [],
  ◌∷◌, map, ltb, leb, ◌==◌, nat_eq, text_eq, if◌then◌else◌, Text, is_empty, Result, ok, err, ◌>>=◌,
  ok_or, digits_nonempty,
}
use vaultwarden_cli.Strings.{is_lower, is_digit, to_lower}

-- The messages of the source's errors; `panics` is an index out of range.
pub data TotpError : Type 0 where
  invalid_uri no_parameters not_totp invalid_percent not_utf8 : TotpError
  invalid_base32 no_secret zero_period invalid_secret digits_too_large panics : TotpError

abbrev pub to_upper : ℕ → ℕ
to_upper b = if is_lower b then b - 32 else b

abbrev pub eq_ignore_ascii_case : Text → Text → Bool
eq_ignore_ascii_case a b = map to_lower a == map to_lower b

-- The bytes of the white space character that a text begins with, or 0.
abbrev space_width : Text → ℕ
space_width [] = 0
space_width (b ∷ []) = if b == 0x20 || (leb 9 b && leb b 13) then 1 else 0
space_width (b ∷ c ∷ []) =
    if b == 0x20 || (leb 9 b && leb b 13)
    then 1
    else (if b == 0xc2 && (c == 0x85 || c == 0xa0) then 2 else 0)
space_width (b ∷ c ∷ d ∷ r) =
    if b == 0x20 || (leb 9 b && leb b 13)
    then 1
    else (if b == 0xc2 && (c == 0x85 || c == 0xa0)
        then 2
        else (if (b == 0xe1 && c == 0x9a && d == 0x80)
              || (b == 0xe2 && c == 0x80 && (leb d 0x8a || d == 0xa8 || d == 0xa9 || d == 0xaf))
              || (b == 0xe2 && c == 0x81 && d == 0x9f)
              || (b == 0xe3 && c == 0x80 && d == 0x80)
            then 3
            else 0))

-- `trim_start`, with the bytes left of the white space character being passed.
trim_from : ℕ → Text → Text
trim_from k [] = []
trim_from (suc k) (b ∷ bs) = trim_from k bs
trim_from zero (b ∷ bs) = elim (space_width (b ∷ bs)) [ zero ↦ b ∷ bs | suc k ↦ trim_from k bs ]

-- No byte within a character begins a white space character, so every suffix may be tested.
trim_tail : Text → Text
unfolding trim_from
trim_tail [] = []
trim_tail (b ∷ bs) =
    let rest = trim_tail bs in if is_empty (trim_from 0 (b ∷ bs)) then [] else b ∷ rest

unfoldable pub trim : Text → Text
unfolding trim_from trim_tail
trim bs = trim_tail (trim_from 0 bs)

-- What a leading byte asks of the bytes after it: their number, and the range of the first.
abbrev pub utf8_lead : ℕ → Option (ℕ × ℕ × ℕ)
utf8_lead b =
    if ltb b 0x80
    then some (0, 0, 0)
    else (if leb 0xc2 b && leb b 0xdf
        then some (1, 0x80, 0xbf)
        else (if leb 0xe0 b && leb b 0xef
            then some (2, if b == 0xe0 then 0xa0 else 0x80, if b == 0xed then 0x9f else 0xbf)
            else (if leb 0xf0 b && leb b 0xf4
                then some (3, if b == 0xf0 then 0x90 else 0x80, if b == 0xf4 then 0x8f else 0xbf)
                else none)))

-- `String::from_utf8`: the continuation bytes still due, and the range of the next.
abbrev pub utf8_from : ℕ → ℕ → ℕ → Text → Bool
utf8_from zero lo hi [] = true
utf8_from (suc k) lo hi [] = false
utf8_from (suc k) lo hi (b ∷ bs) = leb lo b && leb b hi && utf8_from k 0x80 0xbf bs
utf8_from zero lo hi (b ∷ bs) = elim (utf8_lead b) [
  | none ↦ false
  | some (k, lo', hi') ↦ utf8_from k lo' hi' bs
]

unfoldable pub is_utf8 : Text → Bool
is_utf8 bs = utf8_from 0 0 0 bs

-- `parse` of an unsigned integer of `width` bits, with an optional plus sign.
unfoldable pub parse_unsigned : ℕ → Text → Option ℕ
parse_unsigned width [] = none
parse_unsigned width (b ∷ bs) =
    elim (if b == b'+' then digits_nonempty bs else digits_nonempty (b ∷ bs)) [
      | none ↦ none
      | some n ↦ if ltb n (2 ^ width) then some n else none
    ]

unfoldable pub hex_value : ℕ → Option ℕ
hex_value b =
    if is_digit b
    then some (b - b'0')
    else (if leb b'a' b && leb b b'f'
        then some (b - b'a' + 10)
        else (if leb b'A' b && leb b b'F' then some (b - b'A' + 10) else none))

unfoldable pub hex_digit : ℕ → Result TotpError ℕ
unfolding hex_value
hex_digit b = ok_or (hex_value b) TotpError.invalid_percent

unfoldable pub push_byte : ℕ → Result TotpError Text → Result TotpError Text
push_byte b (ok bs) = ok (b ∷ bs)
push_byte b (err e) = err e

-- The loop of `percent_decode`: `(high << 4) | low` has no bits in common.
unfoldable pub percent_bytes : Text → Result TotpError Text
unfolding hex_digit push_byte
percent_bytes [] = ok []
percent_bytes (b ∷ []) = if b == b'%' then err TotpError.invalid_percent else ok (b ∷ [])
percent_bytes (b ∷ c ∷ []) =
    if b == b'%' then err TotpError.invalid_percent else push_byte b (percent_bytes (c ∷ []))
percent_bytes (b ∷ c ∷ d ∷ r) = elim (b == b'%') [
  | true ↦ do
    high ← hex_digit c
    low ← hex_digit d
    push_byte (high * 16 % 256 + low) (percent_bytes r)
  | false ↦ push_byte b (percent_bytes (c ∷ d ∷ r))
]

unfoldable pub percent_decode : Text → Result TotpError Text
unfolding percent_bytes
percent_decode value = do
  decoded ← percent_bytes value
  if is_utf8 decoded then ok decoded else err TotpError.not_utf8

-- The value of a letter or of a digit of the base 32 alphabet; other bytes are passed over.
unfoldable pub base32_digit : ℕ → Option ℕ
base32_digit b =
    let upper = to_upper b in
    if leb b'A' upper && leb upper b'Z'
    then some (upper - b'A')
    else (if leb b'2' upper && leb upper b'7' then some (upper - b'2' + 26) else none)

-- The loop of `decode_base32` from an accumulator and its number of bits, both `u32`.
-- `(accumulator << 5) | digit` has no bits in common, and the mask keeps `bits` bits.
unfoldable pub base32_loop : ℕ → ℕ → Text → Text
base32_loop accumulator bits [] = []
base32_loop accumulator bits (b ∷ bs) = elim (base32_digit b) [
  | none ↦ base32_loop accumulator bits bs
  | some digit ↦
      let shifted = accumulator * 32 % 2 ^ 32 + digit in
      elim (leb 8 (bits + 5)) [
        | true ↦
            shifted / 2 ^ (bits + 5 - 8) % 256
            ∷ base32_loop (shifted % 2 ^ (bits + 5 - 8)) (bits + 5 - 8) bs
        | false ↦ base32_loop shifted (bits + 5) bs
      ]
]

unfoldable pub decode_base32 : Text → Result TotpError Text
unfolding base32_loop
decode_base32 value =
    let output = base32_loop 0 0 value in
    if is_empty output then err TotpError.invalid_base32 else ok output
