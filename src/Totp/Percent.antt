-- ===== src/Totp/Percent.antt =====
-- `percent_decode` of src/totp.rs reads back what a percent encoder writes.
use vaultwarden_cli.Base.{
  ℕ, ◌+◌, ◌-◌, ◌/◌, ◌%◌, ◌<◌, ◌≡◌, refl, ◌∙◌, Option-cases, zero, suc, Bool, true, false, not, ◌&&◌,
  some, [], ◌∷◌, ltb, ◌==◌, nat_eq, if◌then◌else◌, Text, all, arith, Result, ok, Bool-cases, inl,
  inr, &&-true,
}
use vaultwarden_cli.Totp.Decode.{
  TotpError, hex_value, hex_digit, push_byte, percent_bytes, percent_decode, is_utf8, utf8_from,
  utf8_lead,
}

-- An encoder that leaves the bytes of a set, less the percent sign, as they are.
abbrev pub percent_digit : ℕ → ℕ
percent_digit n = if ltb n 10 then b'0' + n else b'A' + (n - 10)

abbrev pub percent_encode : (ℕ → Bool) → Text → Text
percent_encode keep [] = []
percent_encode keep (b ∷ bs) =
    let rest = percent_encode keep bs in
    if keep b && not (b == b'%')
    then b ∷ rest
    else b'%' ∷ percent_digit (b / 16) ∷ percent_digit (b % 16) ∷ rest

hex_value-percent_digit : (n : ℕ) → n < 16 → hex_value (percent_digit n) ≡ some n
unfolding hex_value
hex_value-percent_digit n h = ground arith

-- The decoder passes an unescaped byte on, and joins an escaped one.
percent_bytes-plain :
    (b : ℕ) (bs : Text)
    → (b == b'%') ≡ false
    → percent_bytes (b ∷ bs) ≡ push_byte b (percent_bytes bs)
unfolding percent_bytes push_byte
percent_bytes-plain b [] e = ground arith
percent_bytes-plain b (c ∷ []) e = ground arith
percent_bytes-plain b (c ∷ d ∷ bs) e = ground arith

percent_bytes-escape :
    (b : ℕ) (bs : Text)
    → b < 256
    → percent_bytes (b'%' ∷ percent_digit (b / 16) ∷ percent_digit (b % 16) ∷ bs)
      ≡ push_byte b (percent_bytes bs)
unfolding percent_bytes hex_digit
percent_bytes-escape b bs h =
    ground (arith, hex_value-percent_digit (b / 16), hex_value-percent_digit (b % 16))

pushed : (b : ℕ) {bs : Text} {m : Result TotpError Text} → m ≡ ok bs → push_byte b m ≡ ok (b ∷ bs)
unfolding push_byte
pushed b e = rw e refl

percent_bytes-encode :
    (keep : ℕ → Bool) (bs : Text)
    → all (λ b. ltb b 256) bs ≡ true
    → percent_bytes (percent_encode keep bs) ≡ ok bs
percent_bytes-encode keep [] h = unfold percent_bytes in refl
percent_bytes-encode keep (b ∷ bs) h =
    let later = percent_bytes-encode keep bs (&&-true (ltb b 256) _ h).1 in
    elim (Bool-cases (keep b && not (b == b'%'))) [
      | inl e ↦
          rw e (percent_bytes-plain b (percent_encode keep bs) (ground arith) ∙ pushed b later)
      | inr e ↦
          rw e (percent_bytes-escape b (percent_encode keep bs) (ground arith) ∙ pushed b later)
    ]

-- The bytes of a text that is UTF-8.
utf8_lead-bound : (b k lo hi : ℕ) → utf8_lead b ≡ some (k, lo, hi) → (b < 256) × (hi < 256)
utf8_lead-bound b k lo hi e = ground arith

utf8_from-bytes :
    (k lo hi : ℕ) (bs : Text)
    → hi < 256
    → utf8_from k lo hi bs ≡ true
    → all (λ b. ltb b 256) bs ≡ true
utf8_from-bytes k lo hi [] h e = refl
utf8_from-bytes (suc k) lo hi (b ∷ bs) h e =
    ground (arith, utf8_from-bytes k 0x80 0xbf bs (omega arith))
utf8_from-bytes zero lo hi (b ∷ bs) h e = elim (Option-cases (utf8_lead b)) [
  | inl none_at ↦ ground arith
  | inr ((k, lo', hi'), at) ↦
      ground (arith, utf8_lead-bound b k lo' hi' at, utf8_from-bytes k lo' hi' bs)
]

-- Whichever bytes an encoder leaves as they are, what it makes of a UTF-8 text decodes to that text.
pub percent_decode-encode :
    (keep : ℕ → Bool) (value : Text)
    → is_utf8 value ≡ true
    → percent_decode (percent_encode keep value) ≡ ok value
unfolding percent_decode is_utf8
percent_decode-encode keep value h =
    rw (percent_bytes-encode keep value (utf8_from-bytes 0 0 0 value (omega arith) h), h) refl
