-- ===== src/Totp/Base32.antt =====
-- The loop of `decode_base32` in src/totp.rs against the number that its digits spell.
use vaultwarden_cli.Base.{
  ℕ, zero, suc, ◌+◌, ◌*◌, ◌/◌, ◌%◌, ◌^◌, ◌≤◌, ◌<◌, ◌≡◌, ◌⊎◌, refl, sym, ap, subst, ◌∙◌, none, some,
  List, [], ◌∷◌, Text, length, arith, filter_map, ok, err, is_empty, if◌then◌else◌, Option-cases,
  inl, inr,
}
use native.Mathlib.Nat.{
  pow-le-pow_right, div-add-mod', div-eq_of_lt-le, div-lt_iff_lt-mul, mod-lt, one-le-pow,
}
use native.Mathlib.Numerals.{towards_suc}
use vaultwarden_cli.Totp.Decode.{base32_digit, base32_loop, decode_base32, TotpError}

-- The digits that count, and the number that they spell after `v`.
abbrev pub spelled : ℕ → List ℕ → ℕ
spelled v [] = v
spelled v (d ∷ ds) = spelled (v * 32 + d) ds

-- The number that bytes spell after `v`, most significant first.
abbrev pub big_endian : ℕ → Text → ℕ
big_endian v [] = v
big_endian v (b ∷ bs) = big_endian (v * 256 + b) bs

abbrev pub base32_digits : Text → List ℕ
base32_digits value = filter_map base32_digit value

base32_digit-lt : (b d : ℕ) → base32_digit b ≡ some d → d < 32
unfolding base32_digit
base32_digit-lt b d e = ground arith

pow_three : (k : ℕ) → 2 ^ (k + 3) ≡ 8 * 2 ^ k
pow_three k = simp towards_suc (omega arith)

pow_five : (k : ℕ) → 2 ^ (k + 5) ≡ 32 * 2 ^ k
pow_five k = simp towards_suc (omega arith)

pow_eight : (k : ℕ) → 2 ^ (k + 8) ≡ 256 * 2 ^ k
pow_eight k = simp towards_suc (omega arith)

joined : (u q r p s : ℕ) → s ≡ q * p + r → (u * 256 + q) * p + r ≡ u * (256 * p) + s
joined u q r p s e = omega arith

-- What one digit makes of the accumulator: no bit is lost to its width.
five_more : (a bits : ℕ) → bits < 8 → a < 2 ^ bits → a * 32 % 2 ^ 32 ≡ a * 32
five_more a bits hb ha = omega (arith, pow-le-pow_right {n = 2} (omega arith) (below_seven hb))
  where
    below_seven : bits < 8 → bits ≤ 7
    below_seven h = omega arith

in_range : (a bits d : ℕ) → a < 2 ^ bits → d < 32 → a * 32 + d < 2 ^ (bits + 5)
in_range a bits d ha hd = rw (pow_five bits) (omega arith)

-- The equations of the loop.
loop_skip :
    (a bits b : ℕ) (bs : Text)
    → base32_digit b ≡ none
    → base32_loop a bits (b ∷ bs) ≡ base32_loop a bits bs
unfolding base32_loop
loop_skip a bits b bs e = ground arith

loop_short :
    (a bits b d : ℕ) (bs : Text)
    → base32_digit b ≡ some d
    → a * 32 % 2 ^ 32 ≡ a * 32
    → bits < 3
    → base32_loop a bits (b ∷ bs) ≡ base32_loop (a * 32 + d) (bits + 5) bs
unfolding base32_loop
loop_short a bits b d bs e w h = ground arith

loop_byte :
    (a k b d : ℕ) (bs : Text)
    → base32_digit b ≡ some d
    → a * 32 % 2 ^ 32 ≡ a * 32
    → base32_loop a (k + 3) (b ∷ bs)
      ≡ (a * 32 + d) / 2 ^ k % 256 ∷ base32_loop ((a * 32 + d) % 2 ^ k) k bs
unfolding base32_loop
loop_byte a k b d bs e w = ground arith

digits_skip :
    (b : ℕ) (bs : Text) → base32_digit b ≡ none → base32_digits (b ∷ bs) ≡ base32_digits bs
digits_skip b bs e = ground arith

digits_more :
    (b d : ℕ) (bs : Text) → base32_digit b ≡ some d → base32_digits (b ∷ bs) ≡ d ∷ base32_digits bs
digits_more b d bs e = ground arith

-- What the loop's answer has to be, after the number `v` in `n` bits and the digits `ds`.
record Spells (u v n : ℕ) (ds : List ℕ) (out : Text) : Type 0 where
  count : length out ≡ (n + 5 * length ds) / 8
  value : big_endian u out ≡ spelled v ds / 2 ^ ((n + 5 * length ds) % 8)

spelled-same :
    (ds : List ℕ) {v w m n : ℕ} → v ≡ w → m ≡ n → spelled v ds / 2 ^ m ≡ spelled w ds / 2 ^ n
spelled-same ds p q = rw (p, q) refl

short-Spells :
    (u a bits d : ℕ) (ds : List ℕ) (out : Text)
    → Spells u (u * 2 ^ (bits + 5) + (a * 32 + d)) (bits + 5) ds out
    → Spells u (u * 2 ^ bits + a) bits (d ∷ ds) out
short-Spells u a bits d ds out s = record {
  count = omega (arith, s.count);
  value = s.value ∙ spelled-same ds same_number same_rest;
}
  where
    same_number : u * 2 ^ (bits + 5) + (a * 32 + d) ≡ (u * 2 ^ bits + a) * 32 + d
    same_number = rw (pow_five bits) (omega arith)

    same_rest : (bits + 5 + 5 * length ds) % 8 ≡ (bits + 5 * suc (length ds)) % 8
    same_rest = omega arith

byte-Spells :
    (u a k d q r : ℕ) (ds : List ℕ) (out : Text)
    → a * 32 + d ≡ q * 2 ^ k + r
    → Spells (u * 256 + q) ((u * 256 + q) * 2 ^ k + r) k ds out
    → Spells u (u * 2 ^ (k + 3) + a) (k + 3) (d ∷ ds) (q ∷ out)
byte-Spells u a k d q r ds out e s = record {
  count = omega (arith, s.count);
  value = s.value ∙ spelled-same ds same_number same_rest;
}
  where
    same_number : (u * 256 + q) * 2 ^ k + r ≡ (u * 2 ^ (k + 3) + a) * 32 + d
    same_number = rw (pow_three k) (omega arith)

    same_rest : (k + 5 * length ds) % 8 ≡ (k + 3 + 5 * suc (length ds)) % 8
    same_rest = omega arith

none-Spells : (u a bits : ℕ) → bits < 8 → a < 2 ^ bits → Spells u (u * 2 ^ bits + a) bits [] []
none-Spells u a bits hb ha = record {
  count = omega arith;
  value = sym (subst (λ n. (u * 2 ^ bits + a) / 2 ^ n ≡ u) same quotient);
}
  where
    same : bits ≡ (bits + 5 * 0) % 8
    same = omega arith

    quotient : (u * 2 ^ bits + a) / 2 ^ bits ≡ u
    quotient = div-eq_of_lt-le (2 ^ bits) (omega arith) (omega arith)

-- Below three bits a digit does not make up a byte.
split_bits : (n : ℕ) → (n < 3) ⊎ ((k : ℕ) × (n ≡ k + 3))
split_bits zero = inl (omega arith)
split_bits (suc zero) = inl (omega arith)
split_bits (suc (suc zero)) = inl (omega arith)
split_bits (suc (suc (suc k))) = inr (k, omega arith)

pow_pos : (k : ℕ) → 0 < 2 ^ k
pow_pos k = omega (arith, one-le-pow k 2 (omega arith))

byte_value : (s k : ℕ) → s < 2 ^ (k + 8) → s / 2 ^ k % 256 ≡ s / 2 ^ k
byte_value s k h = omega (
  arith,
  (div-lt_iff_lt-mul {k = 2 ^ k} {x = s} {y = 256} (pow_pos k)).1 (omega (arith, pow_eight k)),
)

loop_byte-Spells :
    (u a k b d : ℕ) (bs : Text)
    → k < 5
    → a < 2 ^ (k + 3)
    → base32_digit b ≡ some d
    → Spells
        (u * 256 + (a * 32 + d) / 2 ^ k)
        ((u * 256 + (a * 32 + d) / 2 ^ k) * 2 ^ k + (a * 32 + d) % 2 ^ k)
        k
        (base32_digits bs)
        (base32_loop ((a * 32 + d) % 2 ^ k) k bs)
    → Spells u
        (u * 2 ^ (k + 3) + a)
        (k + 3)
        (base32_digits (b ∷ bs))
        (base32_loop a (k + 3) (b ∷ bs))
loop_byte-Spells u a k b d bs hk ha e s =
    let wide : a * 32 + d < 2 ^ (k + 8) = omega (
      arith,
      in_range a (k + 3) d ha (base32_digit-lt b d e),
      pow_five (k + 3),
      pow_three k,
      pow_eight k,
    ) in
    rw
      (
        digits_more b d bs e,
        loop_byte a k b d bs e (five_more a (k + 3) (omega arith) ha),
        byte_value (a * 32 + d) k wide,
      )
      (byte-Spells u a k d ((a * 32 + d) / 2 ^ k) ((a * 32 + d) % 2 ^ k) (base32_digits bs) _
        (sym (div-add-mod' (a * 32 + d) (2 ^ k))) s)

base32_loop-Spells :
    (u a bits : ℕ) (bs : Text)
    → bits < 8
    → a < 2 ^ bits
    → Spells u (u * 2 ^ bits + a) bits (base32_digits bs) (base32_loop a bits bs)
unfolding base32_loop
base32_loop-Spells u a bits [] hb ha = none-Spells u a bits hb ha
base32_loop-Spells u a bits (b ∷ bs) hb ha = elim (Option-cases (base32_digit b)) [
  | inl e ↦ rw (loop_skip a bits b bs e, digits_skip b bs e) (base32_loop-Spells u a bits bs hb ha)
  | inr (d, e) ↦ elim (split_bits bits) [
    | inl short ↦
        rw (digits_more b d bs e, loop_short a bits b d bs e (five_more a bits hb ha) short)
          (short-Spells u a bits d (base32_digits bs) _ (
            base32_loop-Spells u (a * 32 + d) (bits + 5) bs (omega arith)
              (in_range a bits d ha (base32_digit-lt b d e))))
    | inr (k, q) ↦
        subst (λ n. Spells u (u * 2 ^ n + a) n (base32_digits (b ∷ bs)) (base32_loop a n (b ∷ bs)))
          (sym q)
          (loop_byte-Spells u a k b d bs (omega arith) (subst (λ n. a < 2 ^ n) q ha) e (
            base32_loop-Spells (u * 256 + (a * 32 + d) / 2 ^ k) ((a * 32 + d) % 2 ^ k) k bs
              (omega arith) (mod-lt (a * 32 + d) (pow_pos k))))
  ]
]

nonempty :
    (out : Text) {secret : Text}
    → (if is_empty out then err TotpError.invalid_base32 else ok out) ≡ ok secret
    → (out ≡ secret) × (1 ≤ length secret)
nonempty [] e = cc
nonempty (b ∷ bs) e = (cc, ground arith)

from_zero : (n : ℕ) → 0 + n ≡ n
from_zero n = omega arith

-- A secret that decodes has one byte for every eight bits of its digits, at least one, and its bytes
-- spell the number that the digits spell, without the last bits that make up no byte.
pub decode_base32-digits :
    (value : Text) {secret : Text}
    → decode_base32 value ≡ ok secret
    → (length secret ≡ 5 * length (base32_digits value) / 8)
      × (big_endian 0 secret
          ≡ spelled 0 (base32_digits value) / 2 ^ (5 * length (base32_digits value) % 8))
      × (1 ≤ length secret)
unfolding decode_base32
decode_base32-digits value {secret} e =
    let s = base32_loop-Spells 0 0 0 value (omega arith) (omega arith) in
    let (same, some_byte) = nonempty (base32_loop 0 0 value) e in
    (
      subst (λ out. length out ≡ (0 + 5 * length (base32_digits value)) / 8) same s.count
          ∙ ap (λ n. n / 8) (from_zero (5 * length (base32_digits value))),
      subst
            (λ out.
              big_endian 0 out
              ≡ spelled (0 * 2 ^ 0 + 0) (base32_digits value)
                / 2 ^ ((0 + 5 * length (base32_digits value)) % 8))
            same s.value
          ∙ spelled-same (base32_digits value) {v = 0 * 2 ^ 0 + 0} {w = 0} (omega arith)
              (ap (λ n. n % 8) (from_zero (5 * length (base32_digits value)))),
      some_byte,
    )
