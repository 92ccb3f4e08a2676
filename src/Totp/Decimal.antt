-- ===== src/Totp/Decimal.antt =====
-- The decimal texts of src/totp.rs: `{:0width$}` prints as many digits as it is asked for, and they
-- read back as the number.
use vaultwarden_cli.Base.{
  ℕ, zero, suc, ◌+◌, ◌-◌, ◌*◌, ◌/◌, ◌%◌, ◌^◌, ◌≤◌, ◌<◌, ◌≡◌, ◌∙◌, refl, ap, true, some, [], ◌∷◌,
  ◌++◌, ltb, Text, length, length-append, all, arith, ok, digits_value, print_digits, and_then,
  Bool-cases, inl, inr, ltb→lt, lt→ltb,
}
use native.Mathlib.Nat.{pow-le-pow_right, mod-lt, pow-suc, one-le-pow, div-lt_iff_lt-mul}
use vaultwarden_cli.Strings.{is_digit}
use vaultwarden_cli.Totp.Code.{zeros, padded, decimal_code}

pub digits_value-append :
    (a : ℕ) (xs ys : Text)
    → digits_value a (xs ++ ys) ≡ and_then (digits_value a xs) (λ b. digits_value b ys)
unfolding digits_value
digits_value-append a [] ys = refl
digits_value-append a (x ∷ xs) ys = ground (arith, digits_value-append (a * 10 + (x - b'0')) xs ys)

print_digits-small : (f n : ℕ) → n < 10 → print_digits (suc f) n ≡ (b'0' + n) ∷ []
unfolding print_digits
print_digits-small f n h = ground arith

print_digits-large :
    (f n : ℕ) → 10 ≤ n → print_digits (suc f) n ≡ print_digits f (n / 10) ++ (b'0' + n % 10) ∷ []
unfolding print_digits
print_digits-large f n h = ground arith

one_digit : (a d : ℕ) → d < 10 → digits_value a ((b'0' + d) ∷ []) ≡ some (a * 10 + d)
unfolding digits_value
one_digit a d h = ground arith

ten_parts : (w n : ℕ) → n < 10 ^ suc w → n / 10 < 10 ^ w
ten_parts w n h = omega (
  arith,
  (div-lt_iff_lt-mul {k = 10} {x = n} {y = 10 ^ w} (omega arith)).1 (omega (arith, pow-suc 10 w)),
)

below_one : (n : ℕ) → n < 10 ^ 0 → some 0 ≡ some n
below_one zero h = refl
below_one (suc n) h = absurd (omega arith)

first_digit : (n : ℕ) → n < 10 → digits_value 0 ((b'0' + n) ∷ []) ≡ some n
first_digit n h = one_digit 0 n h ∙ ap some (omega arith)

last_digit : (n : ℕ) → digits_value (n / 10) ((b'0' + n % 10) ∷ []) ≡ some n
last_digit n = one_digit (n / 10) (n % 10) (omega arith) ∙ ap some (omega arith)

-- Printing reads back, for a number that the rounds are enough for.
pub digits_value-print_digits : (f n : ℕ) → n < 10 ^ f → digits_value 0 (print_digits f n) ≡ some n
digits_value-print_digits zero n h = unfold print_digits digits_value in below_one n h
digits_value-print_digits (suc f) n h = elim (Bool-cases (ltb n 10)) [
  | inl e ↦ rw (print_digits-small f n (ltb→lt n 10 e)) (first_digit n (ltb→lt n 10 e))
  | inr e ↦
      rw
        (
          print_digits-large f n (ground arith),
          digits_value-append 0 (print_digits f (n / 10)),
          digits_value-print_digits f (n / 10) (ten_parts f n h),
        )
        (last_digit n)
]

-- A number of so many digits prints in no more.
pub print_digits-length : (f w n : ℕ) → n < 10 ^ suc w → length (print_digits f n) ≤ suc w
print_digits-length zero w n h = unfold print_digits in omega arith
print_digits-length (suc f) zero n h = rw (print_digits-small f n (omega arith)) (omega arith)
print_digits-length (suc f) (suc w) n h = elim (Bool-cases (ltb n 10)) [
  | inl e ↦ rw (print_digits-small f n (ltb→lt n 10 e)) (omega arith)
  | inr e ↦
      rw (print_digits-large f n (ground arith), length-append)
        (omega (arith, print_digits-length f w (n / 10) (ten_parts (suc w) n h)))
]

length-zeros : (k : ℕ) → length (zeros k) ≡ k
length-zeros zero = omega arith
length-zeros (suc k) = omega (arith, length-zeros k)

digits_value-zeros : (k : ℕ) (t : Text) → digits_value 0 (zeros k ++ t) ≡ digits_value 0 t
unfolding digits_value
digits_value-zeros zero t = refl
digits_value-zeros (suc k) t = digits_value-zeros k t

padded-value : (w n : ℕ) → n < 10 ^ 20 → digits_value 0 (padded w n) ≡ some n
unfolding padded
padded-value w n h = digits_value-zeros _ (print_digits 20 n) ∙ digits_value-print_digits 20 n h

length-padded : (w n : ℕ) → n < 10 ^ suc w → length (padded (suc w) n) ≡ suc w
unfolding padded
length-padded w n h = rw (length-append, length-zeros) (omega (arith, print_digits-length 20 w n h))

digits_value-all : (a : ℕ) (t : Text) {n : ℕ} → digits_value a t ≡ some n → all is_digit t ≡ true
unfolding digits_value
digits_value-all a [] e = refl
digits_value-all a (b ∷ bs) {n} e =
    ground (arith, digits_value-all (a * 10 + (b - b'0')) bs {n = n})

-- A decimal code of one to ten digits has that many digits, and reads back as the remainder.
pub decimal_code-digits :
    (digits code : ℕ)
    → 1 ≤ digits
    → digits ≤ 10
    → (t : Text) × (decimal_code digits code ≡ ok t)
      × (length t ≡ digits)
      × (digits_value 0 t ≡ some (code % 10 ^ digits))
      × (all is_digit t ≡ true)
unfolding decimal_code
decimal_code-digits zero code h k = absurd (omega arith)
decimal_code-digits (suc w) code h k =
    let few : 10 ^ suc w ≤ 10 ^ 10 = pow-le-pow_right {n = 10} (omega arith) k in
    let below : code % 10 ^ suc w < 10 ^ suc w =
      mod-lt code (omega (arith, one-le-pow (suc w) 10 (omega arith))) in
    let value = padded-value (suc w) (code % 10 ^ suc w) (omega arith) in
    (
      padded (suc w) (code % 10 ^ suc w),
      rw (lt→ltb (10 ^ suc w) (2 ^ 64) (omega arith)) refl,
      length-padded w (code % 10 ^ suc w) below,
      value,
      digits_value-all 0 _ value,
    )
