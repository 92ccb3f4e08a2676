-- ===== src/Base/Int.antt =====
-- Signed integers over the native numbers, with the parsing and printing of an `i64`.
use Prim.Native.Nat.{ℕ, zero, suc, ◌+◌, ◌-◌, ◌*◌, ◌/◌, ◌%◌}
use mathlib.Core.Bool.{Bool, true, false, ◌&&◌}
use mathlib.Core.Option.{Option, none, some}
use mathlib.Core.List.{List, [], ◌∷◌, ◌++◌}
use vaultwarden_cli.Base.Tests.{leb, ltb, nat_beq, if◌then◌else◌}

-- `negsuc n` is -(n + 1).
pub data ℤ : Type 0 where
  pos : ℕ → ℤ
  negsuc : ℕ → ℤ

abbrev pub leb_ℤ : ℤ → ℤ → Bool
leb_ℤ (pos a) (pos b) = leb a b
leb_ℤ (pos a) (negsuc b) = false
leb_ℤ (negsuc a) (pos b) = true
leb_ℤ (negsuc a) (negsuc b) = leb b a

-- The value of a text of digits after those read so far, or `none` at any other byte.
unfoldable pub digits_value : ℕ → List ℕ → Option ℕ
digits_value acc [] = some acc
digits_value acc (b ∷ bs) =
    let rest = digits_value (acc * 10 + (b - b'0')) bs in
    if leb b'0' b && leb b b'9' then rest else none

abbrev pub digits_nonempty : List ℕ → Option ℕ
digits_nonempty [] = none
digits_nonempty (b ∷ bs) = digits_value 0 (b ∷ bs)

abbrev pub i64_bound : ℕ
i64_bound = 9223372036854775808

abbrev pub positive_i64 : Option ℕ → Option ℤ
positive_i64 none = none
positive_i64 (some n) = if ltb n i64_bound then some (pos n) else none

abbrev pub negative_i64 : Option ℕ → Option ℤ
negative_i64 none = none
negative_i64 (some zero) = some (pos 0)
negative_i64 (some (suc n)) = if ltb n i64_bound then some (negsuc n) else none

-- `parse::<i64>()`: an optional sign, then at least one digit, within the range.
unfoldable pub parse_i64 : List ℕ → Option ℤ
unfolding digits_value
parse_i64 [] = none
parse_i64 (b ∷ bs) =
    if nat_beq b b'-'
    then negative_i64 (digits_nonempty bs)
    else (if nat_beq b b'+'
        then positive_i64 (digits_nonempty bs)
        else positive_i64 (digits_value 0 (b ∷ bs)))

-- The decimal digits of `n`, most significant first. Twenty rounds print any number below 10 ^ 20.
unfoldable pub print_digits : ℕ → ℕ → List ℕ
print_digits zero n = []
print_digits (suc fuel) n =
    let rest = print_digits fuel (n / 10) in
    if ltb n 10 then (b'0' + n) ∷ [] else rest ++ (b'0' + n % 10) ∷ []

-- `to_string()` of an `i64`.
unfoldable pub print_i64 : ℤ → List ℕ
unfolding print_digits
print_i64 (pos n) = print_digits 20 n
print_i64 (negsuc n) = b'-' ∷ print_digits 20 (suc n)
