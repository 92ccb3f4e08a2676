-- ===== src/Protocol/Framing.antt =====
-- Length-prefixed fields: `append_field` of src/access/protocol.rs, and that what it writes can be
-- read back in one way only.
use vaultwarden_cli.Base.{
  ℕ, ◌/◌, ◌%◌, ◌^◌, ◌<◌, ◌≡◌, refl, List, [], ◌∷◌, ◌++◌, Text, length, arith,
}

-- `(n as u32).to_be_bytes()`
unfoldable pub u32_bytes : ℕ → Text
u32_bytes n = (n / 2 ^ 24 % 256) ∷ (n / 2 ^ 16 % 256) ∷ (n / 2 ^ 8 % 256) ∷ (n % 256) ∷ []

-- `to_be_bytes` of a `u64`.
unfoldable pub u64_bytes : ℕ → Text
u64_bytes n =
    (n / 2 ^ 56 % 256)
    ∷ (n / 2 ^ 48 % 256)
    ∷ (n / 2 ^ 40 % 256)
    ∷ (n / 2 ^ 32 % 256)
    ∷ (n / 2 ^ 24 % 256)
    ∷ (n / 2 ^ 16 % 256)
    ∷ (n / 2 ^ 8 % 256)
    ∷ (n % 256)
    ∷ []

-- A field before the bytes that follow it.
unfoldable pub append_field : Text → Text → Text
append_field v rest = u32_bytes (length v) ++ (v ++ rest)

unfoldable pub append_fields : List Text → Text → Text
append_fields [] rest = rest
append_fields (v ∷ vs) rest = append_field v (append_fields vs rest)

tails_equal : {a b : ℕ} {x y : Text} → a ∷ x ≡ b ∷ y → (a ≡ b) × (x ≡ y)
tails_equal h = (cc, cc)

pub u32_bytes-injective :
    (m n : ℕ) (x y : Text)
    → m < 2 ^ 32
    → n < 2 ^ 32
    → u32_bytes m ++ x ≡ u32_bytes n ++ y
    → (m ≡ n) × (x ≡ y)
unfolding u32_bytes
u32_bytes-injective m n x y hm hn e =
    let (a, e1) = tails_equal e in
    let (b, e2) = tails_equal e1 in
    let (c, e3) = tails_equal e2 in let (d, e4) = tails_equal e3 in (omega arith, e4)

pub u64_bytes-injective : (m n : ℕ) → m < 2 ^ 64 → n < 2 ^ 64 → u64_bytes m ≡ u64_bytes n → m ≡ n
unfolding u64_bytes
u64_bytes-injective m n hm hn e =
    let (a, e1) = tails_equal e in
    let (b, e2) = tails_equal e1 in
    let (c, e3) = tails_equal e2 in
    let (d, e4) = tails_equal e3 in
    let (a', e5) = tails_equal e4 in
    let (b', e6) = tails_equal e5 in
    let (c', e7) = tails_equal e6 in let (d', _) = tails_equal e7 in omega arith

pub split_equal :
    (v w : Text) (x y : Text) → length v ≡ length w → v ++ x ≡ w ++ y → (v ≡ w) × (x ≡ y)
split_equal [] [] x y l e = (refl, e)
split_equal [] (b ∷ w) x y l e = absurd (omega arith)
split_equal (a ∷ v) [] x y l e = absurd (omega arith)
split_equal (a ∷ v) (b ∷ w) x y l e =
    let (h, t) = tails_equal e in let (p, q) = split_equal v w x y (omega arith) t in (cc, q)

-- Two fields that read alike, whatever follows each, are one field and are followed alike.
pub append_field-injective :
    (v w : Text) (x y : Text)
    → length v < 2 ^ 32
    → length w < 2 ^ 32
    → append_field v x ≡ append_field w y
    → (v ≡ w) × (x ≡ y)
unfolding append_field
append_field-injective v w x y hv hw e =
    let (l, r) = u32_bytes-injective (length v) (length w) (v ++ x) (w ++ y) hv hw e in
    split_equal v w x y l r

abbrev pub AreShort : List Text → Type 0
AreShort [] = Unit {0}
AreShort (v ∷ vs) = (length v < 2 ^ 32) × AreShort vs

pub append_fields-injective :
    (vs ws : List Text) (x y : Text)
    → length vs ≡ length ws
    → AreShort vs
    → AreShort ws
    → append_fields vs x ≡ append_fields ws y
    → (vs ≡ ws) × (x ≡ y)
unfolding append_fields
append_fields-injective [] [] x y l hv hw e = (refl, e)
append_fields-injective [] (w ∷ ws) x y l hv hw e = absurd (omega arith)
append_fields-injective (v ∷ vs) [] x y l hv hw e = absurd (omega arith)
append_fields-injective (v ∷ vs) (w ∷ ws) x y l hv hw e =
    let (p, r) = append_field-injective v w (append_fields vs x) (append_fields ws y) hv.0 hw.0 e in
    let (q, t) = append_fields-injective vs ws x y (omega arith) hv.1 hw.1 r in (cc, t)
