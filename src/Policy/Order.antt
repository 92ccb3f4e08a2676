-- ===== src/Policy/Order.antt =====
-- The order of texts that src/access/policy.rs sorts by.
use vaultwarden_cli.Base.{◌≡◌, refl, true, ◌⊎◌, inl, inr, [], ◌∷◌, Text, arith, text_eq}
use vaultwarden_cli.Policy.Checks.{text_leb}

pub text_leb-total : (a b : Text) → (text_leb a b ≡ true) ⊎ (text_leb b a ≡ true)
text_leb-total [] b = inl refl
text_leb-total (x ∷ a) [] = inr refl
text_leb-total (x ∷ a) (y ∷ b) = ground (arith, text_leb-total a b)

pub text_leb_antisym : (a b : Text) → text_leb a b ≡ true → text_leb b a ≡ true → a ≡ b
text_leb_antisym [] [] p q = refl
text_leb_antisym [] (y ∷ b) p q = cc
text_leb_antisym (x ∷ a) [] p q = cc
text_leb_antisym (x ∷ a) (y ∷ b) p q = ground (arith, text_leb_antisym a b)

pub text_leb_trans :
    (a b c : Text) → text_leb a b ≡ true → text_leb b c ≡ true → text_leb a c ≡ true
text_leb_trans [] b c p q = refl
text_leb_trans (x ∷ a) [] c p q = cc
text_leb_trans (x ∷ a) (y ∷ b) [] p q = cc
text_leb_trans (x ∷ a) (y ∷ b) (z ∷ c) p q = ground (arith, text_leb_trans a b c)
