-- ===== src/Base/Equality.antt =====
-- Decided equality, as the derived `PartialEq` of the source's types.
use Prim.Native.Nat.{ℕ}
use Prim.Native.Char.{code}
use Prim.Native.String.{String}
use mathlib.Core.Path.{◌≡◌, refl}
use mathlib.Core.Logic.{◌↔◌}
use mathlib.Core.Bool.{Bool, decide, decide_iff, true}
use mathlib.Core.Option.{Option}
use mathlib.Core.List.{List, [], ◌∷◌}
use native.Mathlib.Decide.{ℕ_discrete}
use vaultwarden_cli.Base.Tests.{nat_beq, nat_beq_iff}

-- `PartialEq` of the source, with what makes it a decision of equality.
pub record PartialEq {ℓ} (A : Type ℓ) : Type ℓ where
  pub eq : A → A → Bool
  pub eq_iff : (x y : A) → (eq x y ≡ true) ↔ (x ≡ y)

abbrev pub of_discrete {ℓ} : {A : Type ℓ} → Discrete A → PartialEq A
of_discrete d = record { eq = λ a b. decide (d a b); eq_iff = λ a b. decide_iff (d a b) }

-- The operator of the source.
infix 50 ◌==◌
abbrev pub ◌==◌ {ℓ} : {A : Type ℓ} ⦃e : PartialEq A⦄ → A → A → Bool
◌==◌ ⦃e⦄ = e.eq

pub beq_refl {ℓ} : {A : Type ℓ} ⦃e : PartialEq A⦄ (a : A) → (a == a) ≡ true
beq_refl ⦃e⦄ a = (e.eq_iff a a).1 refl

instance abbrev pub nat_eq : PartialEq ℕ
nat_eq = record { eq = nat_beq; eq_iff = nat_beq_iff }

-- A `String` of the source: the bytes of its UTF-8 form.
abbrev pub Text : Type 0
Text = List ℕ

unfoldable pub Text-discrete : Discrete Text
Text-discrete = hlevel ℕ_discrete

instance abbrev pub text_eq : PartialEq Text
text_eq = of_discrete Text-discrete

unfoldable pub OptionText-discrete : Discrete (Option Text)
OptionText-discrete = hlevel ℕ_discrete

instance abbrev pub option_text_eq : PartialEq (Option Text)
option_text_eq = of_discrete OptionText-discrete

-- The bytes of an ASCII literal.
abbrev pub codes : String → Text
codes String.[] = []
codes (String.◌∷◌ c s) = code c ∷ codes s
