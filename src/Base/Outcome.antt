-- ===== src/Base/Outcome.antt =====
-- `Result<A, E>`, with `?` as the bind of a `do` block.
use mathlib.Core.Bool.{Bool, true, false}
use mathlib.Core.Option.{Option, none, some}
use vaultwarden_cli.Base.Tests.{if◌then◌else◌}
use mathlib.Core.Path.{◌≡◌, refl, subst}

pub data Result (E A : Type 0) : Type 0 where
  ok : A → Result E A
  err : E → Result E A

infixl 5 ◌>>=◌ ◌>>◌
abbrev pub ◌>>=◌ : {E A B : Type 0} → Result E A → (A → Result E B) → Result E B
ok a >>= f = f a
err e >>= f = err e

abbrev pub ◌>>◌ : {E B : Type 0} → Result E (Unit {0}) → Result E B → Result E B
m >> k = m >>= λ _. k

-- `if !test { return Err(e) }`
abbrev pub guard : {E : Type 0} → Bool → E → Result E (Unit {0})
guard true e = ok tt
guard false e = err e

abbrev pub ok_or : {E A : Type 0} → Option A → E → Result E A
ok_or none e = err e
ok_or (some a) e = ok a

abbrev pub map_err : {E F A : Type 0} → (E → F) → Result E A → Result F A
map_err f (ok a) = ok a
map_err f (err e) = err (f e)

abbrev pub is_ok : {E A : Type 0} → Result E A → Bool
is_ok (ok a) = true
is_ok (err e) = false

-- A bind that succeeds has a first part that does.
pub bind-ok :
    {E : Type 0} {X Y : Type 0} (next : X → Result E Y) (first : Result E X) {y : Y}
    → (first >>= next) ≡ ok y
    → (x : X) × (next x ≡ ok y) × (first ≡ ok x)
bind-ok next (err e) h = cc
bind-ok next (ok x) h = (x, h, refl)

-- What every success of a computation satisfies.
pub record Sound {E A : Type 0} (P : A → Type 0) (m : Result E A) : Type 0 where
  pub holds : (a : A) → m ≡ ok a → P a

pub Sound-guard :
    {E A : Type 0} {P : A → Type 0} (b : Bool) (e : E) (m : Result E A)
    → (b ≡ true → Sound P m)
    → Sound P (guard b e >> m)
Sound-guard true e m k = k refl
Sound-guard false e m k = record { holds = λ a h. cc }

pub Sound-option :
    {E A B : Type 0} {P : B → Type 0} (o : Option A) (e : E) (f : A → Result E B)
    → ((a : A) → o ≡ some a → Sound P (f a))
    → Sound P (ok_or o e >>= f)
Sound-option none e f k = record { holds = λ a h. cc }
Sound-option (some a) e f k = k a refl

pub Sound-bind :
    {E A B : Type 0} {P : B → Type 0} (m : Result E A) (f : A → Result E B)
    → ((a : A) → m ≡ ok a → Sound P (f a))
    → Sound P (m >>= f)
Sound-bind (ok a) f k = k a refl
Sound-bind (err e) f k = record { holds = λ a h. cc }

pub Sound-map_err :
    {E F A B : Type 0} {P : B → Type 0} (g : E → F) (m : Result E A) (f : A → Result F B)
    → ((a : A) → m ≡ ok a → Sound P (f a))
    → Sound P (map_err g m >>= f)
Sound-map_err g (ok a) f k = k a refl
Sound-map_err g (err e) f k = record { holds = λ a h. cc }

ok-injective : {E A : Type 0} {a b : A} → ◌≡◌ {A = Result E A} (ok a) (ok b) → a ≡ b
ok-injective e = cc

pub Sound-ok : {E A : Type 0} {P : A → Type 0} (a : A) → P a → Sound {E = E} P (ok a)
Sound-ok {P = P} a p = record { holds = λ x h. subst P (ok-injective h) p }

pub Sound-if :
    {E A : Type 0} {P : A → Type 0} (b : Bool) (m n : Result E A)
    → (b ≡ true → Sound P m)
    → (b ≡ false → Sound P n)
    → Sound P (if b then m else n)
Sound-if true m n p q = p refl
Sound-if false m n p q = q refl

pub ruleset soundness = (Sound-option, Sound-guard, Sound-map_err, Sound-bind)
