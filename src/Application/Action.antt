-- ===== src/Application/Action.antt =====
-- What a method of `ProviderApplication` does to the session: an answer or an error, and the state
-- that is left. The state stays changed after an error.
use vaultwarden_cli.Base.{
  ℕ, suc, ◌+◌, ◌%◌, ◌^◌, Bool, true, false, ◌||◌, Option, none, some, Result, ok, err, map_option,
}
use vaultwarden_cli.Store.{Io}
use vaultwarden_cli.Provider.Defs.{Provider}
use vaultwarden_cli.Application.Types.{Session, Outside}

abbrev pub Action : Type 0 → Type 0 → Type 0
Action E A = Outside → Session → Result E A × Session

module _ {E A : Type 0} where
  abbrev pub pure : A → Action E A
  pure a o s = (ok a, s)

  abbrev pub fail : E → Action E A
  fail e o s = (err e, s)

  abbrev pub lift : Result E A → Action E A
  lift r o s = (r, s)

-- What follows a result and the state that it left.
abbrev pub resume :
    {E A B : Type 0} → (A → Action E B) → Outside → Result E A × Session → Result E B × Session
resume f o (ok a, t) = f a o t
resume f o (err e, t) = (err e, t)

infixl 5 ◌>>=◌ ◌>>◌
abbrev pub ◌>>=◌ : {E A B : Type 0} → Action E A → (A → Action E B) → Action E B
◌>>=◌ m f o s = resume f o (m o s)

abbrev pub ◌>>◌ : {E A B : Type 0} → Action E A → Action E B → Action E B
m >> k = m >>= λ _. k

-- The result as a value, to be looked at later.
abbrev pub attempt : {E F A : Type 0} → Action E A → Action F (Result E A)
attempt m o s = let (r, t) = m o s in (ok r, t)

abbrev pub map_error : {E F A : Type 0} → (E → F) → Action E A → Action F A
map_error g m o s = let (r, t) = m o s in (elim r [ ok a ↦ ok a | err e ↦ err (g e) ], t)

abbrev pub check : {E : Type 0} → Bool → E → Action E (Unit {0})
check true e = pure tt
check false e = fail e

abbrev pub unless : {E : Type 0} → Option E → Action E (Unit {0})
unless none = pure tt
unless (some e) = fail e

module _ {E : Type 0} where
  abbrev pub gets : {A : Type 0} → (Session → A) → Action E A
  gets f o s = (ok (f s), s)

  -- What other threads did meanwhile: tests of shared flags see it.
  unfoldable pub observe : Action E (Unit {0})
  observe o s = (
    ok tt,
    record s {
      closing = s.closing || o.closes s.tick;
      revocation_epoch = (s.revocation_epoch + o.revokes s.tick) % 2 ^ 64;
      tokens = λ a. map_option (λ w. w || o.withdraws s.tick a) (s.tokens a);
      tick = suc s.tick;
    },
  )

  -- An answer from outside, and what the session is then.
  abbrev pub ask : {A : Type 0} → (Outside → ℕ → A) → Action E A
  ask f = observe >>= λ _ o s. (ok (f o s.tick), s)

  abbrev pub now : Action E ℕ
  now = ask λ o n. o.now n

  abbrev pub is_closing : Action E Bool
  is_closing = observe >>= λ _. gets (λ s. s.closing)

  abbrev pub revocations : Action E ℕ
  revocations = observe >>= λ _. gets (λ s. s.revocation_epoch)

  -- A call of the provider, and one that only reads.
  abbrev pub call : {A : Type 0} → (Provider → Io → Result E A × Provider) → Action E A
  call f =
      observe >>= λ _ o s. let (r, p) = f s.provider (o.io s.tick) in (r, record s { provider = p })

  abbrev pub read : {A : Type 0} → (Provider → Io → Result E A) → Action E A
  read f = observe >>= λ _ o s. (f s.provider (o.io s.tick), s)
