-- ===== src/Application/Follows.antt =====
-- How the session may change: what every method keeps, whatever happens outside.
use vaultwarden_cli.Base.{
  ℕ, ◌≤◌, ◌≡◌, refl, sym, ◌∙◌, Bool, true, false, Option, none, some, Result, ok, err, arith,
  if◌then◌else◌,
}
use vaultwarden_cli.Host.{Host}
use vaultwarden_cli.Store.{Io}
use vaultwarden_cli.Provider.Defs.{Provider}
use vaultwarden_cli.Provider.Moves.{Moves, Moves-refl, Moves-trans}
use vaultwarden_cli.Application.Types.{Session, Outside}
use vaultwarden_cli.Application.Action.{
  Action, resume, pure, fail, lift, ◌>>=◌, attempt, map_error, check, unless, gets, observe, ask,
  call, read,
}

-- What else is kept: nothing, that a session which is not open does not open, the lease of the session
-- within one generation, or both.
pub data Hold : Type 0 where
  loose shut leased kept : Hold

abbrev pub keeps_lease : Hold → Bool
keeps_lease Hold.leased = true
keeps_lease Hold.kept = true
keeps_lease _ = false

abbrev pub keeps_shut : Hold → Bool
keeps_shut Hold.shut = true
keeps_shut Hold.kept = true
keeps_shut _ = false

module _ ⦃h : Host⦄ where
  -- Time goes on, the generation grows, admission stays closed, the provider runs. The
  -- lease: within one generation the deadline and what is known of the cleanup stay as they are.
  pub record Follows (l : Hold) (s t : Session) : Type 0 where
    pub later : s.generation ≤ t.generation
    pub ticks : s.tick ≤ t.tick
    pub closed : s.closing ≡ true → t.closing ≡ true
    pub moves : Moves s.provider t.provider
    pub lease :
        keeps_lease l ≡ true
        → s.generation ≡ t.generation
        → (t.deadline ≡ s.deadline) × (t.cleanup_failed ≡ s.cleanup_failed)
    pub closes : keeps_shut l ≡ true → s.deadline ≡ none → t.deadline ≡ none

  pub Follows-refl : (b : Hold) (s : Session) → Follows b s s
  Follows-refl b s = record {
    later = omega arith;
    ticks = omega arith;
    closed = λ e. e;
    moves = Moves-refl s.provider;
    lease = λ _ _. (refl, refl);
    closes = λ _ e. e;
  }

  pub Follows-trans : (b : Hold) (s t u : Session) → Follows b s t → Follows b t u → Follows b s u
  Follows-trans b s t u p q = record {
    later = omega (arith, p.later, q.later);
    ticks = omega (arith, p.ticks, q.ticks);
    closed = λ e. q.closed (p.closed e);
    moves = Moves-trans s.provider t.provider u.provider p.moves q.moves;
    lease = λ l e.
        let first : s.generation ≡ t.generation = omega (arith, p.later, q.later, e) in
        let (d, c) = p.lease l first in
        let (d', c') = q.lease l (sym first ∙ e) in (d' ∙ d, c' ∙ c);
    closes = λ l e. q.closes l (p.closes l e);
  }

  pub Follows-leased : (s t : Session) → Follows Hold.kept s t → Follows Hold.leased s t
  Follows-leased s t f = record {
    later = f.later;
    ticks = f.ticks;
    closed = f.closed;
    moves = f.moves;
    lease = λ _. f.lease refl;
    closes = λ l. cc;
  }

  -- An action that keeps this, from every state.
  pub record Keeps {E A : Type 0} (b : Hold) (m : Action E A) : Type 0 where
    pub follows : (o : Outside) (s : Session) → Follows b s (m o s).1

  pub Keeps-weaken : {E A : Type 0} (m : Action E A) → Keeps Hold.kept m → Keeps Hold.loose m
  Keeps-weaken m k = record {
    follows = λ o s.
        let f = k.follows o s in
        record {
          later = f.later;
          ticks = f.ticks;
          closed = f.closed;
          moves = f.moves;
          lease = λ l. cc;
          closes = λ l. cc;
        };
  }

  pub Keeps-pure : {E A : Type 0} (b : Hold) (a : A) → Keeps {E = E} b (pure a)
  Keeps-pure b a = record { follows = λ o s. Follows-refl b s }

  pub Keeps-fail : {E A : Type 0} (b : Hold) (e : E) → Keeps {E = E} {A = A} b (fail e)
  Keeps-fail b e = record { follows = λ o s. Follows-refl b s }

  pub Keeps-lift : {E A : Type 0} (b : Hold) (r : Result E A) → Keeps b (lift r)
  Keeps-lift b r = record { follows = λ o s. Follows-refl b s }

  pub Keeps-gets : {E A : Type 0} (b : Hold) (f : Session → A) → Keeps {E = E} b (gets f)
  Keeps-gets b f = record { follows = λ o s. Follows-refl b s }

  pub Keeps-check : {E : Type 0} (b : Hold) (c : Bool) (e : E) → Keeps b (check c e)
  Keeps-check b true e = Keeps-pure b tt
  Keeps-check b false e = Keeps-fail b e

  pub Keeps-unless : {E : Type 0} (b : Hold) (o : Option E) → Keeps b (unless o)
  Keeps-unless b none = Keeps-pure b tt
  Keeps-unless b (some e) = Keeps-fail b e

  pub Keeps-if :
      {E A : Type 0} (b : Hold) (c : Bool) (m n : Action E A)
      → Keeps b m
      → Keeps b n
      → Keeps b (if c then m else n)
  Keeps-if b true m n p q = p
  Keeps-if b false m n p q = q

  continued :
      {E A B : Type 0} (b : Hold) (f : A → Action E B) (o : Outside) (s : Session)
      (x : Result E A × Session)
      → Follows b s x.1
      → ((a : A) → Keeps b (f a))
      → Follows b s (resume f o x).1
  continued b f o s (ok a, t) p k = Follows-trans b s t _ p ((k a).follows o t)
  continued b f o s (err e, t) p k = p

  pub Keeps-bind :
      {E A B : Type 0} (b : Hold) (m : Action E A) (f : A → Action E B)
      → Keeps b m
      → ((a : A) → Keeps b (f a))
      → Keeps b (m >>= f)
  Keeps-bind b m f p k = record { follows = λ o s. continued b f o s (m o s) (p.follows o s) k }

  pub Keeps-attempt :
      {E F A : Type 0} (b : Hold) (m : Action E A) → Keeps b m → Keeps {E = F} b (attempt m)
  Keeps-attempt b m p = record { follows = λ o s. p.follows o s }

  pub Keeps-map_error :
      {E F A : Type 0} (b : Hold) (g : E → F) (m : Action E A) → Keeps b m → Keeps b (map_error g m)
  Keeps-map_error b g m p = record { follows = λ o s. p.follows o s }

  pub observe-Keeps : {E : Type 0} (b : Hold) → Keeps {E = E} b observe
  unfolding observe
  observe-Keeps b = record {
    follows = λ o s. record {
      later = omega arith;
      ticks = omega arith;
      closed = λ e. rw e refl;
      moves = Moves-refl s.provider;
      lease = λ _ _. (refl, refl);
      closes = λ _ e. e;
    };
  }

  pub ask-Keeps : {E A : Type 0} (b : Hold) (f : Outside → ℕ → A) → Keeps {E = E} b (ask f)
  ask-Keeps b f =
      Keeps-bind b observe _ (observe-Keeps b) λ u. record { follows = λ o s. Follows-refl b s }

  pub read-Keeps : {E A : Type 0} (b : Hold) (f : Provider → Io → Result E A) → Keeps b (read f)
  read-Keeps b f =
      Keeps-bind b observe _ (observe-Keeps b) λ u. record { follows = λ o s. Follows-refl b s }

  pub call-Keeps :
      {E A : Type 0} (b : Hold) (f : Provider → Io → Result E A × Provider)
      → ((p : Provider) (io : Io) → Moves p (f p io).1)
      → Keeps b (call f)
  call-Keeps b f k = Keeps-bind b observe _ (observe-Keeps b) λ u. record {
    follows = λ o s. record {
      later = omega arith;
      ticks = omega arith;
      closed = λ e. e;
      moves = k s.provider (o.io s.tick);
      lease = λ _ _. (refl, refl);
      closes = λ _ e. e;
    };
  }

  pub ruleset keeping = (
    Keeps-pure, Keeps-fail, Keeps-lift, Keeps-gets, Keeps-check, Keeps-unless, Keeps-if, Keeps-bind,
    Keeps-attempt, Keeps-map_error, observe-Keeps, ask-Keeps, read-Keeps,
  )
