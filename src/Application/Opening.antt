-- ===== src/Application/Opening.antt =====
-- `authenticate` opens a session in a generation of its own.
use vaultwarden_cli.Base.{
  ℕ, suc, ◌≤◌, ◌≡◌, refl, Bool, true, false, Option, none, some, Result, ok, err, arith, ltb,
  nat_eq, ◌^◌,
}
use vaultwarden_cli.Host.{Host}
use vaultwarden_cli.Provider.Moves.{Moves-refl}
use vaultwarden_cli.Application.Types.{Session, Outside, SessionError}
use vaultwarden_cli.Application.Action.{Action, ◌>>◌, resume, check}
use vaultwarden_cli.Application.Authority.{
  open_session, withdrawn, revoke, revoke_locked, unlocked_for, unlock_backend, authenticate,
  opened_at, opening,
}
use vaultwarden_cli.Application.Follows.{
  Hold, Follows, Follows-trans, Follows-leased, Keeps, Keeps-weaken, keeping,
}
use vaultwarden_cli.Application.Kept.{withdrawn-grows, revoke-Keeps}

module _ ⦃h : Host⦄ where
  -- A revocation that succeeds has taken another generation.
  pub revoke-grows :
      (o : Outside) (s : Session)
      → (revoke o s).0 ≡ ok tt
      → suc s.generation ≤ (revoke o s).1.generation
  unfolding revoke
  revoke-grows o s e = grown (ltb (suc s.generation) (2 ^ 64)) e
    where
      grown :
          (b : Bool)
          → ((check b SessionError.cleanup_failed >> withdrawn) o s).0 ≡ ok tt
          → suc s.generation ≤ ((check b SessionError.cleanup_failed >> withdrawn) o s).1.generation
      grown true e = withdrawn-grows o s
      grown false e = cc

  after_revoke :
      {A : Type 0} (k : Action SessionError A) (o : Outside) (s : Session)
      (x : Result SessionError (Unit {0}) × Session)
      → Keeps Hold.loose k
      → Follows Hold.kept s x.1
      → (x.0 ≡ ok tt → suc s.generation ≤ x.1.generation)
      → Follows Hold.leased s (resume (λ _. k) o x).1
  after_revoke k o s (err e, t) p f g = Follows-leased s t f
  after_revoke k o s (ok u, t) p f g =
      let next = p.follows o t in
      let grows = g refl in
      let all =
        Follows-trans Hold.loose s t _
          (record {
            later = f.later;
            ticks = f.ticks;
            closed = f.closed;
            moves = f.moves;
            lease = λ l. cc;
            closes = λ l. cc;
          })
          next in
      record {
        later = all.later;
        ticks = all.ticks;
        closed = all.closed;
        moves = all.moves;
        lease = λ l e. absurd (omega (arith, next.later));
        closes = λ l. cc;
      }

  -- Whatever is done after a revocation is done in another generation.
  revoke_then-Keeps :
      {A : Type 0} (k : Action SessionError A)
      → Keeps Hold.loose k
      → Keeps Hold.leased (revoke >> k)
  revoke_then-Keeps k p = record {
    follows =
        λ o s. after_revoke k o s (revoke o s) p (revoke-Keeps.follows o s) (revoke-grows o s);
  }

  open_session-Keeps : {E : Type 0} (d n : ℕ) → Keeps {E = E} Hold.loose (open_session d n)
  unfolding open_session
  open_session-Keeps d n = record {
    follows = λ o s. record {
      later = omega arith;
      ticks = omega arith;
      closed = λ e. e;
      moves = Moves-refl s.provider;
      lease = λ l. cc;
      closes = λ l. cc;
    };
  }

  revoke-false : Keeps Hold.loose revoke
  revoke-false = Keeps-weaken revoke revoke-Keeps

  opened_at-Keeps : (epoch : ℕ) (d : Option ℕ) → Keeps Hold.loose (opened_at epoch d)
  unfolding opened_at revoke_locked
  opened_at-Keeps epoch none = search (keeping, revoke-false) depth 6
  opened_at-Keeps epoch (some d) = search (keeping, revoke-false, open_session-Keeps) depth 12

  pub unlocked_for-Keeps :
      (started epoch : ℕ) (r : Result SessionError ℕ)
      → Keeps Hold.loose (unlocked_for started epoch r)
  unfolding unlocked_for
  unlocked_for-Keeps started epoch (err e) = search (keeping, revoke-false) depth 6
  unlocked_for-Keeps started epoch (ok n) = search (keeping, revoke-false, opened_at-Keeps) depth 8

  opening-Keeps : Keeps Hold.loose opening
  unfolding opening unlock_backend
  opening-Keeps = search (keeping, unlocked_for-Keeps) depth 14

  pub authenticate-Keeps : Keeps Hold.leased authenticate
  unfolding authenticate
  authenticate-Keeps = search (keeping, revoke_then-Keeps, opening-Keeps) depth 10
