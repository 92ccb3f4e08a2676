-- ===== src/Application/Progress.antt =====
-- An authentication that finds everything in order opens the session.
use vaultwarden_cli.Base.{
  ℕ, suc, ◌+◌, ◌*◌, ◌≤◌, ◌<◌, ◌≡◌, refl, sym, ap, subst, Bool, true, false, not, none, some, Result,
  ok, err, arith, if◌then◌else◌, leb, ◌==◌, nat_eq, ◌^◌, lt→ltb, is_ok,
}
use vaultwarden_cli.Host.{Host}
use vaultwarden_cli.Provider.Defs
use vaultwarden_cli.Application.Types.{Session, Outside, SessionError}
use vaultwarden_cli.Application.Action.{Action, ◌>>=◌, ◌>>◌, resume, check, gets, observe}
use vaultwarden_cli.Application.Authority.{
  max_session, add_duration, open_session, revoke, withdrawn, withdraw_authority, clean_up, cleaned,
  unlocked_for, unlock_backend, authenticate, opened_at, opening,
}
use vaultwarden_cli.Application.Lease.{Opened, authenticate-Opened}

-- The session after something else was observed.
seen : Outside → Session → Session
seen o s = (observe {E = SessionError} o s).1

open_still :
    (o : Outside) (s : Session)
    → ((n : ℕ) → o.closes n ≡ false)
    → s.closing ≡ false
    → (seen o s).closing ≡ false
unfolding seen observe
open_still o s quiet shut = rw shut rw (quiet s.tick) refl

succeeded : (x : Result SessionError (Unit {0}) × Session) → is_ok x.0 ≡ true → x ≡ (ok tt, x.1)
succeeded (ok tt, s) e = refl
succeeded (err x, s) e = cc

passes :
    {E A : Type 0} (b : Bool) (e : E) (m : Action E A) (o : Outside) (s : Session)
    → b ≡ true
    → is_ok (m o s).0 ≡ true
    → is_ok ((check b e >> m) o s).0 ≡ true
passes true e m o s p q = q
passes false e m o s p q = cc

module _ ⦃h : Host⦄ (o : Outside) where
  opened_at-fine :
      (epoch d : ℕ) (s : Session)
      → ((n : ℕ) → o.closes n ≡ false)
      → s.closing ≡ false
      → o.now (suc (suc s.tick)) < d
      → is_ok (opened_at epoch (some d) o s).0 ≡ true
  unfolding opened_at open_session observe
  opened_at-fine epoch d s quiet shut ahead =
      rw shut rw (quiet s.tick) rw (not_over (o.now (suc (suc s.tick))) d ahead) refl
    where
      not_over : (n m : ℕ) → n < m → leb m n ≡ false
      not_over n m h = ground arith

  unlocked_for-fine :
      (started epoch lifetime : ℕ) (s : Session)
      → ((n : ℕ) → o.closes n ≡ false)
      → s.closing ≡ false
      → 0 < lifetime
      → started + max_session < 2 ^ 64 * 1000000000
      → o.now (suc (suc s.tick))
        < started + (if leb lifetime max_session then lifetime else max_session)
      → is_ok (unlocked_for started epoch (ok lifetime) o s).0 ≡ true
  unfolding unlocked_for
  unlocked_for-fine started epoch lifetime s quiet shut lasts fits ahead =
      rw (zero_test lifetime lasts) rw (added lifetime fits) (
        opened_at-fine epoch
          (started + (if leb lifetime max_session then lifetime else max_session)) s quiet shut
          ahead)
    where
      zero_test : (n : ℕ) → 0 < n → (n == 0) ≡ false
      zero_test n h = ground arith

      added :
          (n : ℕ)
          → started + max_session < 2 ^ 64 * 1000000000
          → add_duration started (if leb n max_session then n else max_session)
            ≡ some (started + (if leb n max_session then n else max_session))
      added n h = ground arith

  unlock_backend-fine :
      (s : Session) (lifetime : ℕ)
      → ((n : ℕ) → o.probe_compatibility n ≡ none)
      → ((n : ℕ) → o.unlock n ≡ ok lifetime)
      → unlock_backend o s ≡ (ok lifetime, seen o (seen o s))
  unfolding unlock_backend seen observe
  unlock_backend-fine s lifetime probe unlock =
      rw (probe (suc s.tick)) rw (unlock (suc (suc s.tick))) refl

  opening-fine :
      (r : Session) (lifetime : ℕ)
      → r.closing ≡ false
      → ((n : ℕ) → o.closes n ≡ false)
      → ((n : ℕ) → o.probe_compatibility n ≡ none)
      → ((n : ℕ) → o.unlock n ≡ ok lifetime)
      → 0 < lifetime
      → o.now (suc r.tick) + max_session < 2 ^ 64 * 1000000000
      → o.now (suc (suc (suc (suc (suc (suc r.tick))))))
        < o.now (suc r.tick) + (if leb lifetime max_session then lifetime else max_session)
      → is_ok (opening o r).0 ≡ true
  unfolding opening seen observe
  opening-fine r lifetime shut quiet probe unlock lasts fits ahead =
      let r2 = seen o (seen o r) in
      let rest = unlocked_for (o.now (suc r.tick)) r2.revocation_epoch in
      subst (λ x. is_ok (resume rest o (ok x.0, x.1)).0 ≡ true)
        (sym (unlock_backend-fine r2 lifetime probe unlock))
        (unlocked_for-fine (o.now (suc r.tick)) r2.revocation_epoch lifetime (seen o (seen o r2))
          quiet (still (seen o r2) (still r2 (still (seen o r) (still r shut)))) lasts fits ahead)
    where
      still : (s : Session) → s.closing ≡ false → (seen o s).closing ≡ false
      still s e = open_still o s quiet e

  -- The session after a revocation whose cleanups are fine.
  revoked : Session → Session
  revoked s = record (seen o (seen o s)) {
    provider = (Defs.lock s.provider (o.io (suc (suc s.tick)))).1;
    generation = suc s.generation;
    deadline = none;
    request_deadlines = λ id. none;
    cleanup_failed = false;
  }

  revoke-fine :
      (s : Session)
      → suc s.generation < 2 ^ 64
      → o.clear (suc s.tick) ≡ none
      → is_ok (Defs.lock s.provider (o.io (suc (suc s.tick)))).0 ≡ true
      → revoke o s ≡ (ok tt, revoked s)
  unfolding revoke withdrawn withdraw_authority clean_up cleaned observe revoked seen
  revoke-fine s small clear fine =
      rw (lt→ltb (suc s.generation) (2 ^ 64) small) rw clear rw fine refl

  revoked_then-fine :
      (s : Session) (lifetime : ℕ)
      → s.closing ≡ false
      → suc s.generation < 2 ^ 64
      → ((n : ℕ) → o.closes n ≡ false)
      → ((n : ℕ) → o.clear n ≡ none)
      → ((n : ℕ) → is_ok (Defs.lock s.provider (o.io n)).0 ≡ true)
      → ((n : ℕ) → o.probe_compatibility n ≡ none)
      → ((n : ℕ) → o.unlock n ≡ ok lifetime)
      → 0 < lifetime
      → o.now (suc (suc (suc s.tick))) + max_session < 2 ^ 64 * 1000000000
      → o.now (suc (suc (suc (suc (suc (suc (suc (suc s.tick))))))))
        < o.now (suc (suc (suc s.tick)))
          + (if leb lifetime max_session then lifetime else max_session)
      → is_ok ((revoke >> opening) o s).0 ≡ true
  unfolding revoked seen observe
  revoked_then-fine s lifetime shut small quiet clear fine probe unlock lasts fits ahead =
      subst (λ x. is_ok (resume (λ _. opening) o x).0 ≡ true)
        (sym (revoke-fine s small (clear (suc s.tick)) (fine (suc (suc s.tick)))))
        (opening-fine (revoked s) lifetime
          (open_still o (seen o s) quiet (open_still o s quiet shut)) quiet probe unlock lasts fits
          ahead)

  -- An attempt to authenticate succeeds, and opens a session that is not over yet, if admission is
  -- open and stays open, no cleanup has failed, another generation is left, the backend and the
  -- store can be cleaned up, the backend is compatible and gives a lifetime that is not zero, and
  -- the clock, read at any two moments of the attempt, has not gone further than that lifetime or 15
  -- minutes and stays in range.
  pub authenticate-opens :
      (s : Session) (lifetime : ℕ)
      → s.closing ≡ false
      → s.cleanup_failed ≡ false
      → suc s.generation < 2 ^ 64
      → ((n : ℕ) → o.closes n ≡ false)
      → ((n : ℕ) → o.clear n ≡ none)
      → ((n : ℕ) → is_ok (Defs.lock s.provider (o.io n)).0 ≡ true)
      → ((n : ℕ) → o.probe_compatibility n ≡ none)
      → ((n : ℕ) → o.unlock n ≡ ok lifetime)
      → 0 < lifetime
      → ((m n : ℕ)
          → s.tick ≤ m
          → m ≤ n
          → n ≤ 9 + s.tick
          → (o.now m + max_session < 2 ^ 64 * 1000000000)
            × (o.now n < o.now m + (if leb lifetime max_session then lifetime else max_session)))
      → (authenticate o s ≡ (ok tt, (authenticate o s).1)) × Opened o s (authenticate o s).1
  unfolding authenticate seen observe
  authenticate-opens s lifetime shut clean small quiet clear fine probe unlock lasts clock =
      let (fits, ahead) =
        clock (suc (suc (suc (suc s.tick))))
          (suc (suc (suc (suc (suc (suc (suc (suc (suc s.tick))))))))) (omega arith) (omega arith)
          (omega arith) in
      let e = succeeded (authenticate o s) (result fits ahead) in
      (e, authenticate-Opened o s (authenticate o s).1 e)
    where
      result :
          o.now (suc (suc (suc (suc s.tick)))) + max_session < 2 ^ 64 * 1000000000
          → o.now (suc (suc (suc (suc (suc (suc (suc (suc (suc s.tick)))))))))
            < o.now (suc (suc (suc (suc s.tick))))
              + (if leb lifetime max_session then lifetime else max_session)
          → is_ok (authenticate o s).0 ≡ true
      result fits ahead =
          passes (not (seen o s).closing) SessionError.locked
            (gets (λ x. x.cleanup_failed) >>= λ b.
              check (not b) SessionError.cleanup_failed >> (revoke >> opening))
            o (seen o s) (ap not (open_still o s quiet shut))
            (passes (not s.cleanup_failed) SessionError.cleanup_failed (revoke >> opening) o
              (seen o s) (ap not clean)
              (revoked_then-fine (seen o s) lifetime (open_still o s quiet shut) small quiet clear
                fine probe unlock lasts fits ahead))
