-- ===== src/Application/Drops.antt =====
-- A refresh takes away what was crossed: the deadline of the session or that of the request.
use vaultwarden_cli.Base.{
  ℕ, suc, ◌≤◌, ◌≡◌, refl, sym, ap, subst, Bool, true, false, not, Option, none, some, Result, ok,
  err, arith, Text, if◌then◌else◌, ◌&&◌, is_some_and, ltb, nat_eq, is_none, is_ok,
}
use vaultwarden_cli.Host.{Host}
use vaultwarden_cli.Provider.Defs
use vaultwarden_cli.Provider.Expiry.{expire_direct}
use vaultwarden_cli.Application.Types.{Session, Outside, SessionError}
use vaultwarden_cli.Application.Action.{
  Action, resume, pure, fail, ◌>>◌, attempt, map_error, check, observe, call,
}
use vaultwarden_cli.Application.Authority.{
  withdraw_authority, cleaned, clean_up, withdrawn, revoke, revoke_locked, admit_until, admit,
  locked_is_fine, admit_or_locked, retain_deadlines, expire_requests,
}
use vaultwarden_cli.Application.Lease.{ok-err}
use vaultwarden_cli.Application.Locked.{revoke-Withdrawn}

paired :
    (x : Result SessionError (Unit {0}) × Session) (u : Unit {0}) → x.0 ≡ ok u → x ≡ (ok tt, x.1)
paired (ok tt, s) u e = refl
paired (err z, s) u e = cc

checked-not_locked :
    {A : Type 0} (b : Bool) (m : Action SessionError A) (o : Outside) (s : Session)
    → ((m o s).0 ≡ err SessionError.locked → ⊥)
    → ((check b SessionError.cleanup_failed >> m) o s).0 ≡ err SessionError.locked
    → ⊥
checked-not_locked true m o s k e = k e
checked-not_locked false m o s k e = cc

module _ ⦃h : Host⦄ (o : Outside) where
  cleaned-not_locked :
      (s : Session) → (cleaned {E = SessionError} o s).0 ≡ err SessionError.locked → ⊥
  unfolding cleaned
  cleaned-not_locked s e = cc

  withdrawn-not_locked : (s : Session) → (withdrawn o s).0 ≡ err SessionError.locked → ⊥
  unfolding withdrawn withdraw_authority clean_up observe
  withdrawn-not_locked s e =
      let asked = (observe {E = SessionError} o (withdraw_authority {E = SessionError} o s).1).1 in
      let x = attempt {F = SessionError} (call Defs.lock) o asked in
      checked-not_locked (is_none (o.clear asked.tick) && is_ok (call Defs.lock o asked).0) cleaned
        o x.1 (cleaned-not_locked x.1) e

  revoke-not_locked : (s : Session) → (revoke o s).0 ≡ err SessionError.locked → ⊥
  unfolding revoke
  revoke-not_locked s e = checked-not_locked _ withdrawn o s (withdrawn-not_locked s) e

  -- What `admit_or_locked` makes of an answer.
  judged : Result SessionError (Unit {0}) × Session → Result SessionError (Unit {0}) × Session
  judged x = locked_is_fine x.0 o x.1

  judged-locked :
      (x : Result SessionError (Unit {0}) × Session) (t : Session)
      → (x.0 ≡ ok tt → x.1.deadline ≡ none)
      → (x.0 ≡ err SessionError.locked → ⊥)
      → judged (resume (λ _. fail SessionError.locked) o x) ≡ (ok tt, t)
      → t.deadline ≡ none
  unfolding judged locked_is_fine
  judged-locked (ok tt, v) t k l q = subst (λ y. y.deadline ≡ none) (ap (λ y. y.1) q) (k refl)
  judged-locked (err SessionError.locked, v) t k l q = absurd (l refl)
  judged-locked (err SessionError.incompatible, v) t k l q = absurd (ok-err q)
  judged-locked (err SessionError.authentication_failed, v) t k l q = absurd (ok-err q)
  judged-locked (err SessionError.backend_unavailable, v) t k l q = absurd (ok-err q)
  judged-locked (err SessionError.cleanup_failed, v) t k l q = absurd (ok-err q)
  judged-locked (err SessionError.invalid_request, v) t k l q = absurd (ok-err q)

  pub revoke-shut : (s : Session) → (revoke o s).0 ≡ ok tt → (revoke o s).1.deadline ≡ none
  revoke-shut s e = (revoke-Withdrawn o s (revoke o s).1 (paired (revoke o s) tt e)).shut

  revoke_locked-shut : (s t : Session) → judged (revoke_locked o s) ≡ (ok tt, t) → t.deadline ≡ none
  unfolding revoke_locked
  revoke_locked-shut s t q = judged-locked (revoke o s) t (revoke-shut s) (revoke-not_locked s) q

  refused-shut :
      (b : Bool) (s t : Session)
      → b ≡ false
      → judged ((if b then pure tt else revoke_locked) o s) ≡ (ok tt, t)
      → t.deadline ≡ none
  refused-shut true s t e q = cc
  refused-shut false s t e q = revoke_locked-shut s t q

  not_ahead : (at d : ℕ) (b : Bool) → d ≤ at → (ltb at d && b) ≡ false
  not_ahead at d b h = ground arith

  admit_until-shut :
      (x : Option ℕ) (d : ℕ) (s t : Session)
      → x ≡ some d
      → d ≤ o.now (suc s.tick)
      → judged (admit_until x o s) ≡ (ok tt, t)
      → t.deadline ≡ none
  unfolding admit_until observe
  admit_until-shut none d s t e late q = cc
  admit_until-shut (some c) d s t e late q =
      let same : c ≡ d = ap (λ y. elim y [ none ↦ c | some z ↦ z ]) e in
      refused-shut (ltb (o.now (suc s.tick)) c && not s.cleanup_failed) _ t
        (not_ahead (o.now (suc s.tick)) c (not s.cleanup_failed)
          (subst (λ y. y ≤ o.now (suc s.tick)) (sym same) late))
        q

  chosen-shut :
      (b : Bool) (d : ℕ) (s t : Session)
      → s.deadline ≡ some d
      → d ≤ o.now (suc s.tick)
      → judged ((if b then revoke_locked else admit_until s.deadline) o s) ≡ (ok tt, t)
      → t.deadline ≡ none
  chosen-shut true d s t e late q = revoke_locked-shut s t q
  chosen-shut false d s t e late q = admit_until-shut s.deadline d s t e late q

  -- A session that is over is taken away when it is asked for.
  pub admit_or_locked-shut :
      (d : ℕ) (s t : Session)
      → s.deadline ≡ some d
      → d ≤ o.now (suc (suc s.tick))
      → admit_or_locked o s ≡ (ok tt, t)
      → t.deadline ≡ none
  unfolding admit_or_locked admit observe judged
  admit_or_locked-shut d s t e late q =
      let s1 : Session = (observe {E = SessionError} o s).1 in
      chosen-shut s1.closing d s1 t e late q

  not_kept :
      (at d : ℕ) (x : Option ℕ)
      → x ≡ some d
      → d ≤ at
      → (if is_some_and (λ d. ltb at d) x then x else none) ≡ none
  not_kept at d none e late = refl
  not_kept at d (some c) e late =
      let same : c ≡ d = ap (λ y. elim y [ none ↦ c | some z ↦ z ]) e in
      dropped c (subst (λ y. y ≤ at) (sym same) late)
    where
      dropped : (c : ℕ) → c ≤ at → (if ltb at c then some c else none) ≡ none
      dropped c h = ground arith

  retain_deadlines-drops :
      (at : ℕ) (id : Text) (d : ℕ) (x : Result SessionError (Unit {0}) × Session) (t : Session)
      → x.1.request_deadlines id ≡ some d
      → d ≤ at
      → resume (λ _. retain_deadlines at) o x ≡ (ok tt, t)
      → t.request_deadlines id ≡ none
  unfolding retain_deadlines
  retain_deadlines-drops at id d (ok u, v) t e late q =
      subst (λ y. y.request_deadlines id ≡ none) (ap (λ y. y.1) q)
        (not_kept at d (v.request_deadlines id) e late)
  retain_deadlines-drops at id d (err z, v) t e late q = absurd (ok-err q)

  -- A deadline of a request that has passed is taken away.
  pub expire_requests-drops :
      (id : Text) (d : ℕ) (s t : Session)
      → s.request_deadlines id ≡ some d
      → d ≤ o.now (suc s.tick)
      → expire_requests o s ≡ (ok tt, t)
      → t.request_deadlines id ≡ none
  unfolding expire_requests observe
  expire_requests-drops id d s t e late q =
      let at = o.now (suc s.tick) in
      let s1 : Session = (observe {E = SessionError} o s).1 in
      retain_deadlines-drops at id d
        (map_error (λ _. SessionError.cleanup_failed)
          (call (λ p io. expire_direct p at s.request_deadlines io)) o s1)
        t e late q
