-- ===== src/Application/Safety.antt =====
-- What a session promises over any sequence of methods.
use vaultwarden_cli.Base.{
  ℕ, ◌+◌, ◌<◌, ◌≡◌, refl, sym, ap, ◌∙◌, subst, Bool, true, false, not, ◌&&◌, Option, none, some, ok,
  arith, if◌then◌else◌, ltb, List, nat_eq,
}
use vaultwarden_cli.Host.{Host}
use vaultwarden_cli.Application.Types.{Session, Outside, SessionError, Settings}
use vaultwarden_cli.Application.Action.{pure, now, observe}
use vaultwarden_cli.Application.Authority.{
  max_session, admit, admit_until, revoke, revoke_locked, authenticate,
}
use vaultwarden_cli.Application.Lease.{
  ok-err, failed, authenticate-Opened, clock_read, probe_answered, unlock_answered,
}
use vaultwarden_cli.Application.Run.{Method, perform_all, perform_all-Follows}

module _ ⦃h : Host⦄ where
  -- Who is admitted: an open session, looked at before its end.
  pub record Admits (o : Outside) (s t : Session) : Type 0 where
    pub until : ℕ
    pub ends : s.deadline ≡ some until
    pub alive : o.now t.tick < until
    pub clean : s.cleanup_failed ≡ false
    pub admitting : s.closing ≡ false

  passed :
      (b : Bool) (o : Outside) (s t : Session)
      → (if b then pure tt else revoke_locked) o s ≡ (ok tt, t)
      → (b ≡ true) × (t ≡ s)
  unfolding revoke_locked
  passed true o s t q = (refl, sym (ap (λ x. x.1) q))
  passed false o s t q = absurd (failed revoke SessionError.locked o s q)

  until_done :
      (d : Option ℕ) (o : Outside) (s t : Session)
      → admit_until d o s ≡ (ok tt, t)
      → (until : ℕ) × (d ≡ some until) × (o.now t.tick < until) × (s.cleanup_failed ≡ false)
  unfolding admit_until observe
  until_done none o s t q = absurd (ok-err q)
  until_done (some d) o s t q =
      let s1 : Session = (now {E = SessionError} o s).1 in
      let (b, at) = passed (ltb (o.now s1.tick) d && not s1.cleanup_failed) o s1 t q in
      (d, refl, subst (λ x. o.now x.tick < d) (sym at) (ground arith), ground arith)

  choice :
      (closing : Bool) (d : Option ℕ) (o : Outside) (s t : Session)
      → (if closing then revoke_locked else admit_until d) o s ≡ (ok tt, t)
      → (closing ≡ false) × (admit_until d o s ≡ (ok tt, t))
  unfolding revoke_locked
  choice true d o s t q = absurd (failed revoke SessionError.locked o s q)
  choice false d o s t q = (refl, q)

  pub admit-Admits : (o : Outside) (s t : Session) → admit o s ≡ (ok tt, t) → Admits o s t
  unfolding admit observe
  admit-Admits o s t q =
      let s1 : Session = (observe {E = SessionError} o s).1 in
      let (quiet, rest) = choice s1.closing s.deadline o s1 t q in
      let (d, ends, alive, clean) = until_done s.deadline o s1 t rest in
      record { until = d; ends = ends; alive = alive; clean = clean; admitting = ground arith }

  some-same : {a b : ℕ} → ◌≡◌ {A = Option ℕ} (some a) (some b) → a ≡ b
  some-same e = cc

  module _ (c : Settings) (o : Outside) where
    -- If an authentication succeeds, the backend answered a lifetime to it, and whatever modelled
    -- methods are called afterwards, whoever is admitted in the same generation is admitted less than
    -- 15 minutes, and less than that lifetime, after what the clock read before the backend was
    -- probed and asked.
    pub session-lease :
        (s t v : Session) (ms : List Method)
        → authenticate o s ≡ (ok tt, t)
        → (perform_all c ms o t).generation ≡ t.generation
        → admit o (perform_all c ms o t) ≡ (ok tt, v)
        → (o.probe_compatibility (probe_answered s) ≡ none)
          × (lifetime : ℕ) × (o.unlock (unlock_answered s) ≡ ok lifetime)
          × (o.now v.tick < o.now (clock_read s) + max_session)
          × (o.now v.tick < o.now (clock_read s) + lifetime)
    session-lease s t v ms opened same admitted =
        let a = authenticate-Opened o s t opened in
        let f = perform_all-Follows c ms o t in
        let (kept, _) = f.lease refl (sym same) in
        let b = admit-Admits o (perform_all c ms o t) v admitted in
        let until : b.until ≡ a.open_now.until = some-same (sym b.ends ∙ kept ∙ a.open_now.ends) in
        (
          a.compatible,
          a.lifetime,
          a.unlocked,
          omega (arith, b.alive, a.open_now.bounded, until),
          omega (arith, b.alive, a.open_now.given, until),
        )
