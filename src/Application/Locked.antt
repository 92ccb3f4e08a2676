-- ===== src/Application/Locked.antt =====
-- What a lock leaves behind.
use vaultwarden_cli.Base.{
  suc, ◌+◌, ◌≡◌, refl, sym, ap, ◌∙◌, subst, Bool, true, false, ◌&&◌, none, Result, ok, err, is_ok,
  is_none, all, ltb, ◌^◌, if◌then◌else◌,
}
use vaultwarden_cli.Host.{Host}
use vaultwarden_cli.State.Types.{ProviderDiagnostic}
use vaultwarden_cli.Store.Epoch.{is_settled, invalidated-settled}
use vaultwarden_cli.Provider.Defs
use vaultwarden_cli.Provider.Settles.{lock-invalidated}
use vaultwarden_cli.Application.Types.{Session, Outside, SessionError}
use vaultwarden_cli.Application.Action.{◌>>◌, lift, check, observe, pure, fail}
use vaultwarden_cli.Application.Authority.{
  revoke, withdrawn, withdraw_authority, clean_up, cleaned, close_admission, await_cleanup,
  publish_revocation, lock,
}
use vaultwarden_cli.Application.Lease.{bind-done, check-done, failed}

module _ ⦃h : Host⦄ where
  -- No session, no authority left, and the epoch of the durable state has ended.
  pub record Withdrawn (s t : Session) : Type 0 where
    pub shut : t.deadline ≡ none
    pub clean : t.cleanup_failed ≡ false
    pub epoch :
        t.provider.store.durable.lifecycle_epoch ≡ s.provider.store.durable.lifecycle_epoch + 1
    pub settled : all (is_settled false) t.provider.store.durable.requests ≡ true

  both : (a b : Bool) → (a && b) ≡ true → b ≡ true
  both true b e = e
  both false b e = cc

  answered_ok : (r : Result ProviderDiagnostic (Unit {0})) → is_ok r ≡ true → r ≡ ok tt
  answered_ok (ok u) e = refl
  answered_ok (err x) e = cc

  uncleaned : Session → Session
  uncleaned y = record y { cleanup_failed = false }

  clean_up-Withdrawn :
      (o : Outside) (s t : Session) → s.deadline ≡ none → clean_up o s ≡ (ok tt, t) → Withdrawn s t
  unfolding clean_up observe cleaned uncleaned
  clean_up-Withdrawn o s t none_left q =
      let asked : Session = (observe {E = SessionError} o s).1 in
      let before : Session = (observe {E = SessionError} o asked).1 in
      let x = Defs.lock before.provider (o.io before.tick) in
      let after : Session = record before { provider = x.1 } in
      let (u, v, p, r) =
        bind-done (check (is_none (o.clear asked.tick) && is_ok x.0) SessionError.cleanup_failed)
          (λ _. cleaned) o after q in
      let (test, same) = check-done _ SessionError.cleanup_failed o after p in
      let fine = answered_ok x.0 (both _ (is_ok x.0) test) in
      let (next, done) =
        invalidated-settled false (o.io before.tick) _ _
          (lock-invalidated before.provider (o.io before.tick) fine) in
      let there : record after { cleanup_failed = false } ≡ t =
        ap uncleaned (sym same) ∙ ap (λ y. y.1) r in
      subst (Withdrawn s) there
        record { shut = none_left; clean = refl; epoch = next; settled = done }

  pub revoke-Withdrawn : (o : Outside) (s t : Session) → revoke o s ≡ (ok tt, t) → Withdrawn s t
  unfolding revoke withdrawn withdraw_authority
  revoke-Withdrawn o s t q =
      let (u, v, p, r) =
        bind-done (check (ltb (suc s.generation) (2 ^ 64)) SessionError.cleanup_failed)
          (λ _. withdrawn) o s q in
      let (_, same) = check-done _ SessionError.cleanup_failed o s p in
      let here : withdrawn o s ≡ (ok tt, t) = subst (λ x. withdrawn o x ≡ (ok tt, t)) same r in
      let w = clean_up-Withdrawn o (withdraw_authority {E = SessionError} o s).1 t refl here in
      record { shut = w.shut; clean = w.clean; epoch = w.epoch; settled = w.settled }

  waited :
      (b : Bool) (o : Outside) (s t : Session) (u : Unit {0})
      → (if b then close_admission >> fail SessionError.cleanup_failed else pure tt) o s ≡ (ok u, t)
      → t ≡ s
  waited true o s t u q = absurd (failed close_admission SessionError.cleanup_failed o s q)
  waited false o s t u q = sym (ap (λ y. y.1) q)

  -- A lock that succeeds leaves no session and no cleanup to do; the durable state has taken the next
  -- epoch, and none of its requests is pending, approved or running, but those in execution.
  pub lock-Withdrawn : (o : Outside) (s t : Session) → lock o s ≡ (ok tt, t) → Withdrawn s t
  unfolding lock publish_revocation observe await_cleanup
  lock-Withdrawn o s t q =
      let s1 : Session = (publish_revocation {E = SessionError} o s).1 in
      let r : Result SessionError (Unit {0}) × Session = revoke o s1 in
      let (u, s3, p, answered) = bind-done await_cleanup (λ _. lift r.0) o r.1 q in
      let seen : Session = (observe {E = SessionError} o r.1).1 in
      let same = waited (o.cleanup_uncertain seen.tick) o seen s3 u p in
      let w = revoke-Withdrawn o s1 r.1 (paired r (ap (λ y. y.0) answered)) in
      subst (Withdrawn s) (sym same ∙ ap (λ y. y.1) answered)
        record { shut = w.shut; clean = w.clean; epoch = w.epoch; settled = w.settled }
    where
      paired : (x : Result SessionError (Unit {0}) × Session) → x.0 ≡ ok tt → x ≡ (ok tt, x.1)
      paired (a, y) e = ap (λ z. (z, y)) e
