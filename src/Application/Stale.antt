-- ===== src/Application/Stale.antt =====
-- A decision that was prepared before the session was withdrawn.
use vaultwarden_cli.Base.{
  ℕ, ◌≤◌, ◌<◌, ◌≡◌, refl, sym, ap, ◌∙◌, subst, Bool, true, false, not, ◌&&◌, Option, Result, ok,
  err, is_ok, arith, leb, List, Text, ◌==◌, nat_eq, is_some_and,
}
use vaultwarden_cli.Host.{Host}
use vaultwarden_cli.Request.Types.{RequestError, DirectStatus, ApprovalBinding, ApprovalMethod}
use vaultwarden_cli.Application.Types.{Session, Outside, SessionError, Settings}
use vaultwarden_cli.Application.Action.{Action, observe, ◌>>=◌, ◌>>◌, now, lift}
use vaultwarden_cli.Application.Authority.{revoke, lock, publish_revocation, await_cleanup}
use vaultwarden_cli.Application.Decision.{
  PreparedApproval, prepared_now, refreshed, prepare_approval, check_current, commit_current,
  commit_decision,
}
use vaultwarden_cli.Application.Kept.{publish_revocation-Keeps, await_cleanup-Keeps}
use vaultwarden_cli.Application.Opening.{revoke-grows}
use vaultwarden_cli.Application.Methods.{refreshed-Keeps}
use vaultwarden_cli.Application.Lease.{bind-done, check-done}
use vaultwarden_cli.Application.Follows.{Hold}
use vaultwarden_cli.Application.Run.{Method, perform_all, perform_all-Follows}

-- What every success of an action satisfies.
record Ends {E A : Type 0} (P : A → Session → Type 0) (m : Action E A) : Type 0 where
  ends : (o : Outside) (s : Session) (a : A) (t : Session) → m o s ≡ (ok a, t) → P a t

Ends-bind :
    {E A B : Type 0} {P : B → Session → Type 0} (m : Action E A) (f : A → Action E B)
    → ((a : A) → Ends P (f a))
    → Ends P (m >>= f)
Ends-bind m f k = record {
  ends = λ o s b t q. let (a, u, _, r) = bind-done m f o s q in (k a).ends o u b t r;
}

OfGeneration : PreparedApproval → Session → Type 0
OfGeneration p t = p.generation ≡ t.generation

both : (a b : Bool) → (a && b) ≡ true → (a ≡ true) × (b ≡ true)
both true b e = (refl, e)
both false b e = cc

answer-same :
    {E A : Type 0} {a b : A} {s t : Session}
    → ◌≡◌ {A = Result E A × Session} (ok a, s) (ok b, t)
    → (a ≡ b) × (s ≡ t)
answer-same q = (cc, ap (λ x. x.1) q)

module _ ⦃h : Host⦄ where
  prepared_now-Ends : (b : ApprovalBinding) (w : Bool) → Ends OfGeneration (prepared_now b w)
  unfolding prepared_now OfGeneration
  prepared_now-Ends b w = record {
    ends = λ o s p t q.
        let (same, there) = answer-same q in
        ap (λ x. x.generation) (sym same) ∙ ap (λ x. x.generation) there;
  }

  prepare-Ends :
      (c : Settings) (owner : ℕ) (id : Text) → Ends OfGeneration (prepare_approval c owner id)
  unfolding prepare_approval
  prepare-Ends c owner id = search (Ends-bind, prepared_now-Ends) depth 16

  prepare-generation :
      (c : Settings) (owner : ℕ) (id : Text) (o : Outside) (s t : Session) (p : PreparedApproval)
      → prepare_approval c owner id o s ≡ (ok p, t)
      → p.generation ≡ t.generation
  unfolding OfGeneration
  prepare-generation c owner id o s t p q = (prepare-Ends c owner id).ends o s p t q

  check_current-generation :
      (p : PreparedApproval) (o : Outside) (s t : Session) (u : Unit {0})
      → check_current p o s ≡ (ok u, t)
      → s.generation ≡ p.generation
  unfolding check_current observe
  check_current-generation p o s t u q =
      let s1 : Session = (now {E = RequestError} o s).1 in
      let late : Bool = is_some_and (λ d. leb d (o.now s1.tick)) p.companion_deadline in
      let (current, _) =
        check-done (s1.generation == p.generation && not late) RequestError.locked o s1 q in
      (nat_eq.eq_iff s1.generation p.generation).0 (both _ (not late) current).0

  commit-generation :
      (c : Settings) (p : PreparedApproval) (approve : Bool) (m : Option ApprovalMethod)
      (o : Outside) (s t : Session) (d : DirectStatus)
      → commit_decision c p approve m o s ≡ (ok d, t)
      → s.generation ≤ p.generation
  unfolding commit_decision
  commit-generation c p approve m o s t d q =
      let (_, s1, first, q1) =
        bind-done refreshed (λ _. check_current p >> commit_current c p approve m) o s q in
      let (u, s2, second, _) =
        bind-done (check_current p) (λ _. commit_current c p approve m) o s1 q1 in
      subst (λ n. s.generation ≤ n) (check_current-generation p o s1 s2 u second)
        (subst (λ x. s.generation ≤ x.generation) (ap (λ x. x.1) first)
          (refreshed-Keeps.follows o s).later)

  -- A session that has been revoked answers with another generation.
  lock-grows : (o : Outside) (s t : Session) → lock o s ≡ (ok tt, t) → s.generation < t.generation
  unfolding lock publish_revocation observe
  lock-grows o s t q =
      let s1 : Session = (publish_revocation {E = SessionError} o s).1 in
      let r : Result SessionError (Unit {0}) × Session = revoke o s1 in
      let (_, s3, waited, answered) = bind-done await_cleanup (λ _. lift r.0) o r.1 q in
      let grows = revoke-grows o s1 (ap (λ x. x.0) answered) in
      let later = (publish_revocation-Keeps {E = SessionError} Hold.kept).follows o s in
      let wait : r.1.generation ≤ s3.generation =
        subst (λ x. r.1.generation ≤ x.generation) (ap (λ x. x.1) waited)
          (await_cleanup-Keeps.follows o r.1).later in
      let there : s3.generation ≡ t.generation = ap (λ x. x.1.generation) answered in
      omega (arith, grows, later.later, wait, there)

  module _ (c : Settings) (o : Outside) where
    -- If an approval is prepared, some methods are called, a lock succeeds, and any methods are called
    -- after it, then the approval is not committed: neither as an approval nor as a denial.
    pub approval-stale :
        (owner : ℕ) (id : Text) (p : PreparedApproval) (s t u : Session)
        (before after : List Method) (approve : Bool) (m : Option ApprovalMethod)
        → prepare_approval c owner id o s ≡ (ok p, t)
        → lock o (perform_all c before o t) ≡ (ok tt, u)
        → is_ok (commit_decision c p approve m o (perform_all c after o u)).0 ≡ false
    approval-stale owner id p s t u before after approve m prepared locked = refused _ refl
      where
        old : p.generation ≡ t.generation
        old = prepare-generation c owner id o s t p prepared

        w : Session
        w = perform_all c after o u

        newer : p.generation < w.generation
        newer = omega (
          arith,
          old,
          (perform_all-Follows c before o t).later,
          lock-grows o _ u locked,
          (perform_all-Follows c after o u).later,
        )

        refused :
            (x : Result RequestError DirectStatus × Session)
            → commit_decision c p approve m o w ≡ x
            → is_ok x.0 ≡ false
        refused (err e, v) q = refl
        refused (ok d, v) q =
            absurd (omega (arith, newer, commit-generation c p approve m o w v d q))
