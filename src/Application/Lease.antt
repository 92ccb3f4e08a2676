-- ===== src/Application/Lease.antt =====
-- How long a session admits anyone.
use vaultwarden_cli.Base.{
  ℕ, suc, ◌+◌, ◌≤◌, ◌<◌, ◌≡◌, refl, sym, ap, subst, Bool, true, false, not, Option, none, some,
  Result, ok, err, arith, if◌then◌else◌, leb, ◌==◌, nat_eq, ltb, ◌^◌, ◌&&◌, is_none, is_ok,
}
use vaultwarden_cli.Host.{Host}
use vaultwarden_cli.Provider.Defs
use vaultwarden_cli.Application.Types.{Session, Outside, SessionError}
use vaultwarden_cli.Application.Action.{
  Action, fail, ◌>>=◌, ◌>>◌, resume, attempt, check, gets, now, observe, revocations, ask, call,
  lift, unless,
}
use vaultwarden_cli.Application.Authority.{
  max_session, add_duration, open_session, revoke, revoke_locked, unlocked_for, unlock_backend,
  authenticate, opened_at, opening, withdrawn, withdraw_authority, clean_up, cleaned,
}
use vaultwarden_cli.Application.Follows.{Hold, Follows, Keeps, keeping}
use vaultwarden_cli.Application.Opening.{revoke-grows, unlocked_for-Keeps}

pub ok-err :
    {E A : Type 0} {e : E} {a : A} {s t : Session}
    → ◌≡◌ {A = Result E A × Session} (err e, s) (ok a, t)
    → ⊥
ok-err r = cc

resumed :
    {E A B : Type 0} (f : A → Action E B) (o : Outside) (x : Result E A × Session) {b : B}
    {t : Session}
    → resume f o x ≡ (ok b, t)
    → (a : A) × (u : Session) × (x ≡ (ok a, u)) × (f a o u ≡ (ok b, t))
resumed f o (ok a, u) q = (a, u, refl, q)
resumed f o (err e, u) q = absurd (ok-err q)

-- An action that succeeds has a first part that does.
pub bind-done :
    {E A B : Type 0} (m : Action E A) (f : A → Action E B) (o : Outside) (s : Session) {b : B}
    {t : Session}
    → (m >>= f) o s ≡ (ok b, t)
    → (a : A) × (u : Session) × (m o s ≡ (ok a, u)) × (f a o u ≡ (ok b, t))
bind-done m f o s q = resumed f o (m o s) q

pub failed :
    {E A : Type 0} (m : Action E (Unit {0})) (e : E) (o : Outside) (s : Session) {a : A}
    {t : Session}
    → (m >> fail e) o s ≡ (ok a, t)
    → ⊥
failed m e o s q = let (u, v, p, r) = bind-done m (λ _. fail e) o s q in ok-err r

pub check-done :
    {E : Type 0} (b : Bool) (e : E) (o : Outside) (s : Session) {u : Unit {0}} {t : Session}
    → check b e o s ≡ (ok u, t)
    → (b ≡ true) × (t ≡ s)
check-done true e o s q = (refl, sym (ap (λ x. x.1) q))
check-done false e o s q = absurd (ok-err q)

-- What an authentication observes, one tick each: the closing flag, the cleanups of the backend and of
-- the store, the clock, the revocations, the probe of the backend, and its answer to the password.
abbrev pub clock_read : Session → ℕ
clock_read s = suc (suc (suc (suc s.tick)))

abbrev pub probe_answered : Session → ℕ
probe_answered s = suc (suc (clock_read s))

abbrev pub unlock_answered : Session → ℕ
unlock_answered s = suc (probe_answered s)

module _ ⦃h : Host⦄ where
  -- A session that is open: until when, and that it is not over yet.
  pub record Open (o : Outside) (started lifetime : ℕ) (t : Session) : Type 0 where
    pub until : ℕ
    pub ends : t.deadline ≡ some until
    pub bounded : until ≤ started + max_session
    pub given : until ≤ started + lifetime
    pub alive : o.now t.tick < until

  chosen :
      (b : Bool) (d epoch : ℕ) (o : Outside) (s : Session) {t : Session}
      → (if b then revoke_locked else open_session d epoch) o s ≡ (ok tt, t)
      → (b ≡ false) × (t ≡ record s { deadline = some d; session_epoch = epoch })
  unfolding revoke_locked open_session
  chosen true d epoch o s q = absurd (failed revoke SessionError.locked o s q)
  chosen false d epoch o s q = (refl, sym (ap (λ x. x.1) q))

  opened :
      (o : Outside) (epoch started lifetime d : ℕ) (s t : Session)
      → (d ≤ started + max_session) × (d ≤ started + lifetime)
      → opened_at epoch (some d) o s ≡ (ok tt, t)
      → Open o started lifetime t
  unfolding opened_at observe
  opened o epoch started lifetime d s t (b, l) e =
      let (still, at) = chosen _ d epoch o _ e in
      record {
        until = d;
        ends = ap (λ x. x.deadline) at;
        bounded = b;
        given = l;
        alive = subst (λ k. o.now k < d) (sym (ap (λ x. x.tick) at)) (ground arith);
      }

  added :
      (started lifetime : ℕ) {d : ℕ}
      → add_duration started (if leb lifetime max_session then lifetime else max_session) ≡ some d
      → (d ≤ started + max_session) × (d ≤ started + lifetime)
  added started lifetime e = (ground arith, ground arith)

  lifetime_given :
      (o : Outside) (started lifetime epoch : ℕ) (b : Bool) (x : Option ℕ) (s t : Session)
      → ((d : ℕ) → x ≡ some d → (d ≤ started + max_session) × (d ≤ started + lifetime))
      → (if b then revoke >> fail SessionError.authentication_failed else opened_at epoch x) o s
        ≡ (ok tt, t)
      → Open o started lifetime t
  unfolding opened_at
  lifetime_given o started lifetime epoch true x s t k q =
      absurd (failed revoke SessionError.authentication_failed o s q)
  lifetime_given o started lifetime epoch false none s t k q =
      absurd (failed revoke SessionError.authentication_failed o s q)
  lifetime_given o started lifetime epoch false (some d) s t k q =
      opened o epoch started lifetime d s t (k d refl) q

  unlocked_for-Open :
      (o : Outside) (started epoch : ℕ) (r : Result SessionError ℕ) (s t : Session)
      → unlocked_for started epoch r o s ≡ (ok tt, t)
      → (n : ℕ) × (r ≡ ok n) × Open o started n t
  unfolding unlocked_for
  unlocked_for-Open o started epoch (err e) s t q = absurd (failed revoke e o s q)
  unlocked_for-Open o started epoch (ok n) s t q =
      (n, refl, lifetime_given o started n epoch (n == 0) _ s t (λ d e. added started n e) q)

  unless-done :
      (x : Option SessionError) (k : Action SessionError ℕ) (n : ℕ) (o : Outside) (s : Session)
      → ((unless x >> k) o s).0 ≡ ok n
      → (x ≡ none) × ((k o s).0 ≡ ok n)
  unless-done none k n o s e = (refl, e)
  unless-done (some z) k n o s e = cc

  unlock_backend-done :
      (o : Outside) (s : Session) (n : ℕ)
      → (unlock_backend o s).0 ≡ ok n
      → (o.probe_compatibility (suc s.tick) ≡ none) × (o.unlock (suc (suc s.tick)) ≡ ok n)
  unfolding unlock_backend observe
  unlock_backend-done o s n e =
      unless-done (o.probe_compatibility (suc s.tick)) (ask (λ o n. o.unlock n) >>= λ r. lift r) n o
        (observe {E = SessionError} o s).1 e

  checked :
      {E A : Type 0} (b : Bool) (e : E) (m : Action E A) (o : Outside) (s : Session) {a : A}
      {t : Session}
      → (check b e >> m) o s ≡ (ok a, t)
      → m o s ≡ (ok a, t)
  checked true e m o s q = q
  checked false e m o s q = absurd (ok-err q)

  withdrawn-ticks :
      (o : Outside) (s t : Session) → withdrawn o s ≡ (ok tt, t) → suc (suc s.tick) ≡ t.tick
  unfolding withdrawn withdraw_authority clean_up cleaned observe
  withdrawn-ticks o s t q =
      let asked = (observe {E = SessionError} o (withdraw_authority {E = SessionError} o s).1).1 in
      let x = attempt {F = SessionError} (call Defs.lock) o asked in
      ap (λ y. y.1.tick)
        (checked (is_none (o.clear asked.tick) && is_ok (call Defs.lock o asked).0)
          SessionError.cleanup_failed cleaned o x.1 q)

  revoke-ticks : (o : Outside) (s t : Session) → revoke o s ≡ (ok tt, t) → suc (suc s.tick) ≡ t.tick
  unfolding revoke
  revoke-ticks o s t q =
      withdrawn-ticks o s t
        (checked (ltb (suc s.generation) (2 ^ 64)) SessionError.cleanup_failed withdrawn o s q)

  -- An attempt that succeeds opens a session in another generation. It lasts 15 minutes at most, and
  -- at most as long as the backend said, from the clock's reading before the backend was asked.
  pub record Opened (o : Outside) (s t : Session) : Type 0 where
    pub ticks : unlock_answered s ≤ t.tick
    pub grown : suc s.generation ≤ t.generation
    pub compatible : o.probe_compatibility (probe_answered s) ≡ none
    pub lifetime : ℕ
    pub unlocked : o.unlock (unlock_answered s) ≡ ok lifetime
    pub open_now : Open o (o.now (clock_read s)) lifetime t

  attempted-Keeps :
      (started epoch : ℕ) → Keeps Hold.loose (attempt unlock_backend >>= unlocked_for started epoch)
  unfolding unlock_backend
  attempted-Keeps started epoch = search (keeping, unlocked_for-Keeps) depth 8

  unless-ticks :
      (x : Option SessionError) (k : Action SessionError ℕ) (n : ℕ) (o : Outside) (s : Session)
      → ((unless x >> k) o s).0 ≡ ok n
      → ((unless x >> k) o s).1.tick ≡ (k o s).1.tick
  unless-ticks none k n o s e = refl
  unless-ticks (some z) k n o s e = cc

  unlock_backend-ticks :
      (o : Outside) (s : Session) (n : ℕ)
      → (unlock_backend o s).0 ≡ ok n
      → (unlock_backend o s).1.tick ≡ suc (suc s.tick)
  unfolding unlock_backend observe
  unlock_backend-ticks o s n e =
      unless-ticks (o.probe_compatibility (suc s.tick)) (ask (λ o n. o.unlock n) >>= λ r. lift r) n
        o (observe {E = SessionError} o s).1 e

  opening-Opened :
      (o : Outside) (s r t : Session)
      → suc (suc (suc s.tick)) ≡ r.tick
      → suc s.generation ≤ r.generation
      → opening o r ≡ (ok tt, t)
      → Opened o s t
  unfolding opening observe
  opening-Opened o s r t at grows q =
      let r2 : Session = (revocations {E = SessionError} o (now {E = SessionError} o r).1).1 in
      let x = unlock_backend o r2 in
      let (n, answer, found) =
        unlocked_for-Open o (o.now (suc r.tick)) r2.revocation_epoch x.0 x.1 t q in
      let (compatible, unlocked) = unlock_backend-done o r2 n answer in
      let g : Follows Hold.loose r2 t =
        subst (λ y. Follows Hold.loose r2 y.1) q
          ((attempted-Keeps (o.now (suc r.tick)) r2.revocation_epoch).follows o r2) in
      let f : Follows Hold.loose x.1 t =
        subst (λ y. Follows Hold.loose x.1 y.1) q
          ((unlocked_for-Keeps (o.now (suc r.tick)) r2.revocation_epoch x.0).follows o x.1) in
      record {
        ticks = omega (arith, at, unlock_backend-ticks o r2 n answer, f.ticks);
        grown = omega (arith, grows, g.later);
        compatible =
            subst (λ k. o.probe_compatibility (suc (suc (suc k))) ≡ none) (sym at) compatible;
        lifetime = n;
        unlocked = subst (λ k. o.unlock (suc (suc (suc (suc k)))) ≡ ok n) (sym at) unlocked;
        open_now = subst (λ k. Open o (o.now (suc k)) n t) (sym at) found;
      }

  -- An authentication that succeeds has done so.
  pub authenticate-Opened :
      (o : Outside) (s t : Session) → authenticate o s ≡ (ok tt, t) → Opened o s t
  unfolding authenticate observe
  authenticate-Opened o s t q =
      let s1 : Session = (observe {E = SessionError} o s).1 in
      let tried : (revoke >> opening) o s1 ≡ (ok tt, t) =
        checked (not s1.cleanup_failed) SessionError.cleanup_failed (revoke >> opening) o s1 (
          checked (not s1.closing) SessionError.locked
            (gets (λ x. x.cleanup_failed) >>= λ b.
              check (not b) SessionError.cleanup_failed >> (revoke >> opening))
            o s1 q) in
      let (u, r, p, rest) = bind-done revoke (λ _. opening) o s1 tried in
      opening-Opened o s r t (revoke-ticks o s1 r p)
        (subst (λ x. suc s.generation ≤ x.1.generation) p (revoke-grows o s1 (ap (λ y. y.0) p)))
        rest
