-- ===== src/Application/Rounds.antt =====
-- What a refresh takes away when something was crossed.
use vaultwarden_cli.Base.{
  ℕ, suc, ◌+◌, ◌%◌, ◌^◌, ◌≤◌, ◌<◌, ◌≡◌, refl, sym, ap, ◌∙◌, subst, Bool, true, false, not, Option,
  none, some, Result, ok, err, arith, Text, ◌⊎◌, inl, inr, if◌then◌else◌, ◌&&◌, is_some, ◌==◌,
  nat_eq,
}
use vaultwarden_cli.Host.{Host}
use vaultwarden_cli.Application.Types.{Session, Outside, SessionError}
use vaultwarden_cli.Application.Action.{pure, ◌>>◌, observe}
use vaultwarden_cli.Application.Authority.{revoke, admit_or_locked, expire_requests}
use vaultwarden_cli.Application.Queries.{is_revoked, refresh_session}
use vaultwarden_cli.Application.Lease.{ok-err, bind-done}
use vaultwarden_cli.Application.Ending.{
  Left, Ends, Ends-refl, Ends-trans, Ending, revoke-Ending, admit_or_locked-Ending,
  expire_requests-Ending,
}
use vaultwarden_cli.Application.Drops.{revoke-shut, admit_or_locked-shut, expire_requests-drops}

pub left_none : {A : Type 0} (a b : Option A) → Left a b → a ≡ none → b ≡ none
left_none a b (inl e) f = e
left_none a b (inr e) f = e ∙ f

pub unmapped :
    {E F A : Type 0} (g : E → F) (x : Result E A × Session) {a : A} {t : Session}
    → ◌≡◌ {A = Result F A × Session} (elim x.0 [ ok a ↦ ok a | err e ↦ err (g e) ], x.1) (ok a, t)
    → x ≡ (ok a, t)
unmapped g (ok b, s) q = cc
unmapped g (err e, s) q = absurd (ok-err q)

module _ ⦃h : Host⦄ (o : Outside) (published : ℕ → ℕ)
    (step : (n : ℕ) → (published n + o.revokes n) % 2 ^ 64 ≡ published (suc n))
    (grows : (m n : ℕ) → m ≤ n → published m ≤ published n)
    (clock : (m n : ℕ) → m ≤ n → o.now m ≤ o.now n) where
  -- An open session that is over, by the clock or by a revocation that was published.
  pub record Over (s : Session) : Type 0 where
    pub until : ℕ
    pub ends : s.deadline ≡ some until
    pub crossed : (until ≤ o.now s.tick) ⊎ (s.session_epoch < published s.tick)

  -- A request whose deadline has passed.
  pub record Late (id : Text) (s : Session) : Type 0 where
    pub until : ℕ
    pub ends : s.request_deadlines id ≡ some until
    pub passed : until ≤ o.now s.tick

  withdrawn_or_same :
      (b : Bool) (s v : Session)
      → (if b then revoke else pure tt) o s ≡ (ok tt, v)
      → (v.deadline ≡ none) ⊎ ((b ≡ false) × (v ≡ s))
  withdrawn_or_same true s v p =
      inl (subst (λ y. y.deadline ≡ none) (ap (λ y. y.1) p) (revoke-shut o s (ap (λ y. y.0) p)))
  withdrawn_or_same false s v p = inr (refl, sym (ap (λ y. y.1) p))

  pub shut-stays :
      (v w : Session) → Ends o published step v w → v.deadline ≡ none → w.deadline ≡ none
  shut-stays v w e n = left_none v.deadline w.deadline e.session n

  two_steps :
      (s : Session)
      → s.revocation_epoch ≡ published s.tick
      → (s.revocation_epoch + o.revokes s.tick) % 2 ^ 64 ≡ published (suc s.tick)
  two_steps s e = ap (λ n. (n + o.revokes s.tick) % 2 ^ 64) e ∙ step s.tick

  still_revoked :
      (x : Option ℕ) (d m n : ℕ) → x ≡ some d → m < n → (is_some x && not (n == m)) ≡ false → ⊥
  still_revoked none d m n e l f = cc
  still_revoked (some c) d m n e l f = ground arith

  unrevoked-shut :
      (s w : Session)
      → s.revocation_epoch ≡ published s.tick
      → Over s
      → let s1 : Session = (observe {E = SessionError} o s).1 in
        is_revoked s1.revocation_epoch s1 ≡ false
        → admit_or_locked o (observe {E = SessionError} o s).1 ≡ (ok tt, w)
        → w.deadline ≡ none
  unfolding observe is_revoked
  unrevoked-shut s w counted over f p = elim over.crossed [
    | inl passed ↦
        let late = clock s.tick (suc (suc (suc s.tick))) (omega arith) in
        admit_or_locked-shut o over.until _ w over.ends (omega (arith, passed, late)) p
    | inr before ↦
        let next = grows s.tick (suc s.tick) (omega arith) in
        absurd (
          still_revoked s.deadline over.until s.session_epoch _ over.ends
            (subst (λ n. s.session_epoch < n) (sym (two_steps s counted))
              (omega (arith, before, next)))
            f)
  ]

  -- A refresh takes away a session that is over.
  pub refreshed-shut :
      (s t : Session)
      → s.revocation_epoch ≡ published s.tick
      → Over s
      → refresh_session o s ≡ (ok tt, t)
      → t.deadline ≡ none
  unfolding refresh_session observe
  refreshed-shut s t counted over q =
      let s1 : Session = (observe {E = SessionError} o s).1 in
      let b = is_revoked s1.revocation_epoch s1 in
      let (u, v, p, r) =
        bind-done (if b then revoke else pure tt) (λ _. admit_or_locked >> expire_requests) o s1
          q in
      let (u', w, p', r') = bind-done admit_or_locked (λ _. expire_requests) o v r in
      let admitted : Ends o published step v w =
        subst (λ x. Ends o published step v x.1) p'
          ((admit_or_locked-Ending o published step).ending v) in
      let expired : Ends o published step w t =
        subst (λ x. Ends o published step w x.1) r'
          ((expire_requests-Ending o published step).ending w) in
      shut-stays w t expired (elim (withdrawn_or_same b s1 v p) [
        | inl n ↦ shut-stays v w admitted n
        | inr (f, same) ↦
            unrevoked-shut s w counted over f
              (subst (λ y. admit_or_locked o y ≡ (ok tt, w)) same p')
      ])

  dropped :
      (id : Text) (d : ℕ) (s w t : Session)
      → s.request_deadlines id ≡ some d
      → d ≤ o.now (suc w.tick)
      → Left (s.request_deadlines id) (w.request_deadlines id)
      → Ends o published step w t
      → expire_requests o w ≡ (ok tt, t)
      → t.request_deadlines id ≡ none
  dropped id d s w t e late (inl gone) kept q = left_none _ _ (kept.requests id) gone
  dropped id d s w t e late (inr same) kept q = expire_requests-drops o id d w t (same ∙ e) late q

  -- A refresh takes away a deadline of a request that has passed.
  pub refreshed-drops :
      (id : Text) (s t : Session)
      → Late id s
      → refresh_session o s ≡ (ok tt, t)
      → t.request_deadlines id ≡ none
  unfolding refresh_session observe
  refreshed-drops id s t l q =
      let s1 : Session = (observe {E = SessionError} o s).1 in
      let b = is_revoked s1.revocation_epoch s1 in
      let (u, v, p, r) =
        bind-done (if b then revoke else pure tt) (λ _. admit_or_locked >> expire_requests) o s1
          q in
      let (u', w, p', r') = bind-done admit_or_locked (λ _. expire_requests) o v r in
      let first : Ends o published step s1 v =
        subst (λ x. Ends o published step s1 x.1) p ((tried b).ending s1) in
      let admitted : Ends o published step v w =
        subst (λ x. Ends o published step v x.1) p'
          ((admit_or_locked-Ending o published step).ending v) in
      let expired : Ends o published step w t =
        subst (λ x. Ends o published step w x.1) r'
          ((expire_requests-Ending o published step).ending w) in
      let before = Ends-trans o published step s1 v w first admitted in
      let later = clock s.tick (suc w.tick) (omega (arith, before.later)) in
      dropped id l.until s w t l.ends (omega (arith, l.passed, later)) (before.requests id) expired
        r'
    where
      tried : (b : Bool) → Ending o published step (if b then revoke else pure tt)
      tried true = revoke-Ending o published step
      tried false = record { ending = λ s. Ends-refl o published step s }
