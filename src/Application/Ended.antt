-- ===== src/Application/Ended.antt =====
-- The loop of `signed_agent_status` ends.
use vaultwarden_cli.Base.{
  ℕ, zero, suc, ◌+◌, ◌%◌, ◌^◌, ◌≤◌, ◌<◌, ◌≡◌, refl, sym, ap, ◌∙◌, subst, Bool, true, false, not,
  Option, none, some, Result, ok, err, arith, Text, List, ◌⊎◌, inl, inr, if◌then◌else◌, ◌&&◌,
  is_some, is_some_and, leb, ◌==◌, nat_eq, leb→le,
}
use vaultwarden_cli.Host.{Host}
use vaultwarden_cli.Request.Types.{AgentOwner, DirectStatus, RequestError}
use vaultwarden_cli.Protocol.{AgentRejection}
use vaultwarden_cli.Store.{Io}
use vaultwarden_cli.Provider.Defs.{Provider}
use vaultwarden_cli.Provider.Signed.{agent_status, rejection_of}
use vaultwarden_cli.Application.Types.{Session, Outside, request_error}
use vaultwarden_cli.Application.Action.{resume, pure, ◌>>=◌, ◌>>◌, map_error, observe, read}
use vaultwarden_cli.Application.Queries.{
  is_waiting, is_revoked, refresh_session, refresh, is_settled_for, status_loop, reading_error,
  max_rounds,
}
use vaultwarden_cli.Application.Ending.{
  Left, Ends, refresh-Ending, is_settled_for-Ending, read-Ending,
}
use vaultwarden_cli.Application.Rounds.{Over, Late, unmapped, refreshed-shut, refreshed-drops}

-- The deadlines that a query of a request may still cross.
count : Option ℕ → ℕ
count none = 0
count (some d) = 1

ahead : Text → Session → ℕ
ahead id s = count s.deadline + count (s.request_deadlines id)

Left-count : (a b : Option ℕ) → Left a b → count b ≤ count a
unfolding count
Left-count a b (inl e) = rw e omega arith
Left-count a b (inr e) = rw e omega arith

some_and :
    (x : Option ℕ) (at : ℕ)
    → is_some_and (λ d. leb d at) x ≡ true
    → (d : ℕ) × (x ≡ some d) × (d ≤ at)
some_and none at e = cc
some_and (some d) at e = (d, refl, leb→le d at e)

open_and :
    (x : Option ℕ) (n m : ℕ)
    → (is_some x && not (n == m)) ≡ true
    → (d : ℕ) × (x ≡ some d) × (n ≡ m → ⊥)
open_and none n m e = cc
open_and (some d) n m e = (d, refl, λ same. ground arith)

last : (a b : Bool) → (a && b) ≡ true → b ≡ true
last true b e = e
last false b e = cc

one_crossed :
    (a b c : Bool) → (not a && not b && not c) ≡ false → (a ≡ true) ⊎ ((b ≡ true) ⊎ (c ≡ true))
one_crossed true b c e = inl refl
one_crossed false true c e = inr (inl refl)
one_crossed false false true e = inr (inr refl)
one_crossed false false false e = cc

strictly : (m n : ℕ) → m ≤ n → (n ≡ m → ⊥) → m < n
strictly m n l other = omega (arith, l, other)

module _ ⦃h : Host⦄ (o : Outside) (published : ℕ → ℕ)
    (step : (n : ℕ) → (published n + o.revokes n) % 2 ^ 64 ≡ published (suc n))
    (grows : (m n : ℕ) → m ≤ n → published m ≤ published n)
    (clock : (m n : ℕ) → m ≤ n → o.now m ≤ o.now n) where
  -- The count of revocations is right, and the session was opened after some of them.
  unfoldable pub Counted : Session → Type 0
  Counted s = (s.revocation_epoch ≡ published s.tick) × (s.session_epoch ≤ published s.tick)

  pub Counted-Ends : (s t : Session) → Ends o published step s t → Counted s → Counted t
  unfolding Counted
  Counted-Ends s t e (c, l) =
      let more = grows s.tick t.tick e.later in
      (e.counted c, subst (λ n. n ≤ published t.tick) (sym e.epoch) (omega (arith, more, l)))

  ahead-Ends : (id : Text) (s t : Session) → Ends o published step s t → ahead id t ≤ ahead id s
  unfolding ahead
  ahead-Ends id s t e =
      let first = Left-count s.deadline t.deadline e.session in
      let second = Left-count (s.request_deadlines id) (t.request_deadlines id) (e.requests id) in
      omega (arith, first, second)

  crossing :
      (id : Text) (status : DirectStatus) (s : Session)
      → Counted s
      → (is_settled_for id status o s).0 ≡ ok false
      → let t = (is_settled_for id status o s).1 in
        Over o published step grows clock t ⊎ Late o published step grows clock id t
  unfolding is_settled_for is_revoked observe Counted
  crossing id status s (c, l) e =
      let at = o.now (suc s.tick) in
      let on = clock (suc s.tick) (suc (suc s.tick)) (omega arith) in
      elim (one_crossed _ _ _ (ap (λ x. elim x [ ok b ↦ b | err z ↦ true ]) e)) [
        | inl p ↦
            let (d, found, past) = some_and s.deadline at p in
            inl record { until = d; ends = found; crossed = inl (omega (arith, past, on)) }
        | inr (inl p) ↦
            let (d, found, past) =
              some_and (s.request_deadlines id) at (last (is_waiting status) _ p) in
            inr record { until = d; ends = found; passed = omega (arith, past, on) }
        | inr (inr p) ↦
            let (d, found, other) = open_and s.deadline _ s.session_epoch p in
            inl record {
              until = d;
              ends = found;
              crossed = inr (
                  strictly s.session_epoch (published (suc (suc s.tick)))
                    (omega (arith, l, grows s.tick (suc (suc s.tick)) (omega arith)))
                    (λ same. other (
                      ((is_settled_for-Ending o published step id status).ending s).counted c
                      ∙ same)));
            }
      ]

  -- A refresh after something was crossed leaves fewer deadlines ahead.
  refreshed-ahead :
      (id : Text) (s t : Session)
      → Counted s
      → Over o published step grows clock s ⊎ Late o published step grows clock id s
      → refresh o s ≡ (ok tt, t)
      → ahead id t < ahead id s
  unfolding refresh ahead Counted count
  refreshed-ahead id s t (c, l) crossed q =
      let done = unmapped (λ e. rejection_of (request_error e)) (refresh_session o s) q in
      let e : Ends o published step s t =
        subst (λ x. Ends o published step s x.1) q ((refresh-Ending o published step).ending s) in
      elim crossed [
        | inl over ↦
            fewer s.deadline t.deadline (s.request_deadlines id) (t.request_deadlines id) over.ends
              (refreshed-shut o published step grows clock s t c over done)
              (Left-count _ _ (e.requests id))
        | inr late ↦
            let less =
              fewer (s.request_deadlines id) (t.request_deadlines id) s.deadline t.deadline
                late.ends (refreshed-drops o published step grows clock id s t late done)
                (Left-count _ _ e.session) in
            omega (arith, less)
      ]
    where
      fewer :
          (a b c d : Option ℕ) {n : ℕ}
          → a ≡ some n
          → b ≡ none
          → count d ≤ count c
          → count b + count d < count a + count c
      fewer a b c d p q l = rw p rw q omega (arith, l)

  module _ (owner : AgentOwner) (uid : ℕ) (groups : List ℕ) (id : Text) where
    -- That the loop of `n` rounds ends, from a session with fewer deadlines ahead.
    EndsIn : ℕ → Type 0
    EndsIn n =
        (t : Session)
        → Counted t
        → ahead id t < n
        → (status_loop owner uid groups id n o t).0 ≡ ok none
        → ⊥

    again :
        (n : ℕ) (s : Session) (y : Result AgentRejection (Unit {0}) × Session)
        → Counted y.1
        → EndsIn n
        → ahead id s < suc n
        → ((t : Session) → y ≡ (ok tt, t) → ahead id t < ahead id s)
        → (resume (λ _. status_loop owner uid groups id n) o y).0 ≡ ok none
        → ⊥
    unfolding EndsIn
    again n s (ok tt, t) c ih l less e = ih t c (omega (arith, l, less t refl)) e
    again n s (err z, t) c ih l less e = cc

    round :
        (n : ℕ) (status : DirectStatus) (x : Result AgentRejection Bool × Session)
        → Counted x.1
        → EndsIn n
        → ahead id x.1 < suc n
        → (x.0 ≡ ok false
            → Over o published step grows clock x.1 ⊎ Late o published step grows clock id x.1)
        → (resume
            (λ settled.
              if settled then pure (some status) else refresh >> status_loop owner uid groups id n)
            o
            x).0
          ≡ ok none
        → ⊥
    round n status (err z, t) c ih l k e = cc
    round n status (ok true, t) c ih l k e = cc
    round n status (ok false, t) c ih l k e =
        again n t (refresh o t)
          (Counted-Ends t (refresh o t).1 ((refresh-Ending o published step).ending t) c) ih l
          (λ v q. refreshed-ahead id t v c (k refl) q) e

    read_then :
        (n : ℕ) (x : Result AgentRejection DirectStatus × Session)
        → Counted x.1
        → EndsIn n
        → ahead id x.1 < suc n
        → (resume
            (λ status. is_settled_for id status >>= λ settled.
              if settled then pure (some status) else refresh >> status_loop owner uid groups id n)
            o
            x).0
          ≡ ok none
        → ⊥
    read_then n (err z, t) c ih l e = cc
    read_then n (ok status, t) c ih l e =
        let seen = (is_settled_for-Ending o published step id status).ending t in
        let v : Session = (is_settled_for id status o t).1 in
        let fewer = ahead-Ends id t v seen in
        round n status (is_settled_for id status o t) (Counted-Ends t v seen c) ih
          (omega (arith, l, fewer)) (crossing id status t c) e

    status_loop-EndsIn : (n : ℕ) → EndsIn n
    unfolding status_loop EndsIn
    status_loop-EndsIn zero s c l e = omega (arith, l)
    status_loop-EndsIn (suc n) s c l e =
        let reading : Provider → Io → Result RequestError DirectStatus =
          λ p io. agent_status p owner uid groups id io in
        let seen = (read-Ending o published step reading).ending s in
        let t : Session = (read reading o s).1 in
        let fewer = ahead-Ends id s t seen in
        read_then n (map_error reading_error (read reading) o s) (Counted-Ends s t seen c)
          (status_loop-EndsIn n) (omega (arith, l, fewer)) e

    few : (a b : Option ℕ) → count a + count b < 3
    unfolding count
    few none none = omega arith
    few none (some n) = omega arith
    few (some n) none = omega arith
    few (some n) (some m) = omega arith

    -- The loop ends.
    pub status_loop-ends :
        (s : Session) → Counted s → (status_loop owner uid groups id max_rounds o s).0 ≡ ok none → ⊥
    unfolding EndsIn ahead
    status_loop-ends s c e =
        status_loop-EndsIn max_rounds s c (few s.deadline (s.request_deadlines id)) e
