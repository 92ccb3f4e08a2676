-- ===== src/Application/Answered.antt =====
-- A status query is always answered: its loop ends.
use vaultwarden_cli.Base.{
  ℕ, zero, suc, ◌+◌, ◌%◌, ◌^◌, ◌≤◌, ◌≡◌, refl, sym, ◌∙◌, Option, none, some, Result, ok, err, Text,
  List, if◌then◌else◌,
}
use vaultwarden_cli.Host.{Host}
use vaultwarden_cli.Request.Types.{AgentOwner, DirectStatus, RequestError}
use vaultwarden_cli.Protocol.{AgentRejection, SignedStatusQuery}
use vaultwarden_cli.Store.{Io}
use vaultwarden_cli.Provider.Defs.{Provider}
use vaultwarden_cli.Provider.Signed.{agent_status}
use vaultwarden_cli.Application.Types.{Session, Outside}
use vaultwarden_cli.Application.Action.{Action, resume, pure, ◌>>=◌, ◌>>◌, map_error, read}
use vaultwarden_cli.Application.Authority.{agent_token, token_live, close_admission}
use vaultwarden_cli.Application.Queries.{
  reading_error, refresh, is_settled_for, status_loop, max_rounds, answer_query, signed_query,
  close_unavailable, signed_agent_status,
}
use vaultwarden_cli.Application.Ending.{
  Ending, Ending-pure, Ending-bind, Ending-if, Ending-map_error, read-Ending, ending,
  refresh-Ending, is_settled_for-Ending,
}
use vaultwarden_cli.Application.Ended.{Counted, Counted-Ends, status_loop-ends}

ok_some : {E A : Type 0} {a : A} → ◌≡◌ {A = Result E (Option A)} (ok (some a)) (ok none) → ⊥
ok_some e = cc

module _ ⦃h : Host⦄ (o : Outside) (published : ℕ → ℕ)
    (step : (n : ℕ) → (published n + o.revokes n) % 2 ^ 64 ≡ published (suc n))
    (grows : (m n : ℕ) → m ≤ n → published m ≤ published n)
    (clock : (m n : ℕ) → m ≤ n → o.now m ≤ o.now n) where
  -- An action that never answers none.
  record Answers {A : Type 0} (m : Action AgentRejection (Option A)) : Type 0 where
    answers : (s : Session) → Counted o published step grows clock s → (m o s).0 ≡ ok none → ⊥

  Answers-some : {A : Type 0} (a : A) → Answers (pure (some a))
  Answers-some a = record { answers = λ s c e. ok_some e }

  continued :
      {A B : Type 0} (f : A → Action AgentRejection (Option B))
      (x : Result AgentRejection A × Session)
      → Counted o published step grows clock x.1
      → ((a : A) → Answers (f a))
      → (resume f o x).0 ≡ ok none
      → ⊥
  continued f (ok a, t) c k e = (k a).answers t c e
  continued f (err z, t) c k e = cc

  Answers-bind :
      {A B : Type 0} (m : Action AgentRejection A) (f : A → Action AgentRejection (Option B))
      → Ending o published step m
      → ((a : A) → Answers (f a))
      → Answers (m >>= f)
  Answers-bind m f p k = record {
    answers = λ s c e.
        continued f (m o s) (Counted-Ends o published step grows clock s (m o s).1 (p.ending s) c) k
          e;
  }

  token_live-Ending :
      {E : Type 0} (t : Option Text) → Ending o published step (token_live {E = E} t)
  unfolding token_live
  token_live-Ending t = search ending depth 6

  agent_token-Ending : (a : Option AgentOwner) → Ending o published step (agent_token a)
  unfolding agent_token
  agent_token-Ending none = search ending depth 4
  agent_token-Ending (some a) = search ending depth 8

  answer_query-Answers :
      (token : Option Text) (status : DirectStatus) → Answers (answer_query token (some status))
  unfolding answer_query
  answer_query-Answers token status =
      search (ending, Answers-bind, Answers-some, token_live-Ending) depth 14

  settled :
      (token : Option Text) (x : Result AgentRejection (Option DirectStatus) × Session)
      → Counted o published step grows clock x.1
      → (x.0 ≡ ok none → ⊥)
      → (resume (answer_query token) o x).0 ≡ ok none
      → ⊥
  settled token (ok none, t) c k e = k refl
  settled token (ok (some status), t) c k e = (answer_query-Answers token status).answers t c e
  settled token (err z, t) c k e = cc

  status_loop-Ending :
      (owner : AgentOwner) (uid : ℕ) (groups : List ℕ) (id : Text) (n : ℕ)
      → Ending o published step (status_loop owner uid groups id n)
  unfolding status_loop
  status_loop-Ending owner uid groups id zero = Ending-pure o published step none
  status_loop-Ending owner uid groups id (suc n) =
      let reading : Provider → Io → Result RequestError DirectStatus =
        λ p io. agent_status p owner uid groups id io in
      Ending-bind o published step (map_error reading_error (read reading))
        (λ status. is_settled_for id status >>= λ settled.
          if settled then pure (some status) else refresh >> status_loop owner uid groups id n)
        (Ending-map_error o published step reading_error (read reading)
          (read-Ending o published step reading))
        (λ status. judged status (status_loop-Ending owner uid groups id n))
    where
      judged :
          {k : Action AgentRejection (Option DirectStatus)} (status : DirectStatus)
          → Ending o published step k
          → Ending o published step (
              is_settled_for id status >>= λ settled.
              if settled then pure (some status) else refresh >> k)
      judged {k = k} status rest =
          Ending-bind o published step (is_settled_for id status)
            (λ settled. if settled then pure (some status) else refresh >> k)
            (is_settled_for-Ending o published step id status)
            (λ settled.
              Ending-if o published step settled (pure (some status)) (refresh >> k)
                (Ending-pure o published step (some status))
                (Ending-bind o published step refresh (λ _. k) (refresh-Ending o published step)
                  (λ _. rest)))

  loop_then-Answers :
      (owner : AgentOwner) (uid : ℕ) (groups : List ℕ) (id : Text) (token : Option Text)
      → Answers (status_loop owner uid groups id max_rounds >>= answer_query token)
  loop_then-Answers owner uid groups id token = record {
    answers = λ s c e.
        let x = status_loop owner uid groups id max_rounds o s in
        settled token x
          (Counted-Ends o published step grows clock s x.1
            ((status_loop-Ending owner uid groups id max_rounds).ending s) c)
          (status_loop-ends o published step grows clock owner uid groups id s c) e;
  }

  signed_query-Answers :
      (uid : ℕ) (groups : List ℕ) (query : SignedStatusQuery)
      → Answers (signed_query max_rounds uid groups query)
  unfolding signed_query
  signed_query-Answers uid groups query =
      search
        (
          ending, Answers-bind, refresh-Ending, agent_token-Ending, token_live-Ending,
          loop_then-Answers,
        )
        depth 40

  closed-same :
      {A : Type 0} (r : Result AgentRejection A) (s : Session) → (close_unavailable r o s).0 ≡ r
  unfolding close_unavailable close_admission
  closed-same (ok a) s = refl
  closed-same (err AgentRejection.unauthorized) s = refl
  closed-same (err AgentRejection.malformed) s = refl
  closed-same (err AgentRejection.unsupported_version) s = refl
  closed-same (err AgentRejection.replay) s = refl
  closed-same (err AgentRejection.stale_revision) s = refl
  closed-same (err AgentRejection.invalid_arguments) s = refl
  closed-same (err AgentRejection.locked) s = refl
  closed-same (err AgentRejection.busy) s = refl
  closed-same (err AgentRejection.unavailable) s = refl

  -- The loop of a status query ends in three rounds at most, so that the query is always answered,
  -- by a status or by an error, whatever other threads do between its steps, if the clock does not
  -- go back, `published` counts the revocations without a wrap, and the session was not opened
  -- after later ones than were published.
  pub query-answers :
      (uid : ℕ) (groups : List ℕ) (query : SignedStatusQuery) (s : Session)
      → s.revocation_epoch ≡ published s.tick
      → s.session_epoch ≤ published s.tick
      → ¬ ((signed_agent_status uid groups query o s).0 ≡ ok none)
  unfolding signed_agent_status Counted
  query-answers uid groups query s c l e =
      let x = signed_query max_rounds uid groups query o s in
      (signed_query-Answers uid groups query).answers s (c, l) (sym (closed-same x.0 x.1) ∙ e)
