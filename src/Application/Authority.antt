-- ===== src/Application/Authority.antt =====
-- Admission, locking and authentication: `revoke`, `admit`, `lock`, `authenticate` and their callers
-- in src/access/application.rs.
use vaultwarden_cli.Base.{
  ℕ, suc, ◌+◌, ◌*◌, ◌^◌, ◌%◌, Bool, true, false, not, ◌&&◌, ◌||◌, Option, none, some, ltb, leb,
  ◌==◌, nat_eq, Text, Result, ok, err, is_ok, is_none, is_none_or, is_some, is_some_and,
  if◌then◌else◌,
}
use vaultwarden_cli.Host.{Host}
use vaultwarden_cli.Request.Types.{RequestError, AgentOwner}
use vaultwarden_cli.Provider.Defs
use vaultwarden_cli.Provider.Expiry.{expire_direct}
use vaultwarden_cli.Application.Types.{Settings, SessionError}
use vaultwarden_cli.Application.Action.{
  Action, pure, fail, lift, ◌>>=◌, ◌>>◌, attempt, map_error, check, unless, gets, observe, ask, now,
  is_closing, revocations, call,
}

-- 15 minutes.
abbrev pub max_session : ℕ
max_session = 15 * 60 * 1000000000

-- `Duration::checked_add`: a duration has fewer than 2 ^ 64 seconds.
abbrev pub add_duration : ℕ → ℕ → Option ℕ
add_duration a b = if ltb (a + b) (2 ^ 64 * 1000000000) then some (a + b) else none

pub data SessionStatus : Type 0 where
  locked unlocked : SessionStatus

module _ {E : Type 0} where
  -- A step of `revoke` that cannot fail.
  unfoldable pub withdraw_authority : Action E (Unit {0})
  withdraw_authority o s = (
    ok tt,
    record s {
      generation = suc s.generation;
      deadline = none;
      request_deadlines = λ id. none;
      cleanup_failed = true;
    },
  )

  unfoldable pub cleaned : Action E (Unit {0})
  cleaned o s = (ok tt, record s { cleanup_failed = false })

  unfoldable pub close_admission : Action E (Unit {0})
  close_admission o s = (ok tt, record s { closing = true })

  -- The first part of `lock`: other threads see it before the gate is taken.
  unfoldable pub publish_revocation : Action E (Unit {0})
  publish_revocation =
      observe >>= λ _ o s. (ok tt, record s { revocation_epoch = suc s.revocation_epoch % 2 ^ 64 })

  unfoldable pub open_session : ℕ → ℕ → Action E (Unit {0})
  open_session deadline epoch o s =
      (ok tt, record s { deadline = some deadline; session_epoch = epoch })

  -- `retain` of the deadlines that are still ahead.
  unfoldable pub retain_deadlines : ℕ → Action E (Unit {0})
  retain_deadlines at o s = (
    ok tt,
    record s {
      request_deadlines = λ id.
          if is_some_and (λ d. ltb at d) (s.request_deadlines id)
          then s.request_deadlines id
          else none;
    },
  )

module _ ⦃h : Host⦄ where
  -- Both cleanups are tried even if one fails.
  unfoldable pub clean_up : Action SessionError (Unit {0})
  clean_up = do
    backend ← ask (λ o n. o.clear n)
    store ← attempt (call Defs.lock)
    check (is_none backend && is_ok store) SessionError.cleanup_failed
    cleaned

  unfoldable pub withdrawn : Action SessionError (Unit {0})
  withdrawn = withdraw_authority >> clean_up

  unfoldable pub revoke : Action SessionError (Unit {0})
  revoke = do
    generation ← gets (λ s. s.generation)
    check (ltb (suc generation) (2 ^ 64)) SessionError.cleanup_failed
    withdrawn

  unfoldable pub revoke_locked : Action SessionError (Unit {0})
  unfolding revoke
  revoke_locked = revoke >> fail SessionError.locked

  -- The match of `admit`.
  unfoldable pub admit_until : Option ℕ → Action SessionError (Unit {0})
  unfolding revoke_locked
  admit_until none = fail SessionError.locked
  admit_until (some deadline) = do
    at ← now
    cleanup_failed ← gets (λ s. s.cleanup_failed)
    if ltb at deadline && not cleanup_failed then pure tt else revoke_locked

  unfoldable pub admit : Action SessionError (Unit {0})
  unfolding admit_until
  admit = do
    closing ← is_closing
    deadline ← gets (λ s. s.deadline)
    if closing then revoke_locked else admit_until deadline

  -- `match self.admit(…) { Ok(()) | Err(Locked) => {} Err(e) => return Err(e) }`
  unfoldable pub locked_is_fine : Result SessionError (Unit {0}) → Action SessionError (Unit {0})
  locked_is_fine (ok u) = pure tt
  locked_is_fine (err SessionError.locked) = pure tt
  locked_is_fine (err e) = fail e

  unfoldable pub admit_or_locked : Action SessionError (Unit {0})
  unfolding locked_is_fine
  admit_or_locked = attempt admit >>= locked_is_fine

  -- `wait` of the executions, and what was uncertain about their end.
  unfoldable pub await_cleanup : Action SessionError (Unit {0})
  await_cleanup = do
    uncertain ← ask (λ o n. o.cleanup_uncertain n)
    if uncertain then close_admission >> fail SessionError.cleanup_failed else pure tt

  unfoldable pub lock : Action SessionError (Unit {0})
  lock = do publish_revocation; result ← attempt revoke; await_cleanup; lift result

  unfoldable pub shutdown : Action SessionError (Unit {0})
  shutdown = close_admission >> lock

  unfoldable pub expire_requests : Action SessionError (Unit {0})
  expire_requests = do
    at ← now
    deadlines ← gets (λ s. s.request_deadlines)
    map_error (λ _. SessionError.cleanup_failed) (call (λ p io. expire_direct p at deadlines io))
    retain_deadlines at

  unfoldable pub status_of : Result SessionError (Unit {0}) → Action SessionError SessionStatus
  status_of (ok u) = pure SessionStatus.unlocked
  status_of (err SessionError.locked) = pure SessionStatus.locked
  status_of (err e) = fail e

  unfoldable pub status : Action SessionError SessionStatus
  unfolding status_of
  status = attempt admit >>= λ admission. expire_requests >> status_of admission

  -- The session opens unless it is closing or has ended already.
  unfoldable pub opened_at : ℕ → Option ℕ → Action SessionError (Unit {0})
  opened_at epoch none = revoke >> fail SessionError.authentication_failed
  opened_at epoch (some deadline) = do
    closing ← is_closing
    at ← now
    if closing || leb deadline at then revoke_locked else open_session deadline epoch

  -- What follows the backend's answer, from the time at which the attempt was started.
  unfoldable pub unlocked_for : ℕ → ℕ → Result SessionError ℕ → Action SessionError (Unit {0})
  unfolding opened_at
  unlocked_for started epoch (err e) = revoke >> fail e
  unlocked_for started epoch (ok lifetime) =
      if lifetime == 0
      then revoke >> fail SessionError.authentication_failed
      else opened_at epoch
          (add_duration started (if leb lifetime max_session then lifetime else max_session))

  -- `probe_compatibility` and then `unlock`.
  unfoldable pub unlock_backend : Action SessionError ℕ
  unlock_backend = do
    probe ← ask (λ o n. o.probe_compatibility n)
    unless probe
    answer ← ask (λ o n. o.unlock n)
    lift answer

  -- `authenticate` after the old session is withdrawn.
  unfoldable pub opening : Action SessionError (Unit {0})
  unfolding unlocked_for unlock_backend
  opening = do
    started ← now
    epoch ← revocations
    attempt unlock_backend >>= unlocked_for started epoch

  unfoldable pub authenticate : Action SessionError (Unit {0})
  unfolding opening
  authenticate = do
    closing ← is_closing
    check (not closing) SessionError.locked
    cleanup_failed ← gets (λ s. s.cleanup_failed)
    check (not cleanup_failed) SessionError.cleanup_failed
    revoke >> opening

module _ (c : Settings) where
  abbrev pub check_owner : ℕ → Action RequestError (Unit {0})
  check_owner owner = check (owner == c.owner) RequestError.unauthorized

-- `agent_token`: the agent whose token it is, or none for a human.
unfoldable pub agent_token : Option AgentOwner → Action RequestError (Option Text)
agent_token none = pure none
agent_token (some a) = do
  tokens ← gets (λ s. s.tokens)
  check (is_some (tokens a.binding_id)) RequestError.unauthorized
  pure (some a.binding_id)

-- `token_live`, of the token that `agent_token` gave.
unfoldable pub live_in : (Text → Option Bool) → Option Text → Bool
live_in tokens none = true
live_in tokens (some a) = not (is_some_and (λ w. w) (tokens a))

unfoldable pub token_live : {E : Type 0} → Option Text → Action E Bool
unfolding live_in
token_live t = observe >>= λ _. gets (λ s. live_in s.tokens t)

unfoldable pub request_agent_live : Text → Action RequestError (Unit {0})
request_agent_live id = do
  observe
  agent ← gets (λ s. s.request_agents id)
  tokens ← gets (λ s. s.tokens)
  check (is_none_or (λ a. is_some_and (λ w. not w) (tokens a)) agent) RequestError.unauthorized
