-- ===== src/Application/Execution.antt =====
-- The authority of an execution, of src/access/application.rs: `execution_live`,
-- `execution_authority` and `ApplicationExecution`.
use vaultwarden_cli.Base.{
  ℕ, ◌-◌, Bool, true, false, not, ◌&&◌, Option, some, ltb, leb, ◌==◌, nat_eq, text_eq, Text, Result,
  ok, err, is_none_or, if◌then◌else◌, map_option, option_text_eq,
}
use vaultwarden_cli.Host.{Host}
use vaultwarden_cli.Request.Types.{RequestError, ApprovalBinding, binding_eq}
use vaultwarden_cli.Provider.Execution.{
  Delivery, execution_delivery, execution_started, execution_matches, cancel_unclaimed_execution,
}
use vaultwarden_cli.Application.Types.{Settings}
use vaultwarden_cli.Application.Action.{
  Action, pure, fail, lift, ◌>>=◌, ◌>>◌, attempt, map_error, check, gets, observe, ask, now,
  is_closing, revocations, call, read,
}
use vaultwarden_cli.Application.Authority.{
  admit, expire_requests, check_owner, request_agent_live, token_live, await_cleanup,
  close_admission,
}
use vaultwarden_cli.Application.Decision.{session}
use vaultwarden_cli.Application.Submission.{close_on}

pub data ExecutionError : Type 0 where
  invalid_image unsafe_path unsafe_source digest_mismatch unsupported_image : ExecutionError
  unavailable invalid_arguments execution_failed cancelled : ExecutionError
  manager_unavailable cleanup_uncertain observation_lost unit_collision : ExecutionError

module _ ⦃h : Host⦄ where
  -- A request whose deadline has passed: cleanup runs even when writing its expiry failed.
  unfoldable pub lapsed : Action RequestError (Unit {0})
  lapsed = do
    expiry ← attempt expire_requests
    session admit
    session (lift expiry)
    fail RequestError.already_decided

  unfoldable pub execution_live : Text → Action RequestError (Unit {0})
  unfolding lapsed
  execution_live id = do
    session admit
    request_agent_live id
    deadline ← gets (λ s. s.request_deadlines id)
    at ← now
    if is_none_or (λ d. leb d at) deadline then lapsed else pure tt

  unfoldable pub execution_live_current : Text → ℕ → Action RequestError (Unit {0})
  execution_live_current id epoch = do
    execution_live id
    published ← revocations
    check (published == epoch) RequestError.locked

  unfoldable pub execution_authority :
      ℕ → Text → Option ApprovalBinding → Bool → Action RequestError Delivery
  execution_authority owner id expected claimed = do
    execution_live id
    result ← attempt (read (λ p io. execution_delivery p owner id claimed io))
    execution_live id
    candidate ← lift result
    agent ← gets (λ s. s.request_agents id)
    check (map_option (λ a. a.binding_id) candidate.binding.agent_owner == agent)
        RequestError.invalid_request
    check (is_none_or (λ b. b == candidate.binding) expected) RequestError.invalid_request
    pure candidate

module _ ⦃h : Host⦄ where
  -- A queued execution is cancelled durably, unless it has been claimed meanwhile.
  unfoldable pub cancel_queued : ℕ → Text → Action RequestError (Unit {0})
  cancel_queued owner id = do
    active ← ask (λ o n. o.active n id)
    if active then pure tt else call (λ p io. cancel_unclaimed_execution p owner id io)

  unfoldable pub closed_on : Result RequestError (Unit {0}) → Action RequestError (Unit {0})
  closed_on (ok u) = pure tt
  closed_on (err e) = close_on e

  -- `cancel_execution`; the flag of an active execution is set, and its end is awaited.
  unfoldable pub cancel_execution : Settings → ℕ → Text → Action RequestError (Unit {0})
  unfolding cancel_queued closed_on
  cancel_execution c owner id = do
    check_owner c owner
    active ← ask (λ o n. o.active n id)
    result ← if active then pure (ok tt) else attempt (cancel_queued owner id)
    closed_on result
    lift result
    session await_cleanup

unfoldable pub answered : Result RequestError Bool → Bool
answered (ok b) = b
answered (err e) = false

-- `ApplicationExecution`; `cancelled` is its flag, by tick.
pub record ExecutionHold : Type 0 where
  pub owner : ℕ
  pub binding : ApprovalBinding
  pub epoch : ℕ
  pub deadline : ℕ
  pub cancelled : ℕ → Bool
  pub agent_token : Option Text

module _ ⦃h : Host⦄ (e : ExecutionHold) where
  unfoldable pub live_fast : Action RequestError Bool
  live_fast = do
    cancel ← observe >>= λ _ o s. (ok (e.cancelled s.tick), s)
    token ← token_live e.agent_token
    closing ← is_closing
    published ← revocations
    at ← now
    pure (not cancel && token && not closing && published == e.epoch && ltb at e.deadline)

  -- A read that fails answers that the execution is not live.
  unfoldable pub live : Action RequestError Bool
  unfolding answered
  live = do
    fast ← live_fast
    if fast
        then (attempt (read (λ p io. execution_matches p e.binding io)) >>= λ matches.
            pure (answered matches))
        else pure false

  unfoldable pub remaining : Action RequestError ℕ
  remaining = now >>= λ at. pure (e.deadline - at)

  -- What `release` asks before it takes the release gate.
  unfoldable pub releasable : Action RequestError (Unit {0})
  releasable = do
    _ ← execution_authority e.owner e.binding.request_id (some e.binding) true
    execution_live_current e.binding.request_id e.epoch

  unfoldable pub cleared : Action ExecutionError (Unit {0})
  unfolding releasable
  cleared = do
    map_error (λ _. ExecutionError.cancelled) releasable
    fast ← map_error (λ _. ExecutionError.cancelled) live_fast
    check fast ExecutionError.cancelled

  -- The action that is released last.
  unfoldable pub release : {A : Type 0} → Action ExecutionError A → Action ExecutionError A
  unfolding cleared
  release action = cleared >> action

  unfoldable pub started_or_closed :
      Result RequestError (Unit {0}) → Action ExecutionError (Unit {0})
  started_or_closed (ok u) = pure tt
  started_or_closed (err x) = close_admission >> fail ExecutionError.execution_failed

  unfoldable pub started : Action ExecutionError (Unit {0})
  unfolding started_or_closed
  started = attempt (call (λ p io. execution_started p e.binding io)) >>= started_or_closed
