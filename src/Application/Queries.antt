-- ===== src/Application/Queries.antt =====
-- `signed_agent_status` of src/access/application.rs: an agent asks how its request stands.
use vaultwarden_cli.Base.{
  ℕ, zero, suc, ℤ, Bool, true, false, not, ◌&&◌, Option, none, some, List, leb, ◌==◌, nat_eq,
  text_eq, Text, Result, ok, err, is_some, is_some_and, if◌then◌else◌,
}
use vaultwarden_cli.Host.{Host}
use vaultwarden_cli.Request.Types.{RequestError, DirectStatus, DirectFailure, AgentOwner}
use vaultwarden_cli.Protocol.{AgentRejection, SignedStatusQuery}
use vaultwarden_cli.Provider.Signed.{
  rejection_of, authenticate_status_query, consume_status_query, agent_status,
}
use vaultwarden_cli.Application.Types.{Session, SessionError, request_error}
use vaultwarden_cli.Application.Action.{
  Action, pure, fail, ◌>>=◌, ◌>>◌, attempt, map_error, lift, check, gets, ask, now, is_closing,
  revocations, call, read,
}
use vaultwarden_cli.Application.Authority.{
  revoke, admit_or_locked, expire_requests, close_admission, agent_token, token_live,
}

-- `AgentFailure` and `AgentStatus` of src/access/protocol.rs.
pub data AgentFailure : Type 0 where
  review_unavailable execution_unavailable execution_rejected : AgentFailure
  execution_nonzero execution_signaled observation_lost : AgentFailure

pub data AgentStatus : Type 0 where
  pending approved running denied expired : AgentStatus
  completed : ℤ → AgentStatus
  failed : AgentFailure → AgentStatus

abbrev failure_of : DirectFailure → AgentFailure
failure_of DirectFailure.review_unavailable = AgentFailure.review_unavailable
failure_of DirectFailure.execution_unavailable = AgentFailure.execution_unavailable
failure_of DirectFailure.execution_rejected = AgentFailure.execution_rejected
failure_of DirectFailure.execution_nonzero = AgentFailure.execution_nonzero
failure_of DirectFailure.execution_signaled = AgentFailure.execution_signaled
failure_of DirectFailure.observation_lost = AgentFailure.observation_lost

-- The last match: an exit code outside 0..=255 is not told.
unfoldable pub told : DirectStatus → Result AgentRejection AgentStatus
told DirectStatus.pending = ok AgentStatus.pending
told DirectStatus.approved = ok AgentStatus.approved
told DirectStatus.running = ok AgentStatus.running
told DirectStatus.denied = ok AgentStatus.denied
told DirectStatus.expired = ok AgentStatus.expired
told (DirectStatus.completed (ℤ.pos n)) =
    if leb n 255 then ok (AgentStatus.completed (ℤ.pos n)) else err AgentRejection.unavailable
told (DirectStatus.completed (ℤ.negsuc n)) = err AgentRejection.unavailable
told (DirectStatus.failed reason) = ok (AgentStatus.failed (failure_of reason))

-- `matches!(status, Pending | Approved)`
abbrev pub is_waiting : DirectStatus → Bool
is_waiting DirectStatus.pending = true
is_waiting DirectStatus.approved = true
is_waiting _ = false

-- What `map_err` makes of the error of a reading.
abbrev pub reading_error : RequestError → AgentRejection
reading_error RequestError.not_found = AgentRejection.unauthorized
reading_error RequestError.unauthorized = AgentRejection.unauthorized
reading_error _ = AgentRejection.unavailable

-- A session is open, and a revocation was published since it was opened.
unfoldable pub is_revoked : ℕ → Session → Bool
is_revoked published s = is_some s.deadline && not (published == s.session_epoch)

-- The loop takes this many rounds at most.
abbrev pub max_rounds : ℕ
max_rounds = 3

module _ ⦃h : Host⦄ where
  -- The closure `refresh`, before its errors become an agent's.
  unfoldable pub refresh_session : Action SessionError (Unit {0})
  unfolding is_revoked
  refresh_session = do
    published ← revocations
    revoked ← gets (is_revoked published)
    if revoked then revoke else pure tt
    admit_or_locked
    expire_requests

  unfoldable pub refresh : Action AgentRejection (Unit {0})
  refresh = map_error (λ e. rejection_of (request_error e)) refresh_session

  -- Nothing was crossed since the status was read: no deadline, no revocation. The control gate, which
  -- is held for these tests, is left out: others may act between them.
  unfoldable pub is_settled_for : Text → DirectStatus → Action AgentRejection Bool
  unfolding is_revoked
  is_settled_for id status = do
    at ← now
    session_expired ← gets (λ s. is_some_and (λ d. leb d at) s.deadline)
    request_expired ←
        gets (λ s. is_waiting status && is_some_and (λ d. leb d at) (s.request_deadlines id))
    published ← revocations
    session_revoked ← gets (is_revoked published)
    pure (not session_expired && not request_expired && not session_revoked)

  module _ (owner : AgentOwner) (uid : ℕ) (groups : List ℕ) (id : Text) where
    -- The loop. Its answer is none if its rounds are used up.
    unfoldable pub status_loop : ℕ → Action AgentRejection (Option DirectStatus)
    status_loop zero = pure none
    status_loop (suc rounds) =
        let rest = status_loop rounds in
        map_error reading_error (read (λ p io. agent_status p owner uid groups id io)) >>= λ status.
        is_settled_for id status >>= λ settled.
        if settled then pure (some status) else refresh >> rest

  -- The answer once the loop has ended.
  unfoldable pub answer_query :
      Option Text → Option DirectStatus → Action AgentRejection (Option AgentStatus)
  unfolding told
  answer_query token none = pure none
  answer_query token (some status) = do
    live ← token_live token
    check live AgentRejection.unauthorized
    closing ← is_closing
    check (not closing) AgentRejection.unavailable
    answer ← lift (told status)
    pure (some answer)

  unfoldable pub signed_query :
      ℕ → ℕ → List ℕ → SignedStatusQuery → Action AgentRejection (Option AgentStatus)
  unfolding answer_query
  signed_query rounds uid groups query = do
    closing ← is_closing
    check (not closing) AgentRejection.unavailable
    contended ← ask (λ o n. o.contended n)
    check (not contended) AgentRejection.busy
    owner ← read (λ p io. authenticate_status_query p uid groups query io)
    token ← map_error rejection_of (agent_token (some owner))
    live ← token_live token
    check live AgentRejection.unauthorized
    late ← is_closing
    check (not late) AgentRejection.unavailable
    refresh
    call (λ p io. consume_status_query p owner query io)
    refresh
    status ← status_loop owner uid groups query.request_id rounds
    answer_query token status

  -- An answer that is unavailable closes admission.
  unfoldable pub close_unavailable :
      {A : Type 0} → Result AgentRejection A → Action AgentRejection A
  close_unavailable (err AgentRejection.unavailable) =
      close_admission >> fail AgentRejection.unavailable
  close_unavailable r = lift r

  unfoldable pub signed_agent_status :
      ℕ → List ℕ → SignedStatusQuery → Action AgentRejection (Option AgentStatus)
  unfolding signed_query close_unavailable
  signed_agent_status uid groups query =
      attempt (signed_query max_rounds uid groups query) >>= close_unavailable
