-- ===== src/Application/Decision.antt =====
-- `prepare_approval`, `commit_approval` and `deny_direct` of src/access/application.rs.
use vaultwarden_cli.Base.{
  ℕ, Bool, false, not, ◌&&◌, Option, none, some, ltb, leb, ◌==◌, nat_eq, Text, Result, ok, err,
  is_none, is_none_or, List, [], ◌∷◌, ok_or, is_some_and, if◌then◌else◌,
}
use vaultwarden_cli.Host.{Host}
use vaultwarden_cli.Policy.Types.{OperationPolicy, LoginCredentialDraft, CreateEffect, SshOperation}
use vaultwarden_cli.Request.Types.{RequestError, DirectStatus, ApprovalBinding, ApprovalMethod}
use vaultwarden_cli.Provider.Requests.{prepare_direct, decision_policy, decide_direct}
use vaultwarden_cli.Application.Types.{Settings, SessionError, request_error}
use vaultwarden_cli.Application.Action.{
  Action, pure, lift, ◌>>=◌, ◌>>◌, attempt, map_error, check, unless, gets, ask, now, is_closing,
  call, read,
}
use vaultwarden_cli.Application.Authority.{
  admit, expire_requests, check_owner, agent_token, token_live, request_agent_live, revoke,
  close_admission,
}

pub record PreparedApproval : Type 0 where
  pub binding : ApprovalBinding
  pub generation : ℕ
  pub companion_deadline : Option ℕ
  pub password_required : Bool

-- What `?` makes of a session's error in a method that answers a requester.
abbrev pub session : {A : Type 0} → Action SessionError A → Action RequestError A
session = map_error request_error

module _ ⦃h : Host⦄ where
  -- `admit` and then `expire_requests`.
  unfoldable pub refreshed : Action RequestError (Unit {0})
  refreshed = session admit >> session expire_requests

  -- `decision_policy` of a binding reads the state twice.
  unfoldable pub policy_of : ApprovalBinding → Action RequestError OperationPolicy
  policy_of b = do first ← ask (λ o n. o.io n); read (λ p io. decision_policy p b first io)

  unfoldable pub prepared_now : ApprovalBinding → Bool → Action RequestError PreparedApproval
  prepared_now binding password_required = gets λ s. record {
    binding = binding;
    generation = s.generation;
    companion_deadline = none;
    password_required = password_required;
  }

  unfoldable pub prepare_approval : Settings → ℕ → Text → Action RequestError PreparedApproval
  unfolding policy_of prepared_now
  prepare_approval c owner id = do
    check_owner c owner
    refreshed
    request_agent_live id
    binding ← read (λ p io. prepare_direct p owner id io)
    policy ← policy_of binding
    prepared_now binding policy.require_password

  -- After each answer of the backend: is the session still there, and the agent?
  unfoldable pub still_admitted : Option Text → Action RequestError (Unit {0})
  still_admitted token = do refreshed; live ← token_live token; check live RequestError.unauthorized

  unfoldable pub create_checked : Option Text → Option CreateEffect → Action RequestError (Unit {0})
  create_checked token none = pure tt
  create_checked token (some effect) = do
    answer ← ask (λ o n. o.create_eligible n effect)
    session (unless answer)
    still_admitted token

  unfoldable pub ssh_checked : Option Text → Option SshOperation → Action RequestError (Unit {0})
  ssh_checked token none = pure tt
  ssh_checked token (some ssh) = do
    eligible ← ask (λ o n. o.ssh_eligible n ssh.credential.item_id)
    still_admitted token
    check eligible RequestError.unavailable

  -- The loop over the login bindings of a policy, whose marker names the policy.
  unfoldable pub logins_checked :
      Option Text → Text → List LoginCredentialDraft → Action RequestError (Unit {0})
  logins_checked token policy [] = pure tt
  logins_checked token policy (login ∷ logins) = do
    eligible ← ask (λ o n. o.login_eligible n policy login)
    still_admitted token
    check eligible RequestError.unavailable
    logins_checked token policy logins

  -- What an approval asks of the backend before it is written.
  unfoldable pub eligibility_checked :
      Option Text → OperationPolicy → Action RequestError (Unit {0})
  unfolding create_checked ssh_checked logins_checked
  eligibility_checked token policy = do
    probe ← ask (λ o n. o.probe_compatibility n)
    still_admitted token
    session (unless probe)
    create_checked token policy.create
    ssh_checked token policy.ssh
    logins_checked token policy.id policy.credentials

  -- The closure that `decide_direct` asks around its write.
  unfoldable pub decision_live : PreparedApproval → Option Text → ℕ → ℕ → Action RequestError Bool
  decision_live prepared token deadline session_deadline = do
    first ← now
    closing ← is_closing
    live ← token_live token
    second ← now
    third ← now
    pure (
        is_none_or (λ d. ltb first d) prepared.companion_deadline
        && not closing
        && live
        && ltb second deadline
        && ltb third session_deadline)

  unfoldable pub decide :
      PreparedApproval
      → Bool
      → Option ApprovalMethod
      → Option Text
      → ℕ
      → ℕ
      → ℕ
      → Action RequestError DirectStatus
  unfolding decision_live
  decide prepared approve method token deadline session_deadline at = do
    before ← decision_live prepared token deadline session_deadline
    after ← decision_live prepared token deadline session_deadline
    first ← ask (λ o n. o.io n)
    call λ p io.
        decide_direct p prepared.binding approve method at first
          (record io { write = record io.write { before = before; after = after } })

  -- A failure to write closes admission and withdraws the session.
  unfoldable pub withdrawn_on : RequestError → Action RequestError (Unit {0})
  withdrawn_on RequestError.unavailable = close_admission >> attempt revoke >>= λ ignored. pure tt
  withdrawn_on e = pure tt

  unfoldable pub closed_if_unavailable :
      {A : Type 0} → Result RequestError A → Action RequestError (Unit {0})
  unfolding withdrawn_on
  closed_if_unavailable (ok a) = pure tt
  closed_if_unavailable (err e) = withdrawn_on e

  -- What is decided once the deadlines are known.
  unfoldable pub decided :
      PreparedApproval
      → Bool
      → Option ApprovalMethod
      → Option Text
      → ℕ
      → ℕ
      → Action RequestError DirectStatus
  decided prepared approve method token deadline session_deadline = do
    wall ← ask (λ o n. o.unix_seconds n)
    at ← session (lift wall)
    live ← token_live token
    check live RequestError.unauthorized
    result ← attempt (decide prepared approve method token deadline session_deadline at)
    closed_if_unavailable result
    refreshed
    lift result

  -- `commit_decision` once the preparation is found to be current.
  unfoldable pub commit_current :
      Settings → PreparedApproval → Bool → Option ApprovalMethod → Action RequestError DirectStatus
  unfolding decided
  commit_current c prepared approve method = do
    if is_none prepared.binding.agent_owner
        then check_owner c prepared.binding.requester_uid
        else pure tt
    token ← agent_token prepared.binding.agent_owner
    live ← token_live token
    check live RequestError.unauthorized
    policy ← policy_of prepared.binding
    if approve then eligibility_checked token policy else pure tt
    deadlines ← gets (λ s. s.request_deadlines)
    deadline ← lift (ok_or (deadlines prepared.binding.request_id) RequestError.already_decided)
    session_deadline ← gets (λ s. s.deadline)
    ends ← lift (ok_or session_deadline RequestError.locked)
    decided prepared approve method token deadline ends

  -- Is the preparation of this generation, and in time?
  unfoldable pub check_current : PreparedApproval → Action RequestError (Unit {0})
  check_current prepared = do
    at ← now
    generation ← gets (λ s. s.generation)
    check
        (generation == prepared.generation
          && not (is_some_and (λ d. leb d at) prepared.companion_deadline))
        RequestError.locked

  unfoldable pub commit_decision :
      Settings → PreparedApproval → Bool → Option ApprovalMethod → Action RequestError DirectStatus
  unfolding commit_current
  commit_decision c prepared approve method =
      refreshed >> (check_current prepared >> commit_current c prepared approve method)

  unfoldable pub deny_direct : Settings → ℕ → Text → Action RequestError DirectStatus
  deny_direct c owner id =
      prepare_approval c owner id >>= λ prepared. commit_decision c prepared false none
