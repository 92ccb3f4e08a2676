-- ===== src/Application/Types.antt =====
-- The state of `ProviderApplication` and what it meets outside, of src/access/application.rs.
use vaultwarden_cli.Base.{ℕ, Bool, Option, Text, Result}
use vaultwarden_cli.Policy.Types.{CreateEffect, LoginCredentialDraft}
use vaultwarden_cli.Request.Types.{RequestError}
use vaultwarden_cli.Provider.Defs.{Provider}
use vaultwarden_cli.Provider.Expiry.{Deadlines}
use vaultwarden_cli.Store.{Io}

pub data SessionError : Type 0 where
  locked incompatible authentication_failed : SessionError
  backend_unavailable cleanup_failed invalid_request : SessionError

-- `From<SessionError> for DirectRequestError`
abbrev pub request_error : SessionError → RequestError
request_error SessionError.locked = RequestError.locked
request_error SessionError.incompatible = RequestError.unavailable
request_error SessionError.authentication_failed = RequestError.unavailable
request_error SessionError.backend_unavailable = RequestError.unavailable
request_error SessionError.cleanup_failed = RequestError.unavailable
request_error SessionError.invalid_request = RequestError.unavailable

-- `Authority`, and the fields of `ProviderApplication` that change beside it. Times are nanoseconds.
-- `tokens` is what `agent_tokens` holds: for each agent, whether it is withdrawn. `tick` counts what
-- was observed, and tells one answer from outside from the next.
pub record Session : Type 0 where
  pub provider : Provider
  pub deadline : Option ℕ
  pub cleanup_failed : Bool
  pub generation : ℕ
  pub session_epoch : ℕ
  pub request_deadlines : Deadlines
  pub request_agents : Text → Option Text
  pub closing : Bool
  pub revocation_epoch : ℕ
  pub tokens : Text → Option Bool
  pub tick : ℕ

-- The fields that stay as they are.
pub record Settings : Type 0 where
  pub owner : ℕ
  pub request_lifetime_seconds : ℕ

-- What other threads and devices do, by tick: close admission, publish revocations, withdraw agents;
-- and what the clocks, the backend, a provider's call, the wait for executions, the lock of the gate
-- and the launcher answer. `wait` is none if no execution is left in time.
pub record Outside : Type 0 where
  pub closes : ℕ → Bool
  pub revokes : ℕ → ℕ
  pub withdraws : ℕ → Text → Bool
  pub now : ℕ → ℕ
  pub unix_seconds : ℕ → Result SessionError ℕ
  pub clear : ℕ → Option SessionError
  pub probe_compatibility : ℕ → Option SessionError
  pub unlock : ℕ → Result SessionError ℕ
  pub reconcile_secret : ℕ → CreateEffect → Text → Option SessionError
  pub create_eligible : ℕ → CreateEffect → Option SessionError
  pub ssh_eligible : ℕ → Text → Bool
  pub login_eligible : ℕ → Text → LoginCredentialDraft → Bool
  pub io : ℕ → Io
  pub cleanup_uncertain : ℕ → Bool
  pub active : ℕ → Text → Bool
  pub contended : ℕ → Bool
  pub launch : ℕ → Text → Option RequestError
