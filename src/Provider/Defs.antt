-- ===== src/Provider/Defs.antt =====
-- The provider, and the shape that its operations share: read the durable state, plan a change or
-- a refusal, write the changed state, and only then replace the state in memory.
use vaultwarden_cli.Base.{
  ℕ, Bool, true, false, ◌&&◌, Option, none, some, List, [], ◌∷◌, ◌==◌, nat_eq, text_eq,
  if◌then◌else◌, Text, any, Result, ok, err, map_err, ◌>>=◌, is_none_or,
}
use vaultwarden_cli.Host.{Host}
use vaultwarden_cli.Policy.Types.{OperationPolicy}
use vaultwarden_cli.Request.Types.{DirectRecord, AgentOwner, RequestError}
use vaultwarden_cli.Request.Record.{human_visible}
use vaultwarden_cli.Agents.{AgentBinding, owner_matches, is_enabled}
use vaultwarden_cli.State.Types.{ProviderState, RequestRecord, ProviderDiagnostic, diagnostic_eq}
use vaultwarden_cli.Store.{
  ProviderStore, Io, read_state, write_state_guarded, write_state, invalidated_state,
}

pub data ProviderLockState : Type 0 where
  locked : ProviderLockState

pub record Provider : Type 0 where
  pub store : ProviderStore
  pub lock_state : ProviderLockState
  pub state : ProviderState

-- What an operation decided: a state to write; one that needs no write; or an answer that leaves
-- the state in memory as it was.
pub data Plan (A : Type 0) : Type 0 where
  write : ProviderState → A → Plan A
  keep : ProviderState → A → Plan A
  answer : A → Plan A

-- `From<ProviderError> for DirectRequestError`
abbrev pub unavailable : ProviderDiagnostic → RequestError
unavailable _ = RequestError.unavailable

module _ ⦃h : Host⦄ {E A : Type 0} (to_error : ProviderDiagnostic → E) where
  unfoldable pub commit :
      Provider
      → ProviderState
      → A
      → Result ProviderDiagnostic (Unit {0}) × ProviderStore
      → Result E A × Provider
  commit p s a (ok _, store) = (ok a, record p { store = store; state = s })
  commit p s a (err e, store) = (err (to_error e), record p { store = store })

  -- What follows the plan. A `keep` refreshes the state in memory, an `answer` does not.
  unfoldable pub carry_out :
      Provider
      → (ProviderState → Result ProviderDiagnostic (Unit {0}) × ProviderStore)
      → Result E (Plan A)
      → Result E A × Provider
  unfolding commit
  carry_out p save (err e) = (err e, p)
  carry_out p save (ok (keep s a)) = (ok a, record p { state = s })
  carry_out p save (ok (answer a)) = (ok a, p)
  carry_out p save (ok (write s a)) = commit p s a (save s)

  -- An operation whose write is guarded by the caller's authority.
  unfoldable pub transact_guarded :
      Provider → Io → (ProviderState → Result E (Plan A)) → Result E A × Provider
  unfolding carry_out
  transact_guarded p io plan =
      carry_out p (λ s. write_state_guarded p.store s io.write)
        (map_err to_error (read_state p.store (io.reads 0)) >>= plan)

  unfoldable pub transact :
      Provider → Io → (ProviderState → Result E (Plan A)) → Result E A × Provider
  unfolding carry_out
  transact p io plan =
      carry_out p (λ s. write_state p.store s io.write)
        (map_err to_error (read_state p.store (io.reads 0)) >>= plan)

  -- A read-only operation.
  unfoldable pub query : Provider → Io → (ProviderState → Result E A) → Result E A
  query p io f = map_err to_error (read_state p.store (io.reads 0)) >>= f

-- `iter().find(|r| r.id == id)`, then the direct record of that request.
unfoldable pub find_request : Text → List RequestRecord → Option RequestRecord
find_request id [] = none
find_request id (r ∷ rs) = if r.id == id then some r else find_request id rs

unfoldable pub find_direct : Text → List RequestRecord → Option DirectRecord
unfolding find_request
find_direct id rs = elim (find_request id rs) [ none ↦ none | some r ↦ r.direct ]

-- Writes a request in the place of the first with its identifier.
unfoldable pub replace_request : Text → RequestRecord → List RequestRecord → List RequestRecord
replace_request id x [] = []
replace_request id x (r ∷ rs) = if r.id == id then x ∷ rs else r ∷ replace_request id x rs

abbrev pub with_request : ProviderState → Text → RequestRecord → ProviderState
with_request s id r = record s { requests = replace_request id r s.requests }

unfoldable pub find_operation : Text → List OperationPolicy → Option OperationPolicy
find_operation id [] = none
find_operation id (p ∷ ps) = if p.id == id then some p else find_operation id ps

-- The record if this human may see it: `filter(|d| d.human_visible(…))`.
unfoldable pub visible : ℕ → ℕ → Option DirectRecord → Option DirectRecord
visible human provider_uid none = none
visible human provider_uid (some d) = if human_visible human provider_uid d then some d else none

-- `Provider::agent_current`
unfoldable pub agent_current : List AgentBinding → Option AgentOwner → Bool
agent_current bindings o = is_none_or (λ a. any (λ b. owner_matches a b && is_enabled b) bindings) o

module _ ⦃h : Host⦄ where
  -- `ProviderStore::invalidate` and the callers of it, `lock` and `start`.
  unfoldable pub invalidate_with :
      Bool → Io → ProviderState → Result ProviderDiagnostic (Plan (Unit {0}))
  invalidate_with recovered io s = invalidated_state recovered io s >>= λ s'. ok (write s' tt)

  -- `Provider::lock`, and `shutdown`
  unfoldable pub lock : Provider → Io → Result ProviderDiagnostic (Unit {0}) × Provider
  unfolding invalidate_with
  lock p io =
      transact (λ e. e) (record p { lock_state = ProviderLockState.locked }) io
        (invalidate_with false io)

  -- `Provider::start_with_cleanup`, on a store that was opened after the cleanup.
  unfoldable pub start :
      ProviderStore → ProviderState → Io → Result ProviderDiagnostic (Unit {0}) × Provider
  unfolding invalidate_with
  start store blank io =
      transact (λ e. e)
        (record { store = store; lock_state = ProviderLockState.locked; state = blank }) io
        (invalidate_with true io)
