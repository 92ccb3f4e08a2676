-- ===== src/Provider/Pairing.antt =====
-- `pair_agent` and `revoke_agent`: the administration of agents.
use vaultwarden_cli.Base.{
  ℕ, Bool, not, ◌&&◌, ◌||◌, none, some, List, [], ◌∷◌, ◌++◌, ◌==◌, text_eq, nat_eq, if◌then◌else◌,
  Text, any, is_some_and, update_first, Result, ok, err, map_err, ◌>>=◌, ◌>>◌, guard, ok_or, find,
}
use vaultwarden_cli.Host.{Host}
use vaultwarden_cli.Request.Types.{DirectStatus, DecisionOutcome, RequestError, status_eq}
use vaultwarden_cli.Agents.{
  AgentBinding, AgentBindingView, AgentBindingStatus, AgentPairing, AgentAuditAction, audit, view,
  new_binding, binding_status_eq,
}
use vaultwarden_cli.State.Types.{ProviderState, RequestRecord, ProviderDiagnostic}
use vaultwarden_cli.State.Transition.{transition}
use vaultwarden_cli.Store.{Io}
use vaultwarden_cli.Provider.Defs.{Provider, Plan, write, keep, unavailable, transact}

-- A key is paired once, and a label is in use once.
abbrev is_taken : AgentBinding → AgentBinding → Bool
is_taken new b =
    b.public_key == new.public_key
    || (b.status == AgentBindingStatus.enabled && b.label == new.label)

-- `pair_agent` after the binding is built.
unfoldable pub pair_plan :
    ℕ → ℕ → AgentBinding → ProviderState → Result RequestError (Plan AgentBindingView)
pair_plan human now binding s = do
  guard (not (any (is_taken binding) s.pairings)) RequestError.invalid_request
  ok (
      write
        (record s {
          agent_audit = s.agent_audit ++ audit binding human now AgentAuditAction.paired ∷ [];
          pairings = s.pairings ++ binding ∷ [];
        })
        (view binding))

-- An unclaimed request of this agent that waits.
unfoldable pub is_orphaned : Text → RequestRecord → Bool
is_orphaned id r =
    is_some_and
      (λ d.
        not d.execution_claimed
        && is_some_and (λ a. a.binding_id == id) d.agent_owner
        && (d.review.status == DirectStatus.pending || d.review.status == DirectStatus.approved))
      r.direct

unfoldable pub revoke_request : Text → ℕ → RequestRecord → Result ProviderDiagnostic RequestRecord
revoke_request id now r =
    if is_orphaned id r
    then transition r DirectStatus.expired DecisionOutcome.invalidated now
    else ok r

unfoldable pub revoke_requests :
    Text → ℕ → List RequestRecord → Result ProviderDiagnostic (List RequestRecord)
revoke_requests id now [] = ok []
revoke_requests id now (r ∷ rs) = do
  r' ← revoke_request id now r
  rs' ← revoke_requests id now rs
  ok (r' ∷ rs')

abbrev revoked : AgentBinding → AgentBinding
revoked b = record b { status = AgentBindingStatus.revoked }

-- A binding that was revoked before is answered as it is.
unfoldable pub revoke_plan :
    ℕ → Text → ℕ → ProviderState → Result RequestError (Plan AgentBindingView)
revoke_plan human id now s = do
  b ← ok_or (find (λ x. x.id == id) s.pairings) RequestError.not_found
  if not (b.status == AgentBindingStatus.enabled)
      then ok (keep s (view b))
      else (map_err unavailable (revoke_requests id now s.requests) >>= λ requests. ok (
          write
            (record s {
              pairings = update_first (λ x. x.id == id) (revoked b) s.pairings;
              agent_audit =
                  s.agent_audit ++ audit (revoked b) human now AgentAuditAction.revoked ∷ [];
              requests = requests;
            })
            (view (revoked b))))

module _ ⦃h : Host⦄ where
  -- `pair_agent`: an administrator is the provider's own user.
  unfoldable pub pair_agent :
      Provider → ℕ → AgentPairing → ℕ → Io → Result RequestError AgentBindingView × Provider
  pair_agent p human input now io =
      if not (human == p.store.owner_uid)
      then (err RequestError.unauthorized, p)
      else (elim (new_binding input p.store.owner_uid io.fresh) [
        | none ↦ (err RequestError.invalid_request, p)
        | some b ↦ transact unavailable p io (pair_plan human now b)
      ])

  unfoldable pub revoke_agent :
      Provider → ℕ → Text → ℕ → Io → Result RequestError AgentBindingView × Provider
  revoke_agent p human id now io =
      if not (human == p.store.owner_uid)
      then (err RequestError.unauthorized, p)
      else transact unavailable p io (revoke_plan human id now)
