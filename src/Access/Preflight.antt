-- ===== src/Access/Preflight.antt =====
-- `Provider::preflight_request` of src/access/provider.rs.
use vaultwarden_cli.Base.{
  ℕ, not, Option, ◌==◌, text_eq, Result, ok, guard, ok_or, map_err, ◌>>=◌, ◌>>◌,
}
use vaultwarden_cli.Host.{Host}
use vaultwarden_cli.Policy.Arguments.{validates_args}
use vaultwarden_cli.State.Types.{ProviderDiagnostic}
use vaultwarden_cli.Store.{ProviderStore, read_state}
use vaultwarden_cli.Provider.Defs.{find_operation}
use vaultwarden_cli.Access.Types.{AccessRequest, validate_access, is_expired_at}

-- The clock is none when it is before the epoch; the failure is the one that reading meets.
unfoldable pub preflight_request :
    ⦃h : Host⦄
    → ProviderStore
    → AccessRequest
    → Option ℕ
    → Option ProviderDiagnostic
    → Result ProviderDiagnostic (Unit {0})
preflight_request store r clock failure = do
  map_err (λ _. ProviderDiagnostic.invalid_operation_policy) (validate_access r)
  now ← ok_or clock ProviderDiagnostic.invalid_state
  guard (not (is_expired_at r now)) ProviderDiagnostic.expired_access_request
  state ← read_state store failure
  policy ←
      ok_or (find_operation r.operation_id state.operations)
        ProviderDiagnostic.invalid_operation_policy
  guard (policy.revision == r.operation_revision) ProviderDiagnostic.stale_operation_policy_revision
  guard (validates_args policy r.args) ProviderDiagnostic.invalid_operation_policy
  ok tt
