-- ===== src/State/Types.antt =====
-- `ProviderState`, `RequestRecord` and the diagnostics of src/access/provider.rs.
use vaultwarden_cli.Base.{ℕ, Bool, true, false, Option, List, [], Text, PartialEq, of_discrete}
use vaultwarden_cli.Policy.Types.{ApprovedImage, OperationPolicy}
use vaultwarden_cli.Request.Types.{DirectRecord}
use vaultwarden_cli.Agents.{AgentBinding, AgentAuditEvent}

pub data ProviderDiagnostic : Type 0 where
  unsafe_state invalid_state persistence_failure invalid_operation_policy : ProviderDiagnostic
  credential_ineligible stale_operation_policy_revision : ProviderDiagnostic
  expired_access_request conflict : ProviderDiagnostic

pub data RequestLifecycleStatus : Type 0 where
  pending approved running invalidated denied completed failed : RequestLifecycleStatus

-- `RequestLifecycleStatus::is_unexecuted`
abbrev pub is_unexecuted : RequestLifecycleStatus → Bool
is_unexecuted RequestLifecycleStatus.pending = true
is_unexecuted RequestLifecycleStatus.approved = true
is_unexecuted RequestLifecycleStatus.running = true
is_unexecuted RequestLifecycleStatus.invalidated = false
is_unexecuted RequestLifecycleStatus.denied = false
is_unexecuted RequestLifecycleStatus.completed = false
is_unexecuted RequestLifecycleStatus.failed = false

pub record RequestRecord : Type 0 where
  pub id : Text
  pub status : RequestLifecycleStatus
  pub direct : Option DirectRecord

pub record ProviderState : Type 0 where
  pub schema_version : ℕ
  pub lifecycle_epoch : ℕ
  pub pairings : List AgentBinding
  pub agent_audit : List AgentAuditEvent
  pub query_replay_markers : List Text
  pub approved_images : List ApprovedImage
  pub operations : List OperationPolicy
  pub requests : List RequestRecord

abbrev pub schema_version : ℕ
schema_version = 2

-- `ProviderState::initial`
unfoldable pub initial : ProviderState
initial = record {
  schema_version = schema_version;
  lifecycle_epoch = 0;
  pairings = [];
  agent_audit = [];
  query_replay_markers = [];
  approved_images = [];
  operations = [];
  requests = [];
}

unfoldable pub LifecycleStatus-discrete : Discrete RequestLifecycleStatus
LifecycleStatus-discrete = hlevel

unfoldable pub Diagnostic-discrete : Discrete ProviderDiagnostic
Diagnostic-discrete = hlevel

instance abbrev pub lifecycle_status_eq : PartialEq RequestLifecycleStatus
lifecycle_status_eq = of_discrete LifecycleStatus-discrete

instance abbrev pub diagnostic_eq : PartialEq ProviderDiagnostic
diagnostic_eq = of_discrete Diagnostic-discrete
