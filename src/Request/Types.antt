-- ===== src/Request/Types.antt =====
-- The data of src/access/direct_request.rs and src/access/history.rs.
use vaultwarden_cli.Base.{ℕ, Bool, Option, List, Text, ℕ_discrete, PartialEq, of_discrete, ℤ}
use vaultwarden_cli.Storage.{WriteReceipt}
use vaultwarden_cli.Policy.Types.{CreateEffect, CredentialUse, SshReview}

pub data DirectFailure : Type 0 where
  review_unavailable execution_unavailable execution_rejected : DirectFailure
  execution_nonzero execution_signaled observation_lost : DirectFailure

pub data DirectStatus : Type 0 where
  pending approved denied expired running : DirectStatus
  completed : ℤ → DirectStatus
  failed : DirectFailure → DirectStatus

pub data DecisionOutcome : Type 0 where
  invalidated recovered approved denied expired : DecisionOutcome
  review_unavailable execution_unavailable : DecisionOutcome

pub data HistoryOutcome : Type 0 where
  submitted approved denied expired review_unavailable execution_started : HistoryOutcome
  succeeded execution_nonzero execution_signaled observation_lost : HistoryOutcome
  execution_rejected execution_unavailable invalidated recovered : HistoryOutcome
  legacy_unknown reconciled : HistoryOutcome

pub data RequesterSnapshot : Type 0 where
  human : ℕ → Text → RequesterSnapshot
  agent : Text → Text → RequesterSnapshot

pub data ApprovalMethod : Type 0 where
  biometric : Text → ApprovalMethod

pub record ReviewCredential : Type 0 where
  pub label : Text
  pub use_type : CredentialUse

pub record DirectReview : Type 0 where
  pub id : Text
  pub requester : Text
  pub operation : Text
  pub effect : Text
  pub create : Option CreateEffect
  pub target : Text
  pub ssh : Option SshReview
  pub arguments : List Text
  pub credentials : List ReviewCredential
  pub executable_digest : Text
  pub policy_digest : Text
  pub arguments_digest : Text
  pub expires_at_unix_seconds : ℕ
  pub one_time : Text
  pub status : DirectStatus

pub record AgentOwner : Type 0 where
  pub binding_id : Text
  pub label : Text
  pub fingerprint : Text
  pub uid : ℕ
  pub gid : ℕ

pub data RequestOwner : Type 0 where
  human : ℕ → RequestOwner
  agent : AgentOwner → RequestOwner

pub record ApprovalBinding : Type 0 where
  pub request_id : Text
  pub requester_uid : ℕ
  pub agent_owner : Option AgentOwner
  pub policy_digest : Text
  pub arguments_digest : Text
  pub expires_at_unix_seconds : ℕ
  pub lifecycle_epoch : ℕ
  pub record_digest : Text

pub record HistoryEvent : Type 0 where
  pub version : ℕ
  pub request_id : Text
  pub operation : Text
  pub requester : RequesterSnapshot
  pub policy_revision : Text
  pub credentials : List ReviewCredential
  pub create : Option CreateEffect
  pub write_receipt : Option WriteReceipt
  pub ssh : Option SshReview
  pub created_at_unix_seconds : ℕ
  pub expires_at_unix_seconds : ℕ
  pub at_unix_seconds : Option ℕ
  pub ordinal : ℕ
  pub outcome : HistoryOutcome
  pub status : Option DirectStatus
  pub approval : Option ApprovalMethod

pub record DirectRecord : Type 0 where
  pub owner_uid : ℕ
  pub agent_owner : Option AgentOwner
  pub replay_digest : Option Text
  pub created_at_unix_seconds : ℕ
  pub lifecycle_epoch : ℕ
  pub review : DirectReview
  pub binding_digest : Text
  pub approval : Option ApprovalBinding
  pub execution_claimed : Bool
  pub audit : List HistoryEvent
  pub history_version : ℕ
  pub write_receipt : Option WriteReceipt

-- What `DirectRecord::digest` serialises, by the version byte of its three projections.
pub data RecordProjection : Type 0 where
  signed_agent_projection : ℕ → Option AgentOwner → Text → ℕ → ℕ → DirectReview → RecordProjection
  agent_projection : ℕ → AgentOwner → ℕ → ℕ → DirectReview → RecordProjection
  human_projection : ℕ → ℕ → ℕ → DirectReview → RecordProjection

-- `DirectRequestError`
pub data RequestError : Type 0 where
  unauthorized locked invalid_request stale_revision not_found : RequestError
  unavailable review_unavailable already_decided authentication_failed : RequestError

unfoldable pub DirectStatus-discrete : Discrete DirectStatus
DirectStatus-discrete = hlevel ℕ_discrete

unfoldable pub OptionStatus-discrete : Discrete (Option DirectStatus)
OptionStatus-discrete = hlevel ℕ_discrete

unfoldable pub DecisionOutcome-discrete : Discrete DecisionOutcome
DecisionOutcome-discrete = hlevel

unfoldable pub HistoryOutcome-discrete : Discrete HistoryOutcome
HistoryOutcome-discrete = hlevel

unfoldable pub AgentOwner-discrete : Discrete AgentOwner
AgentOwner-discrete = hlevel ℕ_discrete

unfoldable pub OptionOwner-discrete : Discrete (Option AgentOwner)
OptionOwner-discrete = hlevel ℕ_discrete

unfoldable pub ApprovalBinding-discrete : Discrete ApprovalBinding
ApprovalBinding-discrete = hlevel ℕ_discrete

unfoldable pub OptionBinding-discrete : Discrete (Option ApprovalBinding)
OptionBinding-discrete = hlevel ℕ_discrete

unfoldable pub HistoryEvent-discrete : Discrete HistoryEvent
HistoryEvent-discrete = hlevel ℕ_discrete

unfoldable pub DirectReview-discrete : Discrete DirectReview
DirectReview-discrete = hlevel ℕ_discrete

unfoldable pub OptionTime-discrete : Discrete (Option ℕ)
OptionTime-discrete = hlevel ℕ_discrete

instance abbrev pub status_eq : PartialEq DirectStatus
status_eq = of_discrete DirectStatus-discrete

instance abbrev pub option_status_eq : PartialEq (Option DirectStatus)
option_status_eq = of_discrete OptionStatus-discrete

instance abbrev pub decision_eq : PartialEq DecisionOutcome
decision_eq = of_discrete DecisionOutcome-discrete

instance abbrev pub outcome_eq : PartialEq HistoryOutcome
outcome_eq = of_discrete HistoryOutcome-discrete

instance abbrev pub owner_eq : PartialEq AgentOwner
owner_eq = of_discrete AgentOwner-discrete

instance abbrev pub option_owner_eq : PartialEq (Option AgentOwner)
option_owner_eq = of_discrete OptionOwner-discrete

instance abbrev pub binding_eq : PartialEq ApprovalBinding
binding_eq = of_discrete ApprovalBinding-discrete

instance abbrev pub option_binding_eq : PartialEq (Option ApprovalBinding)
option_binding_eq = of_discrete OptionBinding-discrete

instance abbrev pub event_eq : PartialEq HistoryEvent
event_eq = of_discrete HistoryEvent-discrete

instance abbrev pub review_eq : PartialEq DirectReview
review_eq = of_discrete DirectReview-discrete

instance abbrev pub option_time_eq : PartialEq (Option ℕ)
option_time_eq = of_discrete OptionTime-discrete
