-- ===== src/Examples/Computed.antt =====
-- States that the provider reads and plans that it makes, as they compute.
use vaultwarden_cli.State.Transition.{advance, advance_request, transition}
use vaultwarden_cli.Request.Record.{
  seal, digest, approval_binding, validate_history, history_loop, history_step,
  legacy_one_time_text, owner_valid, position_valid, previous_one_time_text, projection,
  receipt_valid, review_requester, shape_valid, claim_valid, validate, human_visible,
}
use vaultwarden_cli.Ident.{
  hex_sha256, decodes_to, valid_operation_id, valid_request_id, valid_sha256,
}
use vaultwarden_cli.Request.Types.{
  ApprovalBinding-discrete, OptionBinding-discrete, DirectStatus-discrete, DecisionOutcome-discrete,
  HistoryEvent-discrete, HistoryOutcome-discrete, OptionStatus-discrete, OptionTime-discrete,
  ApprovalBinding, status_eq, option_binding_eq, binding_eq,
}
use vaultwarden_cli.Examples.Inputs.{
  review, approved_record, claimed_record, pending_record, running_record, state_of, begun_record,
  expired_record, recovered_state, toy_store, toy_host, request_id, good_io,
}
use vaultwarden_cli.Request.History.{
  snapshot, matches_record, receipt_follows, event_valid, identity_valid, consistent_outcome,
  expected_event, owner,
}
use vaultwarden_cli.Base.{
  OptionText-discrete, Text-discrete, ℕ_discrete, print_digits, ◌≡◌, refl, true, ok, nat_eq,
  text_eq, option_text_eq,
}
use vaultwarden_cli.Policy.Checks.{
  adjacent_equal, create_valid, has_duplicates, insert_sorted, sort,
}
use vaultwarden_cli.Policy.Review.{
  arguments_digest, create_effect_text, human_requester, one_time_text,
}
use vaultwarden_cli.Policy.Ssh.{
  normalize_fingerprint, normalize_host, ssh_target, ssh_valid, valid_image_path, valid_ssh_path,
  valid_ssh_review,
}
use vaultwarden_cli.Request.Status.{exit_in_range, outcome}
use vaultwarden_cli.Storage.{
  OptionReceipt-discrete, WriteStatus-discrete, canonical_path, item_name, valid_field_name,
  valid_id, destination_eq, option_receipt_eq,
}
use mathlib.Core.Bool.{decide}
use vaultwarden_cli.State.Validate.{
  state_valid, catalogue_valid, requests_valid, request_valid, direct_valid, markers_distinct,
  policy_bound,
}
use vaultwarden_cli.Agents.{
  registry_valid, audit_actions, bindings_distinct, action_settled, binding_valid,
}
use vaultwarden_cli.State.Types.{
  initial, LifecycleStatus-discrete, RequestLifecycleStatus, ProviderState, lifecycle_status_eq,
}
use vaultwarden_cli.Provider.Execution.{started_plan, claim_plan}
use vaultwarden_cli.Provider.Writes.{
  begin_plan, attempted_elsewhere, has_attempted, same_target, uncertain_receipt,
}
use vaultwarden_cli.Provider.Defs.{
  find_request, find_direct, replace_request, visible, agent_current, write,
}

abbrev pub approved_state : ProviderState
approved_state = state_of RequestLifecycleStatus.approved approved_record

abbrev pub claimed_state : ProviderState
claimed_state = state_of RequestLifecycleStatus.approved claimed_record

abbrev pub running_state : ProviderState
running_state = state_of RequestLifecycleStatus.running running_record

abbrev pub begun_state : ProviderState
begun_state = state_of RequestLifecycleStatus.running begun_record

unfoldable pub binding : ApprovalBinding
binding = approval_binding approved_record

pub approved_valid : state_valid approved_state 500 ≡ true
unfolding advance advance_request transition seal digest hex_sha256 ApprovalBinding-discrete
    OptionBinding-discrete approval_binding review DirectStatus-discrete validate_history snapshot
    matches_record receipt_follows event_valid identity_valid OptionText-discrete Text-discrete
    ℕ_discrete print_digits approved_record claimed_record pending_record running_record decodes_to
    valid_operation_id valid_request_id valid_sha256 adjacent_equal create_valid has_duplicates
    insert_sorted sort arguments_digest create_effect_text human_requester one_time_text
    normalize_fingerprint normalize_host ssh_target ssh_valid valid_image_path valid_ssh_path
    valid_ssh_review consistent_outcome expected_event owner history_loop history_step
    legacy_one_time_text owner_valid position_valid previous_one_time_text projection receipt_valid
    review_requester shape_valid exit_in_range outcome claim_valid validate DecisionOutcome-discrete
    HistoryEvent-discrete HistoryOutcome-discrete OptionStatus-discrete OptionTime-discrete
    OptionReceipt-discrete WriteStatus-discrete canonical_path item_name valid_field_name valid_id
    decide state_valid catalogue_valid requests_valid request_valid direct_valid markers_distinct
    policy_bound registry_valid audit_actions bindings_distinct action_settled binding_valid initial
    LifecycleStatus-discrete state_of begun_record expired_record recovered_state toy_store
    started_plan claim_plan begin_plan find_request find_direct replace_request visible
    agent_current human_visible attempted_elsewhere has_attempted same_target uncertain_receipt
    binding
approved_valid = refl

pub claimed_valid : state_valid claimed_state 500 ≡ true
unfolding advance advance_request transition seal digest hex_sha256 ApprovalBinding-discrete
    OptionBinding-discrete approval_binding review DirectStatus-discrete validate_history snapshot
    matches_record receipt_follows event_valid identity_valid OptionText-discrete Text-discrete
    ℕ_discrete print_digits approved_record claimed_record pending_record running_record decodes_to
    valid_operation_id valid_request_id valid_sha256 adjacent_equal create_valid has_duplicates
    insert_sorted sort arguments_digest create_effect_text human_requester one_time_text
    normalize_fingerprint normalize_host ssh_target ssh_valid valid_image_path valid_ssh_path
    valid_ssh_review consistent_outcome expected_event owner history_loop history_step
    legacy_one_time_text owner_valid position_valid previous_one_time_text projection receipt_valid
    review_requester shape_valid exit_in_range outcome claim_valid validate DecisionOutcome-discrete
    HistoryEvent-discrete HistoryOutcome-discrete OptionStatus-discrete OptionTime-discrete
    OptionReceipt-discrete WriteStatus-discrete canonical_path item_name valid_field_name valid_id
    decide state_valid catalogue_valid requests_valid request_valid direct_valid markers_distinct
    policy_bound registry_valid audit_actions bindings_distinct action_settled binding_valid initial
    LifecycleStatus-discrete state_of begun_record expired_record recovered_state toy_store
    started_plan claim_plan begin_plan find_request find_direct replace_request visible
    agent_current human_visible attempted_elsewhere has_attempted same_target uncertain_receipt
    binding
claimed_valid = refl

pub running_valid : state_valid running_state 500 ≡ true
unfolding advance advance_request transition seal digest hex_sha256 ApprovalBinding-discrete
    OptionBinding-discrete approval_binding review DirectStatus-discrete validate_history snapshot
    matches_record receipt_follows event_valid identity_valid OptionText-discrete Text-discrete
    ℕ_discrete print_digits approved_record claimed_record pending_record running_record decodes_to
    valid_operation_id valid_request_id valid_sha256 adjacent_equal create_valid has_duplicates
    insert_sorted sort arguments_digest create_effect_text human_requester one_time_text
    normalize_fingerprint normalize_host ssh_target ssh_valid valid_image_path valid_ssh_path
    valid_ssh_review consistent_outcome expected_event owner history_loop history_step
    legacy_one_time_text owner_valid position_valid previous_one_time_text projection receipt_valid
    review_requester shape_valid exit_in_range outcome claim_valid validate DecisionOutcome-discrete
    HistoryEvent-discrete HistoryOutcome-discrete OptionStatus-discrete OptionTime-discrete
    OptionReceipt-discrete WriteStatus-discrete canonical_path item_name valid_field_name valid_id
    decide state_valid catalogue_valid requests_valid request_valid direct_valid markers_distinct
    policy_bound registry_valid audit_actions bindings_distinct action_settled binding_valid initial
    LifecycleStatus-discrete state_of begun_record expired_record recovered_state toy_store
    started_plan claim_plan begin_plan find_request find_direct replace_request visible
    agent_current human_visible attempted_elsewhere has_attempted same_target uncertain_receipt
    binding
running_valid = refl

pub claim_computes :
    claim_plan 1000 500 request_id approved_state ≡ ok (write claimed_state binding)
unfolding advance advance_request transition seal digest hex_sha256 ApprovalBinding-discrete
    OptionBinding-discrete approval_binding review DirectStatus-discrete validate_history snapshot
    matches_record receipt_follows event_valid identity_valid OptionText-discrete Text-discrete
    ℕ_discrete print_digits approved_record claimed_record pending_record running_record decodes_to
    valid_operation_id valid_request_id valid_sha256 adjacent_equal create_valid has_duplicates
    insert_sorted sort arguments_digest create_effect_text human_requester one_time_text
    normalize_fingerprint normalize_host ssh_target ssh_valid valid_image_path valid_ssh_path
    valid_ssh_review consistent_outcome expected_event owner history_loop history_step
    legacy_one_time_text owner_valid position_valid previous_one_time_text projection receipt_valid
    review_requester shape_valid exit_in_range outcome claim_valid validate DecisionOutcome-discrete
    HistoryEvent-discrete HistoryOutcome-discrete OptionStatus-discrete OptionTime-discrete
    OptionReceipt-discrete WriteStatus-discrete canonical_path item_name valid_field_name valid_id
    decide state_valid catalogue_valid requests_valid request_valid direct_valid markers_distinct
    policy_bound registry_valid audit_actions bindings_distinct action_settled binding_valid initial
    LifecycleStatus-discrete state_of begun_record expired_record recovered_state toy_store
    started_plan claim_plan begin_plan find_request find_direct replace_request visible
    agent_current human_visible attempted_elsewhere has_attempted same_target uncertain_receipt
    binding
claim_computes = refl

pub start_computes : started_plan binding good_io claimed_state ≡ ok (write running_state tt)
unfolding advance advance_request transition seal digest hex_sha256 ApprovalBinding-discrete
    OptionBinding-discrete approval_binding review DirectStatus-discrete validate_history snapshot
    matches_record receipt_follows event_valid identity_valid OptionText-discrete Text-discrete
    ℕ_discrete print_digits approved_record claimed_record pending_record running_record decodes_to
    valid_operation_id valid_request_id valid_sha256 adjacent_equal create_valid has_duplicates
    insert_sorted sort arguments_digest create_effect_text human_requester one_time_text
    normalize_fingerprint normalize_host ssh_target ssh_valid valid_image_path valid_ssh_path
    valid_ssh_review consistent_outcome expected_event owner history_loop history_step
    legacy_one_time_text owner_valid position_valid previous_one_time_text projection receipt_valid
    review_requester shape_valid exit_in_range outcome claim_valid validate DecisionOutcome-discrete
    HistoryEvent-discrete HistoryOutcome-discrete OptionStatus-discrete OptionTime-discrete
    OptionReceipt-discrete WriteStatus-discrete canonical_path item_name valid_field_name valid_id
    decide state_valid catalogue_valid requests_valid request_valid direct_valid markers_distinct
    policy_bound registry_valid audit_actions bindings_distinct action_settled binding_valid initial
    LifecycleStatus-discrete state_of begun_record expired_record recovered_state toy_store
    started_plan claim_plan begin_plan find_request find_direct replace_request visible
    agent_current human_visible attempted_elsewhere has_attempted same_target uncertain_receipt
    binding
start_computes = refl

pub begin_computes : begin_plan binding running_state ≡ ok (write begun_state tt)
unfolding advance advance_request transition seal digest hex_sha256 ApprovalBinding-discrete
    OptionBinding-discrete approval_binding review DirectStatus-discrete validate_history snapshot
    matches_record receipt_follows event_valid identity_valid OptionText-discrete Text-discrete
    ℕ_discrete print_digits approved_record claimed_record pending_record running_record decodes_to
    valid_operation_id valid_request_id valid_sha256 adjacent_equal create_valid has_duplicates
    insert_sorted sort arguments_digest create_effect_text human_requester one_time_text
    normalize_fingerprint normalize_host ssh_target ssh_valid valid_image_path valid_ssh_path
    valid_ssh_review consistent_outcome expected_event owner history_loop history_step
    legacy_one_time_text owner_valid position_valid previous_one_time_text projection receipt_valid
    review_requester shape_valid exit_in_range outcome claim_valid validate DecisionOutcome-discrete
    HistoryEvent-discrete HistoryOutcome-discrete OptionStatus-discrete OptionTime-discrete
    OptionReceipt-discrete WriteStatus-discrete canonical_path item_name valid_field_name valid_id
    decide state_valid catalogue_valid requests_valid request_valid direct_valid markers_distinct
    policy_bound registry_valid audit_actions bindings_distinct action_settled binding_valid initial
    LifecycleStatus-discrete state_of begun_record expired_record recovered_state toy_store
    started_plan claim_plan begin_plan find_request find_direct replace_request visible
    agent_current human_visible attempted_elsewhere has_attempted same_target uncertain_receipt
    binding
begin_computes = refl
