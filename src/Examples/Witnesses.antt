-- ===== src/Examples/Witnesses.antt =====
-- The theorems of this library, each at a concrete input.
use vaultwarden_cli.State.Transition.{advance, advance_request, transition}
use vaultwarden_cli.Request.Record.{
  seal, digest, approval_binding, validate_history, history_loop, history_step,
  legacy_one_time_text, owner_valid, position_valid, previous_one_time_text, projection,
  receipt_valid, review_requester, shape_valid, claim_valid, validate, human_visible,
}
use vaultwarden_cli.Ident.{
  hex_sha256, decodes_to, valid_operation_id, valid_request_id, valid_sha256,
}
use vaultwarden_cli.Request.Types.{
  ApprovalBinding-discrete, OptionBinding-discrete, DirectStatus-discrete, DecisionOutcome-discrete,
  HistoryEvent-discrete, HistoryOutcome-discrete, OptionStatus-discrete, OptionTime-discrete,
  ApprovalBinding, DirectStatus, DecisionOutcome, status_eq, option_binding_eq, binding_eq,
}
use vaultwarden_cli.Examples.Inputs.{
  review, approved_record, claimed_record, pending_record, running_record, state_of, begun_record,
  expired_record, recovered_state, toy_store, toy_host, request_id, good_io, effect,
}
use vaultwarden_cli.Request.History.{
  snapshot, matches_record, receipt_follows, event_valid, identity_valid, consistent_outcome,
  expected_event, owner,
}
use vaultwarden_cli.Base.{
  false, all, ◌≢◌, ◌⊎◌, is_ok, ◌+◌, some, Text, err, OptionText-discrete, Text-discrete, ℕ_discrete,
  print_digits, ◌≡◌, refl, true, ok, nat_eq, text_eq, option_text_eq, ◌≤◌, arith,
}
use vaultwarden_cli.Policy.Checks.{
  adjacent_equal, create_valid, has_duplicates, insert_sorted, sort,
}
use vaultwarden_cli.Policy.Review.{
  arguments_digest, create_effect_text, human_requester, one_time_text,
}
use vaultwarden_cli.Policy.Ssh.{
  normalize_fingerprint, normalize_host, ssh_target, ssh_valid, valid_image_path, valid_ssh_path,
  valid_ssh_review,
}
use vaultwarden_cli.Request.Status.{exit_in_range, outcome, is_terminal}
use vaultwarden_cli.Storage.{
  OptionReceipt-discrete, WriteStatus-discrete, canonical_path, item_name, valid_field_name,
  valid_id, destination_eq, option_receipt_eq,
}
use mathlib.Core.Bool.{decide}
use vaultwarden_cli.State.Validate.{
  state_valid, catalogue_valid, requests_valid, request_valid, direct_valid, markers_distinct,
  policy_bound,
}
use vaultwarden_cli.Agents.{
  registry_valid, audit_actions, bindings_distinct, action_settled, binding_valid,
}
use vaultwarden_cli.State.Types.{
  initial, LifecycleStatus-discrete, RequestLifecycleStatus, lifecycle_status_eq,
}
use vaultwarden_cli.Provider.Execution.{started_plan, claim_plan}
use vaultwarden_cli.Provider.Writes.{
  begin_plan, attempted_elsewhere, has_attempted, same_target, uncertain_receipt,
}
use vaultwarden_cli.Provider.Defs.{
  find_request, find_direct, replace_request, visible, agent_current, write,
}
use vaultwarden_cli.Provider.Runs.{Planned, Runs, stop, run}
use vaultwarden_cli.Policy.Types.{CreateEffect}
use vaultwarden_cli.Provider.Attempts.{attempts}
use vaultwarden_cli.State.Advance.{new_event}
use vaultwarden_cli.Examples.Inputs.{submission, status_query, value_of, good_write}
use vaultwarden_cli.Examples.Computed.{
  approved_state, claimed_state, running_state, begun_state, binding, claimed_valid, running_valid,
  claim_computes, start_computes, begin_computes,
}
use vaultwarden_cli.Request.Types.{DirectRecord}
use vaultwarden_cli.Store.{invalidated_state, write_state_guarded}
use vaultwarden_cli.Provider.Defs.{Provider, ProviderLockState, transact_guarded, unavailable}
use vaultwarden_cli.State.Types.{ProviderDiagnostic, RequestRecord}
use vaultwarden_cli.Protocol.{
  submission_bytes, query_bytes, validate_submission, validate_query, decode_fixed, revision_bytes,
}
use vaultwarden_cli.Protocol.Framing.{append_field, append_fields, u32_bytes}
use vaultwarden_cli.State.Types.{ProviderState}
use vaultwarden_cli.Provider.Defs.{answer}
use vaultwarden_cli.Provider.Writes.{reconcile_plan, reconciled_record, reconciled_receipt}
use vaultwarden_cli.Provider.Reconciled.{reconcile-again}
use vaultwarden_cli.Examples.Inputs.{item, item_receipt, lost_record, named_record}
use vaultwarden_cli.Provider.ClaimValid.{claim-valid}
use vaultwarden_cli.Provider.Begin.{attempted-once}
use vaultwarden_cli.Provider.Claims.{claim-once}
use vaultwarden_cli.Provider.Kept.{runs-keep}
use vaultwarden_cli.Provider.Refines.{runs-Reaches}
use vaultwarden_cli.State.Lifecycle.{Reaches}
use vaultwarden_cli.Provider.Transact.{transact-durable}
use vaultwarden_cli.State.Keep.{transition-valid}
use vaultwarden_cli.Store.Laws.{write-atomic}
use vaultwarden_cli.Store.Epoch.{invalidated-settled, is_settled}
use vaultwarden_cli.Protocol.Signing.{submission_bytes-injective, submission-not-query}
use vaultwarden_cli.Request.Status.{status_consistent}
use vaultwarden_cli.Base.ℤ.{pos}
use vaultwarden_cli.Request.Events.{outcome-consistent}

begins : Runs 500 running_state begun_state
begins =
    run running_state begun_state begun_state running_valid
      (Planned.begun binding running_state begun_state tt begin_computes) (stop begun_state)

starts : Runs 500 claimed_state running_state
starts =
    run claimed_state running_state running_state claimed_valid
      (Planned.started binding good_io claimed_state running_state tt start_computes)
      (stop running_state)

none_before : (c : CreateEffect) → attempts c running_state.requests ≤ 1
unfolding attempts advance advance_request transition seal digest hex_sha256
    ApprovalBinding-discrete OptionBinding-discrete approval_binding review DirectStatus-discrete
    validate_history snapshot matches_record receipt_follows event_valid identity_valid
    OptionText-discrete Text-discrete ℕ_discrete print_digits approved_record claimed_record
    pending_record running_record decodes_to valid_operation_id valid_request_id valid_sha256
    adjacent_equal create_valid has_duplicates insert_sorted sort arguments_digest
    create_effect_text human_requester one_time_text normalize_fingerprint normalize_host ssh_target
    ssh_valid valid_image_path valid_ssh_path valid_ssh_review consistent_outcome expected_event
    owner history_loop history_step legacy_one_time_text owner_valid position_valid
    previous_one_time_text projection receipt_valid review_requester shape_valid exit_in_range
    outcome claim_valid validate DecisionOutcome-discrete HistoryEvent-discrete
    HistoryOutcome-discrete OptionStatus-discrete OptionTime-discrete OptionReceipt-discrete
    WriteStatus-discrete canonical_path item_name valid_field_name valid_id decide state_valid
    catalogue_valid requests_valid request_valid direct_valid markers_distinct policy_bound
    registry_valid audit_actions bindings_distinct action_settled binding_valid initial
    LifecycleStatus-discrete state_of begun_record expired_record recovered_state toy_store
    started_plan claim_plan begin_plan find_request find_direct replace_request visible
    agent_current human_visible attempted_elsewhere has_attempted same_target uncertain_receipt
    binding
none_before c = omega arith

attempted-once_example : attempts effect begun_state.requests ≤ 1
attempted-once_example = attempted-once 500 running_state begun_state begins none_before effect

claim-once_example : is_ok (claim_plan 1000 500 request_id running_state) ≡ false
claim-once_example =
    claim-once 500 1000 500 request_id approved_state claimed_state running_state binding
      claim_computes starts 1000 500

claimed_found : find_direct request_id claimed_state.requests ≡ some claimed_record
unfolding advance advance_request transition seal digest hex_sha256 ApprovalBinding-discrete
    OptionBinding-discrete approval_binding review DirectStatus-discrete validate_history snapshot
    matches_record receipt_follows event_valid identity_valid OptionText-discrete Text-discrete
    ℕ_discrete print_digits approved_record claimed_record pending_record running_record decodes_to
    valid_operation_id valid_request_id valid_sha256 adjacent_equal create_valid has_duplicates
    insert_sorted sort arguments_digest create_effect_text human_requester one_time_text
    normalize_fingerprint normalize_host ssh_target ssh_valid valid_image_path valid_ssh_path
    valid_ssh_review consistent_outcome expected_event owner history_loop history_step
    legacy_one_time_text owner_valid position_valid previous_one_time_text projection receipt_valid
    review_requester shape_valid exit_in_range outcome claim_valid validate DecisionOutcome-discrete
    HistoryEvent-discrete HistoryOutcome-discrete OptionStatus-discrete OptionTime-discrete
    OptionReceipt-discrete WriteStatus-discrete canonical_path item_name valid_field_name valid_id
    decide state_valid catalogue_valid requests_valid request_valid direct_valid markers_distinct
    policy_bound registry_valid audit_actions bindings_distinct action_settled binding_valid initial
    LifecycleStatus-discrete state_of begun_record expired_record recovered_state toy_store
    started_plan claim_plan begin_plan find_request find_direct replace_request visible
    agent_current human_visible attempted_elsewhere has_attempted same_target uncertain_receipt
    binding
claimed_found = refl

runs-keep_example :
    (d' : DirectRecord) × (find_direct request_id running_state.requests ≡ some d')
    × (digest d' ≡ digest claimed_record)
    × (claimed_record.execution_claimed ≡ true → d'.execution_claimed ≡ true)
    × (is_terminal claimed_record.review.status ≡ true
        → d'.review.status ≡ claimed_record.review.status)
runs-keep_example =
    runs-keep 500 request_id claimed_state running_state claimed_record starts claimed_found

runs-Reaches_example :
    (d' : DirectRecord) × (find_direct request_id running_state.requests ≡ some d')
    × Reaches claimed_record.review.status claimed_record.execution_claimed d'.review.status
        d'.execution_claimed
runs-Reaches_example =
    runs-Reaches 500 request_id claimed_state running_state claimed_record starts claimed_found

claimed_record_valid : validate claimed_record request_id 0 ≡ true
unfolding advance advance_request transition seal digest hex_sha256 ApprovalBinding-discrete
    OptionBinding-discrete approval_binding review DirectStatus-discrete validate_history snapshot
    matches_record receipt_follows event_valid identity_valid OptionText-discrete Text-discrete
    ℕ_discrete print_digits approved_record claimed_record pending_record running_record decodes_to
    valid_operation_id valid_request_id valid_sha256 adjacent_equal create_valid has_duplicates
    insert_sorted sort arguments_digest create_effect_text human_requester one_time_text
    normalize_fingerprint normalize_host ssh_target ssh_valid valid_image_path valid_ssh_path
    valid_ssh_review consistent_outcome expected_event owner history_loop history_step
    legacy_one_time_text owner_valid position_valid previous_one_time_text projection receipt_valid
    review_requester shape_valid exit_in_range outcome claim_valid validate DecisionOutcome-discrete
    HistoryEvent-discrete HistoryOutcome-discrete OptionStatus-discrete OptionTime-discrete
    OptionReceipt-discrete WriteStatus-discrete canonical_path item_name valid_field_name valid_id
    decide state_valid catalogue_valid requests_valid request_valid direct_valid markers_distinct
    policy_bound registry_valid audit_actions bindings_distinct action_settled binding_valid initial
    LifecycleStatus-discrete state_of begun_record expired_record recovered_state toy_store
    started_plan claim_plan begin_plan find_request find_direct replace_request visible
    agent_current human_visible attempted_elsewhere has_attempted same_target uncertain_receipt
    binding
claimed_record_valid = refl

claims_start :
    claim_valid claimed_record.execution_claimed
      (new_event claimed_record DirectStatus.running DecisionOutcome.approved 150)
    ≡ true
unfolding new_event advance advance_request transition seal digest hex_sha256
    ApprovalBinding-discrete OptionBinding-discrete approval_binding review DirectStatus-discrete
    validate_history snapshot matches_record receipt_follows event_valid identity_valid
    OptionText-discrete Text-discrete ℕ_discrete print_digits approved_record claimed_record
    pending_record running_record decodes_to valid_operation_id valid_request_id valid_sha256
    adjacent_equal create_valid has_duplicates insert_sorted sort arguments_digest
    create_effect_text human_requester one_time_text normalize_fingerprint normalize_host ssh_target
    ssh_valid valid_image_path valid_ssh_path valid_ssh_review consistent_outcome expected_event
    owner history_loop history_step legacy_one_time_text owner_valid position_valid
    previous_one_time_text projection receipt_valid review_requester shape_valid exit_in_range
    outcome claim_valid validate DecisionOutcome-discrete HistoryEvent-discrete
    HistoryOutcome-discrete OptionStatus-discrete OptionTime-discrete OptionReceipt-discrete
    WriteStatus-discrete canonical_path item_name valid_field_name valid_id decide state_valid
    catalogue_valid requests_valid request_valid direct_valid markers_distinct policy_bound
    registry_valid audit_actions bindings_distinct action_settled binding_valid initial
    LifecycleStatus-discrete state_of begun_record expired_record recovered_state toy_store
    started_plan claim_plan begin_plan find_request find_direct replace_request visible
    agent_current human_visible attempted_elsewhere has_attempted same_target uncertain_receipt
    binding
claims_start = refl

running_in_range : exit_in_range DirectStatus.running ≡ true
unfolding exit_in_range
running_in_range = refl

abbrev request_of : RequestLifecycleStatus → DirectRecord → RequestRecord
request_of status d = record { id = request_id; status = status; direct = some d }

starts_running :
    transition
      (request_of RequestLifecycleStatus.approved claimed_record)
      DirectStatus.running
      DecisionOutcome.approved
      150
    ≡ ok (request_of RequestLifecycleStatus.running running_record)
unfolding advance advance_request transition seal digest hex_sha256 ApprovalBinding-discrete
    OptionBinding-discrete approval_binding review DirectStatus-discrete validate_history snapshot
    matches_record receipt_follows event_valid identity_valid OptionText-discrete Text-discrete
    ℕ_discrete print_digits approved_record claimed_record pending_record running_record decodes_to
    valid_operation_id valid_request_id valid_sha256 adjacent_equal create_valid has_duplicates
    insert_sorted sort arguments_digest create_effect_text human_requester one_time_text
    normalize_fingerprint normalize_host ssh_target ssh_valid valid_image_path valid_ssh_path
    valid_ssh_review consistent_outcome expected_event owner history_loop history_step
    legacy_one_time_text owner_valid position_valid previous_one_time_text projection receipt_valid
    review_requester shape_valid exit_in_range outcome claim_valid validate DecisionOutcome-discrete
    HistoryEvent-discrete HistoryOutcome-discrete OptionStatus-discrete OptionTime-discrete
    OptionReceipt-discrete WriteStatus-discrete canonical_path item_name valid_field_name valid_id
    decide state_valid catalogue_valid requests_valid request_valid direct_valid markers_distinct
    policy_bound registry_valid audit_actions bindings_distinct action_settled binding_valid initial
    LifecycleStatus-discrete state_of begun_record expired_record recovered_state toy_store
    started_plan claim_plan begin_plan find_request find_direct replace_request visible
    agent_current human_visible attempted_elsewhere has_attempted same_target uncertain_receipt
    binding
starts_running = refl

transition-valid_example :
    (d : DirectRecord) × (some running_record ≡ some d) × (validate d request_id 0 ≡ true)
transition-valid_example =
    transition-valid (request_of RequestLifecycleStatus.approved claimed_record)
      (request_of RequestLifecycleStatus.running running_record) claimed_record DirectStatus.running
      DecisionOutcome.approved 150 request_id 0 refl claimed_record_valid running_in_range
      claims_start starts_running

recovers :
    invalidated_state true good_io (state_of RequestLifecycleStatus.pending pending_record)
    ≡ ok recovered_state
unfolding invalidated_state advance advance_request transition seal digest hex_sha256
    ApprovalBinding-discrete OptionBinding-discrete approval_binding review DirectStatus-discrete
    validate_history snapshot matches_record receipt_follows event_valid identity_valid
    OptionText-discrete Text-discrete ℕ_discrete print_digits approved_record claimed_record
    pending_record running_record decodes_to valid_operation_id valid_request_id valid_sha256
    adjacent_equal create_valid has_duplicates insert_sorted sort arguments_digest
    create_effect_text human_requester one_time_text normalize_fingerprint normalize_host ssh_target
    ssh_valid valid_image_path valid_ssh_path valid_ssh_review consistent_outcome expected_event
    owner history_loop history_step legacy_one_time_text owner_valid position_valid
    previous_one_time_text projection receipt_valid review_requester shape_valid exit_in_range
    outcome claim_valid validate DecisionOutcome-discrete HistoryEvent-discrete
    HistoryOutcome-discrete OptionStatus-discrete OptionTime-discrete OptionReceipt-discrete
    WriteStatus-discrete canonical_path item_name valid_field_name valid_id decide state_valid
    catalogue_valid requests_valid request_valid direct_valid markers_distinct policy_bound
    registry_valid audit_actions bindings_distinct action_settled binding_valid initial
    LifecycleStatus-discrete state_of begun_record expired_record recovered_state toy_store
    started_plan claim_plan begin_plan find_request find_direct replace_request visible
    agent_current human_visible attempted_elsewhere has_attempted same_target uncertain_receipt
    binding
recovers = refl

invalidated-settled_example :
    (recovered_state.lifecycle_epoch
      ≡ (state_of RequestLifecycleStatus.pending pending_record).lifecycle_epoch + 1)
    × (all (is_settled true) recovered_state.requests ≡ true)
invalidated-settled_example =
    invalidated-settled true good_io (state_of RequestLifecycleStatus.pending pending_record)
      recovered_state recovers

write-atomic_example :
    let (r, s') = write_state_guarded (toy_store claimed_state) running_state good_write in
    ((r ≡ ok tt)
      × (s' ≡ toy_store running_state)
      × (state_valid running_state 500 ≡ true)
      × (good_write.before ≡ true)
      × (good_write.after ≡ true))
    ⊎ (((e : ProviderDiagnostic) × (r ≡ err e) × (s' ≡ toy_store claimed_state))
        ⊎ ((r ≡ err ProviderDiagnostic.persistence_failure)
            × (s' ≡ record (toy_store running_state) { poisoned = true })
            × (state_valid running_state 500 ≡ true)))
unfolding toy_store
write-atomic_example = write-atomic (toy_store claimed_state) running_state good_write

abbrev provider : Provider
provider = record {
  store = toy_store approved_state;
  lock_state = ProviderLockState.locked;
  state = approved_state;
}

transact-durable_example :
    let (r, p') = transact_guarded unavailable provider good_io (claim_plan 1000 500 request_id) in
    (p'.store.durable ≡ approved_state)
    ⊎ ((b : ApprovalBinding) × (claim_plan 1000 500 request_id approved_state
          ≡ ok (write p'.store.durable b))
        × (state_valid approved_state 500 ≡ true)
        × (state_valid p'.store.durable 500 ≡ true))
unfolding toy_store
transact-durable_example =
    transact-durable unavailable provider good_io (claim_plan 1000 500 request_id)

abbrev submitted_bytes : Text
submitted_bytes = value_of (submission_bytes submission)

abbrev query_text : Text
query_text = value_of (query_bytes status_query)

signs : submission_bytes submission ≡ ok submitted_bytes
unfolding submission_bytes validate_submission validate_query decode_fixed revision_bytes
    append_field append_fields u32_bytes valid_operation_id valid_sha256 valid_request_id decodes_to
    Text-discrete decide ℕ_discrete
signs = refl

asks : query_bytes status_query ≡ ok query_text
unfolding query_bytes validate_submission validate_query decode_fixed revision_bytes append_field
    append_fields u32_bytes valid_operation_id valid_sha256 valid_request_id decodes_to
    Text-discrete decide ℕ_discrete
asks = refl

submission_bytes-injective_example :
    (submission.protocol_version ≡ submission.protocol_version)
    × (submission.purpose ≡ submission.purpose)
    × (submission.binding_id ≡ submission.binding_id)
    × (submission.nonce ≡ submission.nonce)
    × (submission.operation_id ≡ submission.operation_id)
    × (submission.expected_policy_revision ≡ submission.expected_policy_revision)
    × (submission.args ≡ submission.args)
submission_bytes-injective_example = submission_bytes-injective submission submission signs signs

submission-not-query_example : submitted_bytes ≢ query_text
submission-not-query_example =
    submission-not-query submission status_query submitted_bytes query_text signs asks

exit_three : exit_in_range (DirectStatus.completed (pos 3)) ≡ true
unfolding exit_in_range
exit_three = refl

outcome-consistent_example :
    status_consistent
      (outcome (DirectStatus.completed (pos 3)) DecisionOutcome.approved)
      (DirectStatus.completed (pos 3))
    ≡ true
outcome-consistent_example =
    outcome-consistent (DirectStatus.completed (pos 3)) DecisionOutcome.approved exit_three

abbrev lost_state : ProviderState
lost_state = state_of RequestLifecycleStatus.failed lost_record

abbrev named_state : ProviderState
named_state = state_of RequestLifecycleStatus.failed named_record

reconciles : reconcile_plan request_id item good_io lost_state ≡ ok (write named_state item_receipt)
unfolding reconcile_plan reconciled_record reconciled_receipt state_of lost_record named_record
    find_request replace_request begun_record running_record advance snapshot uncertain_receipt
    HistoryOutcome-discrete WriteStatus-discrete outcome Text-discrete decide ℕ_discrete
    DecisionOutcome-discrete
reconciles = refl

reconcile-again_example :
    reconcile_plan request_id item good_io named_state ≡ ok (answer item_receipt)
reconcile-again_example =
    reconcile-again request_id item good_io good_io lost_state named_state item_receipt reconciles

approved_found : find_direct request_id approved_state.requests ≡ some approved_record
unfolding advance advance_request transition seal digest hex_sha256 ApprovalBinding-discrete
    OptionBinding-discrete approval_binding review DirectStatus-discrete validate_history snapshot
    matches_record receipt_follows event_valid identity_valid OptionText-discrete Text-discrete
    ℕ_discrete print_digits approved_record claimed_record pending_record running_record decodes_to
    valid_operation_id valid_request_id valid_sha256 adjacent_equal create_valid has_duplicates
    insert_sorted sort arguments_digest create_effect_text human_requester one_time_text
    normalize_fingerprint normalize_host ssh_target ssh_valid valid_image_path valid_ssh_path
    valid_ssh_review consistent_outcome expected_event owner history_loop history_step
    legacy_one_time_text owner_valid position_valid previous_one_time_text projection receipt_valid
    review_requester shape_valid exit_in_range outcome claim_valid validate DecisionOutcome-discrete
    HistoryEvent-discrete HistoryOutcome-discrete OptionStatus-discrete OptionTime-discrete
    OptionReceipt-discrete WriteStatus-discrete canonical_path item_name valid_field_name valid_id
    decide state_valid catalogue_valid requests_valid request_valid direct_valid markers_distinct
    policy_bound registry_valid audit_actions bindings_distinct action_settled binding_valid initial
    LifecycleStatus-discrete state_of begun_record expired_record recovered_state toy_store
    started_plan claim_plan begin_plan find_request find_direct replace_request visible
    agent_current human_visible attempted_elsewhere has_attempted same_target uncertain_receipt
    binding
approved_found = refl

approved_record_valid : validate approved_record request_id 0 ≡ true
unfolding advance advance_request transition seal digest hex_sha256 ApprovalBinding-discrete
    OptionBinding-discrete approval_binding review DirectStatus-discrete validate_history snapshot
    matches_record receipt_follows event_valid identity_valid OptionText-discrete Text-discrete
    ℕ_discrete print_digits approved_record claimed_record pending_record running_record decodes_to
    valid_operation_id valid_request_id valid_sha256 adjacent_equal create_valid has_duplicates
    insert_sorted sort arguments_digest create_effect_text human_requester one_time_text
    normalize_fingerprint normalize_host ssh_target ssh_valid valid_image_path valid_ssh_path
    valid_ssh_review consistent_outcome expected_event owner history_loop history_step
    legacy_one_time_text owner_valid position_valid previous_one_time_text projection receipt_valid
    review_requester shape_valid exit_in_range outcome claim_valid validate DecisionOutcome-discrete
    HistoryEvent-discrete HistoryOutcome-discrete OptionStatus-discrete OptionTime-discrete
    OptionReceipt-discrete WriteStatus-discrete canonical_path item_name valid_field_name valid_id
    decide state_valid catalogue_valid requests_valid request_valid direct_valid markers_distinct
    policy_bound registry_valid audit_actions bindings_distinct action_settled binding_valid initial
    LifecycleStatus-discrete state_of begun_record expired_record recovered_state toy_store
    started_plan claim_plan begin_plan find_request find_direct replace_request visible
    agent_current human_visible attempted_elsewhere has_attempted same_target uncertain_receipt
    binding
approved_record_valid = refl

claim-valid_example :
    (d : DirectRecord) × (find_direct request_id claimed_state.requests ≡ some d)
    × (d.execution_claimed ≡ true)
    × (validate d request_id 0 ≡ true)
claim-valid_example =
    claim-valid request_id 0 approved_state approved_record approved_found approved_record_valid
      1000 500 claimed_state binding claim_computes
