-- ===== src/Examples/Agents.antt =====
-- An agent's status query, and its marker after it.
use vaultwarden_cli.Base.{◌≡◌, refl, true, some, [], ◌∷◌, codes, ok, err, Text-discrete, ℕ_discrete}
use mathlib.Core.Bool.{decide}
use vaultwarden_cli.Ident.{
  decodes_to, hex_sha256, valid_request_id, valid_operation_id, valid_sha256,
}
use vaultwarden_cli.Request.Types.{DirectRecord, AgentOwner, AgentOwner-discrete}
use vaultwarden_cli.Request.Record.{seal}
use vaultwarden_cli.Agents.{
  AgentBinding, AgentBindingStatus, owner_matches, from_binding, BindingStatus-discrete,
}
use vaultwarden_cli.Protocol.{
  AgentRejection, submission_marker, query_marker, marker_of, validate_query, validate_submission,
  decode_fixed,
}
use vaultwarden_cli.Protocol.Framing.{append_field, u32_bytes}
use vaultwarden_cli.State.Types.{ProviderState, RequestLifecycleStatus}
use vaultwarden_cli.Provider.Defs.{
  Provider, ProviderLockState, write, find_direct, find_request, agent_current,
}
use vaultwarden_cli.Provider.Signed.{query_plan, is_used, owned_status, create_signed}
use vaultwarden_cli.Provider.Runs.{stop}
use vaultwarden_cli.Provider.Replay.{Uses, submission-once, query-once}
use vaultwarden_cli.Examples.Inputs.{
  toy_host, request_id, digest_text, pending_record, state_of, status_query, submission, good_io,
  toy_store,
}

abbrev binding : AgentBinding
binding = record {
  id = request_id;
  label = codes "builder";
  public_key = request_id;
  fingerprint = digest_text;
  uid = 700;
  gid = 700;
  status = AgentBindingStatus.enabled;
}

unfoldable agent : AgentOwner
unfolding from_binding
agent = from_binding binding

unfoldable agent_record : DirectRecord
unfolding agent pending_record
agent_record = record pending_record { agent_owner = some agent }

unfoldable pub waiting_state : ProviderState
unfolding agent_record state_of
waiting_state = record (state_of RequestLifecycleStatus.pending agent_record) {
  pairings = binding ∷ [];
}

unfoldable queried_state : ProviderState
unfolding waiting_state
queried_state = record waiting_state { query_replay_markers = digest_text ∷ [] }

query_marks : query_marker status_query ≡ ok digest_text
unfolding query_marker marker_of validate_query decode_fixed hex_sha256 valid_request_id decide
    Text-discrete ℕ_discrete decodes_to append_field u32_bytes
query_marks = refl

submission_marks : submission_marker submission ≡ ok digest_text
unfolding submission_marker marker_of validate_submission decode_fixed hex_sha256 valid_operation_id
    valid_sha256 decide Text-discrete ℕ_discrete append_field u32_bytes
submission_marks = refl

queries : query_plan agent status_query waiting_state ≡ ok (write queried_state tt)
unfolding query_plan query_marker marker_of validate_query decode_fixed hex_sha256 valid_request_id
    decide Text-discrete ℕ_discrete waiting_state queried_state agent_record pending_record agent
    from_binding agent_current owner_matches AgentOwner-discrete BindingStatus-discrete owned_status
    find_direct find_request is_used state_of decodes_to append_field u32_bytes seal
queries = refl

query_uses : Uses digest_text waiting_state queried_state
query_uses = Uses.status_query agent status_query waiting_state queried_state tt query_marks queries

unfoldable provider : Provider
unfolding toy_store
provider = record {
  store = toy_store queried_state;
  lock_state = ProviderLockState.locked;
  state = queried_state;
}

submission-once_example :
    (e : AgentRejection) × (create_signed provider agent submission 150 200 true good_io good_io
      ≡ (err e, provider))
unfolding provider toy_store
submission-once_example =
    submission-once 500 digest_text waiting_state queried_state provider agent submission 150 200
      true good_io good_io query_uses (stop queried_state) submission_marks

query-once_example : (e : AgentRejection) × (query_plan agent status_query queried_state ≡ err e)
query-once_example =
    query-once 500 digest_text waiting_state queried_state queried_state agent status_query
      query_uses (stop queried_state) query_marks
