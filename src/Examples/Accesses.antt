-- ===== src/Examples/Accesses.antt =====
-- Agents' requests at a concrete host: one for the policy that was provisioned, one for another.
use vaultwarden_cli.Base.{
  Text-discrete, ℕ_discrete, ◌≡◌, refl, true, false, ok, some, none, [], nat_eq, text_eq, Text,
  codes, is_ok, ◌==◌, ◌+◌,
}
use vaultwarden_cli.Ident.{hex_sha256, valid_operation_id, valid_sha256, valid_agent_id}
use vaultwarden_cli.Examples.Inputs.{good_io, toy_host, digest_text, request_id}
use vaultwarden_cli.Examples.Provisioning.{
  written, bare_state, provisioned_state, draft, eligible, provisions,
}
use vaultwarden_cli.Request.Types.{status_eq, option_binding_eq, binding_eq}
use vaultwarden_cli.Policy.Checks.{create_valid, has_duplicates, valid_display_text}
use vaultwarden_cli.Policy.Ssh.{valid_image_path}
use vaultwarden_cli.Policy.Types.{ExecutionProfile-discrete}
use vaultwarden_cli.Policy.Arguments.{validates_args}
use vaultwarden_cli.Policy.Draft.{
  policy_valid, draft_of, from_draft, validate_draft, canonicalize_draft, revision_for,
}
use vaultwarden_cli.Policy.Image.{approved_of, policy_image_matches, image_valid, resolve_image}
use vaultwarden_cli.Provider.Catalogue.{provision_plan}
use vaultwarden_cli.Provider.Defs.{find_operation}
use vaultwarden_cli.Storage.{canonical_path, item_name, valid_id, destination_eq, option_receipt_eq}
use mathlib.Core.Bool.{decide}
use vaultwarden_cli.State.Validate.{state_valid, catalogue_valid}
use vaultwarden_cli.Agents.{registry_valid}
use vaultwarden_cli.State.Types.{ProviderState, initial, lifecycle_status_eq}
use vaultwarden_cli.Store.{ProviderStore, read_state, invalidated_state, invalidate_requests}
use vaultwarden_cli.Access.Types.{AccessRequest, validate_access, is_expired_at, new_at, random_id}
use vaultwarden_cli.Access.Preflight.{preflight_request}
use vaultwarden_cli.Access.Fresh.{Fresh, new_at-Fresh}
use vaultwarden_cli.Provider.Runs.{Planned, Runs, stop, run}
use vaultwarden_cli.Provider.Revisions.{restored, restores}
use vaultwarden_cli.Access.Stale.{provision-stale}

abbrev other_digest : Text
other_digest = codes "1111111111111111111111111111111111111111111111111111111111111111"

abbrev asked : Text → AccessRequest
asked revision = record {
  protocol_version = 1;
  id = request_id;
  agent_id = codes "agent-1";
  operation_id = codes "create-db";
  operation_revision = revision;
  args = [];
  created_at_unix_seconds = 100;
  expires_at_unix_seconds = 160;
}

abbrev provisioned_store : ProviderStore
provisioned_store = record { owner_uid = 500; poisoned = false; durable = provisioned_state }

made :
    new_at (some request_id) (codes "agent-1") (codes "create-db") digest_text [] 100 60
    ≡ ok (asked digest_text)
unfolding new_at random_id validate_access valid_agent_id valid_operation_id valid_sha256 decide
    ℕ_discrete
made = refl

new_at-Fresh_example : Fresh 100 60 (asked digest_text)
new_at-Fresh_example =
    new_at-Fresh (some request_id) (codes "agent-1") (codes "create-db") digest_text [] 100 60
      (asked digest_text) made

passes : preflight_request provisioned_store (asked digest_text) (some 120) none ≡ ok tt
unfolding Text-discrete canonical_path catalogue_valid create_valid decide has_duplicates hex_sha256
    item_name registry_valid state_valid valid_id valid_image_path valid_operation_id valid_sha256
    ℕ_discrete provisioned_state written bare_state provision_plan from_draft validate_draft
    valid_display_text image_valid canonicalize_draft policy_valid approved_of resolve_image
    draft_of revision_for policy_image_matches ExecutionProfile-discrete preflight_request
    validate_access valid_agent_id is_expired_at read_state find_operation validates_args initial
passes = refl

other_revision : (digest_text == other_digest) ≡ false
unfolding decide Text-discrete ℕ_discrete
other_revision = refl

-- The epoch ends after the provisioning.
unfoldable ended_state : ProviderState
unfolding provisioned_state
ended_state = record provisioned_state { lifecycle_epoch = provisioned_state.lifecycle_epoch + 1 }

abbrev ended_store : ProviderStore
ended_store = record { owner_uid = 500; poisoned = false; durable = ended_state }

ends : invalidated_state false good_io provisioned_state ≡ ok ended_state
unfolding Text-discrete canonical_path catalogue_valid create_valid decide has_duplicates hex_sha256
    item_name registry_valid state_valid valid_id valid_image_path valid_operation_id valid_sha256
    ℕ_discrete provisioned_state written bare_state provision_plan from_draft validate_draft
    valid_display_text image_valid canonicalize_draft policy_valid approved_of resolve_image
    draft_of revision_for policy_image_matches ExecutionProfile-discrete preflight_request
    validate_access valid_agent_id is_expired_at read_state find_operation validates_args initial
    ended_state invalidated_state invalidate_requests
ends = refl

provisioned_valid : state_valid provisioned_state 500 ≡ true
unfolding Text-discrete canonical_path catalogue_valid create_valid decide has_duplicates hex_sha256
    item_name registry_valid state_valid valid_id valid_image_path valid_operation_id valid_sha256
    ℕ_discrete provisioned_state written bare_state provision_plan from_draft validate_draft
    valid_display_text image_valid canonicalize_draft policy_valid approved_of resolve_image
    draft_of revision_for policy_image_matches ExecutionProfile-discrete preflight_request
    validate_access valid_agent_id is_expired_at read_state find_operation validates_args initial
provisioned_valid = refl

unfoldable afterwards : Runs 500 provisioned_state ended_state
afterwards =
    run provisioned_state ended_state ended_state provisioned_valid
      (Planned.invalidated false good_io provisioned_state ended_state ends) (stop ended_state)

not_restored : restored (codes "create-db") other_digest afterwards ≡ false
unfolding restored restores afterwards
not_restored = refl

provision-stale_example :
    is_ok (preflight_request ended_store (asked other_digest) (some 120) none) ≡ false
provision-stale_example =
    provision-stale ended_store 500 draft eligible true true bare_state provisioned_state
      digest_text (asked other_digest) (some 120) none provisions afterwards refl other_revision
      not_restored
