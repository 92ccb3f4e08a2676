-- ===== src/Examples/Provisioning.antt =====
-- A create operation that is provisioned at a concrete host.
use vaultwarden_cli.Ident.{hex_sha256, valid_operation_id, valid_sha256}
use vaultwarden_cli.Request.Types.{status_eq, option_binding_eq, binding_eq}
use vaultwarden_cli.Examples.Inputs.{toy_host}
use vaultwarden_cli.Base.{
  Text-discrete, ℕ_discrete, ◌≡◌, refl, true, ok, nat_eq, text_eq, option_text_eq,
}
use vaultwarden_cli.Policy.Checks.{create_valid, has_duplicates}
use vaultwarden_cli.Policy.Ssh.{valid_image_path}
use vaultwarden_cli.Storage.{canonical_path, item_name, valid_id, destination_eq, option_receipt_eq}
use mathlib.Core.Bool.{decide}
use vaultwarden_cli.State.Validate.{state_valid, catalogue_valid}
use vaultwarden_cli.Agents.{registry_valid}
use vaultwarden_cli.State.Types.{initial, ProviderState, lifecycle_status_eq}
use vaultwarden_cli.Provider.Defs.{write}
use vaultwarden_cli.Base.{◌≡◌, ◌==◌, some, none, [], ◌∷◌, Text, codes, false}
use vaultwarden_cli.Policy.Types.{ApprovedImage, OperationPolicyDraft, ExecutionProfile}
use vaultwarden_cli.Policy.Checks.{valid_display_text}
use vaultwarden_cli.Policy.Types.{ExecutionProfile-discrete}
use vaultwarden_cli.Policy.Draft.{policy_valid, draft_of}
use vaultwarden_cli.Policy.Image.{approved_of, policy_image_matches, image_valid, resolve_image}
use vaultwarden_cli.Policy.Draft.{from_draft, validate_draft, canonicalize_draft, revision_for}
use vaultwarden_cli.Provider.Catalogue.{Eligibility, provision_plan}
use vaultwarden_cli.Provider.Upsert.{Provisioned, provision-Provisioned}
use vaultwarden_cli.Provider.Defs.{write, Plan}
use vaultwarden_cli.Examples.Inputs.{effect, digest_text}
use vaultwarden_cli.Base.{Result}
use vaultwarden_cli.State.Types.{ProviderDiagnostic}

abbrev image : ApprovedImage
image = record {
  id = codes "tool";
  execution_root = codes "/opt/vw";
  path = codes "/opt/vw/create";
  sha256 = digest_text;
  profile = ExecutionProfile.reviewed_self_contained_elf64_v1;
}

abbrev pub draft : OperationPolicyDraft
draft = record {
  id = codes "create-db";
  description = codes "Creates an item";
  image_id = codes "tool";
  targets = [];
  arguments = [];
  credentials = [];
  ssh = none;
  create = some effect;
  require_password = false;
}

abbrev pub eligible : Eligibility
eligible = record { ssh = λ i. none; login = λ i fs m. none; scoped = λ i fs m n. none }

unfoldable pub bare_state : ProviderState
unfolding initial
bare_state = record initial { approved_images = image ∷ [] }

unfoldable pub written : Result ProviderDiagnostic (Plan Text) → ProviderState
written (ok (Plan.write s r)) = s
written _ = bare_state

unfoldable pub provisioned_state : ProviderState
unfolding written
provisioned_state = written (provision_plan 500 draft eligible true true bare_state)

pub provisions :
    provision_plan 500 draft eligible true true bare_state
    ≡ ok (write provisioned_state digest_text)
unfolding Text-discrete canonical_path catalogue_valid create_valid decide has_duplicates hex_sha256
    item_name registry_valid state_valid valid_id valid_image_path valid_operation_id valid_sha256
    ℕ_discrete provisioned_state bare_state provision_plan from_draft validate_draft
    valid_display_text image_valid canonicalize_draft policy_valid approved_of resolve_image
    draft_of revision_for policy_image_matches ExecutionProfile-discrete
provisions = refl

elsewhere : (draft.id == codes "other") ≡ false
unfolding decide Text-discrete ℕ_discrete
elsewhere = refl

provision-Provisioned_example :
    Provisioned 500
      (codes "create-db")
      (codes "other")
      eligible
      bare_state
      provisioned_state
      digest_text
provision-Provisioned_example =
    provision-Provisioned 500 draft (codes "other") eligible true true bare_state provisioned_state
      digest_text elsewhere provisions
