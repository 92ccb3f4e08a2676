-- ===== src/Policy/Draft.antt =====
-- `validate_draft`, `canonicalize_draft`, the revision and `OperationPolicy::from_draft`.
use vaultwarden_cli.Base.{
  Bool, true, false, not, ◌&&◌, ◌||◌, Option, none, some, map, leb, ◌==◌, nat_eq, text_eq,
  if◌then◌else◌, Text, all, any, is_empty, is_none, is_some, length, unwrap_or,
}
use vaultwarden_cli.Host.{Host}
use vaultwarden_cli.Storage.{valid_id}
use vaultwarden_cli.Ident.{valid_operation_id, hex_sha256}
use vaultwarden_cli.Policy.Types.{
  ApprovedImage, ResolvedImage, ArgumentSpec, LoginField, LoginFieldMapping, LoginCredentialDraft,
  SshOperation, CreateEffect, CredentialUse, OperationPolicyDraft, OperationPolicy,
  PolicyProjection, CredentialProjection, credential_use_eq,
}
use vaultwarden_cli.Policy.Checks.{
  text_leb, sort, has_duplicates, valid_display_text, valid_value, create_valid, valid_arguments,
  valid_credentials,
}
use vaultwarden_cli.Policy.Ssh.{normalize_host, normalize_fingerprint, valid_ssh_review}
use vaultwarden_cli.Policy.Image.{image_valid, resolve_image, approved_of}

header_valid : OperationPolicyDraft → Bool
header_valid d =
    valid_operation_id d.id && valid_display_text d.description 256 && valid_operation_id d.image_id

create_draft_valid : OperationPolicyDraft → CreateEffect → Bool
unfolding header_valid
create_draft_valid d c =
    header_valid d
    && is_none d.ssh
    && is_empty d.credentials
    && is_empty d.targets
    && is_empty d.arguments
    && create_valid c

login_draft_valid : OperationPolicyDraft → Bool
unfolding header_valid
login_draft_valid d =
    header_valid d
    && not (is_empty d.targets)
    && leb (length d.targets) 64
    && all (λ t. valid_value t 256) d.targets
    && not (has_duplicates d.targets)
    && leb (length d.arguments) 32
    && valid_arguments d.arguments
    && not (is_empty d.credentials)
    && leb (length d.credentials) 16
    && valid_credentials d.credentials

field_leb : LoginField → LoginField → Bool
field_leb LoginField.notes _ = true
field_leb LoginField.username LoginField.notes = false
field_leb LoginField.username _ = true
field_leb LoginField.password LoginField.notes = false
field_leb LoginField.password LoginField.username = false
field_leb LoginField.password _ = true
field_leb (LoginField.custom a) (LoginField.custom b) = text_leb a b
field_leb (LoginField.custom a) _ = false

-- By field, then by environment where the fields are equal.
mapping_leb : LoginFieldMapping → LoginFieldMapping → Bool
unfolding field_leb
mapping_leb a b =
    field_leb a.field b.field
    && (not (field_leb b.field a.field) || text_leb a.environment b.environment)

sort_choices : ArgumentSpec → ArgumentSpec
sort_choices ArgumentSpec.target = ArgumentSpec.target
sort_choices (ArgumentSpec.choice choices) = ArgumentSpec.choice (sort text_leb choices)
sort_choices (ArgumentSpec.integer minimum maximum) = ArgumentSpec.integer minimum maximum

sort_mappings : LoginCredentialDraft → LoginCredentialDraft
unfolding mapping_leb
sort_mappings c = record c { field_mappings = sort mapping_leb c.field_mappings }

credential_projection : LoginCredentialDraft → CredentialProjection
credential_projection c = record {
  item_id = c.item_id;
  use_type = c.use_type;
  field_mappings = c.field_mappings;
}

-- The draft that a stored policy is rebuilt from; `OperationPolicy::metadata` shows it too.
unfoldable pub draft_of : OperationPolicy → OperationPolicyDraft
draft_of p = record {
  id = p.id;
  description = p.description;
  image_id = p.image.image_id;
  targets = p.targets;
  arguments = p.arguments;
  credentials = p.credentials;
  ssh = p.ssh;
  create = p.create;
  require_password = p.require_password;
}

module _ ⦃h : Host⦄ where
  ssh_draft_valid : OperationPolicyDraft → SshOperation → Bool
  unfolding header_valid
  ssh_draft_valid d s =
      header_valid d
      && is_empty d.targets
      && is_empty d.arguments
      && is_empty d.credentials
      && valid_id s.credential.item_id
      && valid_display_text s.credential.label 256
      && s.credential.use_type == CredentialUse.ssh
      && valid_ssh_review s.working_directory s.destination

  -- A create effect is tested first, then SSH, then the login profile.
  unfoldable pub validate_draft : OperationPolicyDraft → Bool
  unfolding create_draft_valid ssh_draft_valid login_draft_valid
  validate_draft d = elim d.create [
    | some c ↦ create_draft_valid d c
    | none ↦ elim d.ssh [ some s ↦ ssh_draft_valid d s | none ↦ login_draft_valid d ]
  ]

  -- A validated host and fingerprint normalise, so the `expect`s hold; the default is not reached.
  canonical_ssh : SshOperation → SshOperation
  canonical_ssh s = record s {
    destination = record (s.destination) {
      host = unwrap_or s.destination.host (normalize_host s.destination.host);
      host_fingerprint =
          unwrap_or s.destination.host_fingerprint
            (normalize_fingerprint s.destination.host_fingerprint);
    };
  }

  unfoldable pub canonicalize_draft : OperationPolicyDraft → OperationPolicyDraft
  unfolding canonical_ssh sort_choices sort_mappings
  canonicalize_draft d = record d {
    targets = sort text_leb d.targets;
    arguments = map sort_choices d.arguments;
    credentials = map sort_mappings (sort (λ a b. text_leb a.item_id b.item_id) d.credentials);
    ssh = elim d.ssh [ none ↦ none | some s ↦ some (canonical_ssh s) ];
  }

  base_revision_for : OperationPolicyDraft → ResolvedImage → Text
  unfolding credential_projection
  base_revision_for d i = hex_sha256 (
      h.policy_bytes (
        if is_some d.create || any (λ c. is_some c.namespace) d.credentials
        then PolicyProjection.full_projection d i
        else (elim d.ssh [
          | some s ↦
              PolicyProjection.ssh_projection d.id i s.credential.item_id s.credential.use_type
                s.working_directory s.destination
          | none ↦
              PolicyProjection.login_projection d.id i d.targets d.arguments
                (map credential_projection d.credentials)
        ])))

  unfoldable pub revision_for : OperationPolicyDraft → ResolvedImage → Text
  unfolding base_revision_for
  revision_for d i =
      let base = base_revision_for d i in
      if d.require_password
      then hex_sha256 (h.policy_bytes (PolicyProjection.password_projection base))
      else base

  build_policy : OperationPolicyDraft → ResolvedImage → OperationPolicy
  build_policy d i = record {
    id = d.id;
    description = d.description;
    image = i;
    targets = d.targets;
    arguments = d.arguments;
    credentials = d.credentials;
    ssh = d.ssh;
    create = d.create;
    require_password = d.require_password;
    revision = revision_for d i;
  }

  unfoldable pub from_draft : OperationPolicyDraft → ApprovedImage → Option OperationPolicy
  unfolding build_policy
  from_draft d approved =
      if validate_draft d && d.image_id == approved.id && image_valid approved
      then some (build_policy (canonicalize_draft d) (resolve_image approved))
      else none

  -- `OperationPolicy::validate_integrity`
  unfoldable pub policy_valid : OperationPolicy → Bool
  policy_valid p =
      image_valid (approved_of p.image) && (elim (from_draft (draft_of p) (approved_of p.image)) [
        | none ↦ false
        | some rebuilt ↦ rebuilt.revision == p.revision
      ])
