-- ===== src/Policy/Types.antt =====
-- The data of src/access/policy.rs.
use vaultwarden_cli.Base.{ℕ, Bool, Option, List, Text, ℕ_discrete, PartialEq, of_discrete, ℤ}
use vaultwarden_cli.Storage.{Destination}

pub record CreateEffect : Type 0 where
  pub server : Text
  pub destination : Destination
  pub fields : List Text
  pub eligibility_marker : Text

pub data ExecutionProfile : Type 0 where
  reviewed_self_contained_elf64_v1 reviewed_native_macho_arm64_v1 : ExecutionProfile

pub record ApprovedImage : Type 0 where
  pub id : Text
  pub execution_root : Text
  pub path : Text
  pub sha256 : Text
  pub profile : ExecutionProfile

pub data ArgumentSpec : Type 0 where
  target : ArgumentSpec
  choice : List Text → ArgumentSpec
  integer : ℤ → ℤ → ArgumentSpec

pub data LoginField : Type 0 where
  notes username password : LoginField
  custom : Text → LoginField

pub record LoginFieldMapping : Type 0 where
  pub field : LoginField
  pub environment : Text

pub data CredentialUse : Type 0 where
  login ssh : CredentialUse

pub record LoginCredentialDraft : Type 0 where
  pub item_id : Text
  pub label : Text
  pub use_type : CredentialUse
  pub field_mappings : List LoginFieldMapping
  pub namespace : Option Destination

pub record SshCredential : Type 0 where
  pub item_id : Text
  pub label : Text
  pub use_type : CredentialUse

pub record SshDestination : Type 0 where
  pub host : Text
  pub port : ℕ
  pub user : Text
  pub resource_path : Text
  pub host_fingerprint : Text

pub record SshOperation : Type 0 where
  pub credential : SshCredential
  pub working_directory : Text
  pub destination : SshDestination

pub record SshReview : Type 0 where
  pub working_directory : Text
  pub destination : SshDestination

pub record OperationPolicyDraft : Type 0 where
  pub id : Text
  pub description : Text
  pub image_id : Text
  pub targets : List Text
  pub arguments : List ArgumentSpec
  pub credentials : List LoginCredentialDraft
  pub ssh : Option SshOperation
  pub create : Option CreateEffect
  pub require_password : Bool

pub record ResolvedImage : Type 0 where
  pub image_id : Text
  pub execution_root : Text
  pub path : Text
  pub sha256 : Text
  pub profile : ExecutionProfile

pub record OperationPolicy : Type 0 where
  pub id : Text
  pub description : Text
  pub image : ResolvedImage
  pub targets : List Text
  pub arguments : List ArgumentSpec
  pub credentials : List LoginCredentialDraft
  pub ssh : Option SshOperation
  pub create : Option CreateEffect
  pub require_password : Bool
  pub revision : Text

-- What `revision_for` and `base_revision_for` serialise, by their version byte.
pub record CredentialProjection : Type 0 where
  pub item_id : Text
  pub use_type : CredentialUse
  pub field_mappings : List LoginFieldMapping

pub data PolicyProjection : Type 0 where
  login_projection :
      Text
      → ResolvedImage
      → List Text
      → List ArgumentSpec
      → List CredentialProjection
      → PolicyProjection
  ssh_projection :
      Text → ResolvedImage → Text → CredentialUse → Text → SshDestination → PolicyProjection
  full_projection : OperationPolicyDraft → ResolvedImage → PolicyProjection
  password_projection : Text → PolicyProjection

unfoldable pub SshReview-discrete : Discrete SshReview
SshReview-discrete = hlevel ℕ_discrete

unfoldable pub OptionSshReview-discrete : Discrete (Option SshReview)
OptionSshReview-discrete = hlevel ℕ_discrete

unfoldable pub CreateEffect-discrete : Discrete CreateEffect
CreateEffect-discrete = hlevel ℕ_discrete

unfoldable pub CredentialUse-discrete : Discrete CredentialUse
CredentialUse-discrete = hlevel

unfoldable pub ExecutionProfile-discrete : Discrete ExecutionProfile
ExecutionProfile-discrete = hlevel

instance abbrev pub credential_use_eq : PartialEq CredentialUse
credential_use_eq = of_discrete CredentialUse-discrete

instance abbrev pub execution_profile_eq : PartialEq ExecutionProfile
execution_profile_eq = of_discrete ExecutionProfile-discrete
