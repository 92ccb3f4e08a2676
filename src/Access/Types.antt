-- ===== src/Access/Types.antt =====
-- `AccessRequest` and `SignedAccessRequest` of src/access.rs, with their errors in place of messages.
use vaultwarden_cli.Base.{
  ℕ, ◌+◌, ◌^◌, Bool, not, ◌||◌, Option, none, some, List, leb, ltb, ◌==◌, nat_eq, Text, any, length,
  Result, ok, err, guard, ok_or, ◌>>=◌, ◌>>◌, if◌then◌else◌,
}
use vaultwarden_cli.Strings.{contains}
use vaultwarden_cli.Host.{Host}
use vaultwarden_cli.Ident.{valid_agent_id, valid_operation_id, valid_sha256, hex_sha256}

pub record AccessRequest : Type 0 where
  pub protocol_version : ℕ
  pub id : Text
  pub agent_id : Text
  pub operation_id : Text
  pub operation_revision : Text
  pub args : List Text
  pub created_at_unix_seconds : ℕ
  pub expires_at_unix_seconds : ℕ

-- What `bail!` and `context` tell apart.
pub data AccessError : Type 0 where
  unsupported_version invalid_agent_id invalid_operation_id invalid_revision : AccessError
  too_many_arguments invalid_arguments invalid_expiry : AccessError
  clock_before_epoch no_random_id expiration_overflowed : AccessError
  signature_encoding signature_form signature_rejected : AccessError

unfoldable pub validate_access : AccessRequest → Result AccessError (Unit {0})
validate_access r = do
  guard (r.protocol_version == 1) AccessError.unsupported_version
  guard (valid_agent_id r.agent_id) AccessError.invalid_agent_id
  guard (valid_operation_id r.operation_id) AccessError.invalid_operation_id
  guard (valid_sha256 r.operation_revision) AccessError.invalid_revision
  guard (leb (length r.args) 64) AccessError.too_many_arguments
  guard (not (any (λ arg. ltb 4096 (length arg) || contains 0 arg) r.args))
      AccessError.invalid_arguments
  guard (ltb r.created_at_unix_seconds r.expires_at_unix_seconds) AccessError.invalid_expiry
  ok tt

unfoldable pub is_expired_at : AccessRequest → ℕ → Bool
is_expired_at r now = leb r.expires_at_unix_seconds now

-- `checked_add` of u64.
abbrev pub checked_add : ℕ → ℕ → Option ℕ
checked_add a b = if ltb (a + b) (2 ^ 64) then some (a + b) else none

-- The 32 random bytes, if the system has them.
unfoldable pub random_id : ⦃h : Host⦄ → Option Text → Result AccessError Text
random_id none = err AccessError.no_random_id
random_id ⦃h⦄ (some bytes) = ok (h.url_encode bytes)

unfoldable pub new_at :
    ⦃h : Host⦄
    → Option Text
    → Text
    → Text
    → Text
    → List Text
    → ℕ
    → ℕ
    → Result AccessError AccessRequest
new_at random agent operation revision args created lifetime = do
  id ← random_id random
  expires ← ok_or (checked_add created lifetime) AccessError.expiration_overflowed
  let request : AccessRequest = record {
    protocol_version = 1;
    id = id;
    agent_id = agent;
    operation_id = operation;
    operation_revision = revision;
    args = args;
    created_at_unix_seconds = created;
    expires_at_unix_seconds = expires;
  }
  validate_access request
  ok request

-- `AccessRequest::new`, with what the clock answers.
abbrev pub new_access :
    ⦃h : Host⦄
    → Option ℕ
    → Option Text
    → Text
    → Text
    → Text
    → List Text
    → ℕ
    → Result AccessError AccessRequest
new_access clock random agent operation revision args lifetime = do
  now ← ok_or clock AccessError.clock_before_epoch
  new_at random agent operation revision args now lifetime

-- What `approval_digest` serializes.
pub record AccessBinding : Type 0 where
  pub protocol_version : ℕ
  pub request_id : Text
  pub agent_id : Text
  pub operation_id : Text
  pub operation_revision : Text
  pub args : List Text
  pub expires_at_unix_seconds : ℕ

abbrev pub access_binding : AccessRequest → AccessBinding
access_binding r = record {
  protocol_version = r.protocol_version;
  request_id = r.id;
  agent_id = r.agent_id;
  operation_id = r.operation_id;
  operation_revision = r.operation_revision;
  args = r.args;
  expires_at_unix_seconds = r.expires_at_unix_seconds;
}

pub record SignedAccessRequest : Type 0 where
  pub request : AccessRequest
  pub signature : Text

-- What the crates do for these requests: the bytes that serde_json writes, and ed25519-dalek's
-- `sign`, `verifying_key`, `Signature::from_slice` and `verify`.
pub record Keys : Type 0 where
  pub to_vec : AccessRequest → Text
  pub binding_to_vec : AccessBinding → Text
  pub sign : Text → Text → Text
  pub verifying_key : Text → Text
  pub from_slice : Text → Option Text
  pub verify : Text → Text → Text → Bool

module _ ⦃h : Host⦄ (k : Keys) where
  abbrev pub approval_digest : AccessRequest → Text
  approval_digest r = hex_sha256 (k.binding_to_vec (access_binding r))

  unfoldable pub sign_access : AccessRequest → Text → SignedAccessRequest
  sign_access r key = record { request = r; signature = h.url_encode (k.sign key (k.to_vec r)) }

  unfoldable pub verify_access : SignedAccessRequest → Text → Result AccessError (Unit {0})
  verify_access s public_key = do
    validate_access s.request
    bytes ← ok_or (h.url_decode s.signature) AccessError.signature_encoding
    signature ← ok_or (k.from_slice bytes) AccessError.signature_form
    guard (k.verify public_key (k.to_vec s.request) signature) AccessError.signature_rejected
    ok tt
