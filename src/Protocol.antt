-- ===== src/Protocol.antt =====
-- The signed agent protocol of src/access/protocol.rs: submissions and status queries, the bytes
-- that their signatures cover, and their replay digests.
pub mod Framing
pub mod Signing
use vaultwarden_cli.Base.{
  ℕ, ◌*◌, ◌+◌, ◌-◌, Bool, true, false, not, ◌&&◌, ◌||◌, Option, none, some, List, [], ◌∷◌, ◌++◌,
  leb, ltb, ◌==◌, nat_eq, text_eq, if◌then◌else◌, Text, any, length, codes, Result, ok, err, ◌>>=◌,
  ◌>>◌, guard, ok_or,
}
use vaultwarden_cli.Strings.{contains, is_digit}
use vaultwarden_cli.Host.{Host}
use vaultwarden_cli.Ident.{
  valid_operation_id, valid_sha256, valid_request_id, hex_sha256, decode_public_key,
}
use Framing.{append_field, u32_bytes, append_fields}

pub data AgentRejection : Type 0 where
  unauthorized malformed unsupported_version replay stale_revision : AgentRejection
  invalid_arguments locked busy unavailable : AgentRejection

pub record SignedSubmission : Type 0 where
  pub protocol_version : ℕ
  pub purpose : Text
  pub binding_id : Text
  pub nonce : Text
  pub operation_id : Text
  pub expected_policy_revision : Text
  pub args : List Text
  pub signature : Text

pub record SignedStatusQuery : Type 0 where
  pub protocol_version : ℕ
  pub purpose : Text
  pub binding_id : Text
  pub nonce : Text
  pub request_id : Text
  pub signature : Text

-- The domains end in a NUL byte.
abbrev pub signing_domain : Text
signing_domain = codes "vaultwarden-access" ++ 0 ∷ []

abbrev replay_domain : Text
replay_domain = codes "vaultwarden-access-replay" ++ 0 ∷ []

abbrev pub bad_arg : Text → Bool
bad_arg a = ltb 4096 (length a) || contains 0 a

hex_nibble : ℕ → ℕ
hex_nibble b = if is_digit b then b - b'0' else b - b'a' + 10

-- The bytes of a text of hexadecimal pairs; a last odd byte is left out.
unfoldable pub revision_bytes : Text → Text
unfolding hex_nibble
revision_bytes [] = []
revision_bytes (a ∷ []) = []
revision_bytes (a ∷ b ∷ r) = (hex_nibble a * 16 + hex_nibble b) ∷ revision_bytes r

module _ ⦃h : Host⦄ where
  -- `decode_fixed::<N>`: the canonical encoding of `n` bytes.
  unfoldable pub decode_fixed : ℕ → Text → Result AgentRejection Text
  decode_fixed n v = elim (h.url_decode v) [
    | none ↦ err AgentRejection.malformed
    | some bs ↦
        if h.url_encode bs == v && length bs == n then ok bs else err AgentRejection.malformed
  ]

  unfoldable pub validate_submission : SignedSubmission → Result AgentRejection (Unit {0})
  validate_submission s = do
    guard (s.protocol_version == 1) AgentRejection.unsupported_version
    guard
        (s.purpose == codes "submit"
          && valid_operation_id s.operation_id
          && valid_sha256 s.expected_policy_revision
          && leb (length s.args) 64
          && not (any bad_arg s.args))
        AgentRejection.malformed
    _ ← decode_fixed 32 s.binding_id
    _ ← decode_fixed 32 s.nonce
    _ ← decode_fixed 64 s.signature
    ok tt

  -- Domain, encoding version, protocol version; the length-prefixed fields; the arguments.
  unfoldable pub submission_bytes : SignedSubmission → Result AgentRejection Text
  submission_bytes s = do
    validate_submission s
    binding ← decode_fixed 32 s.binding_id
    nonce ← decode_fixed 32 s.nonce
    ok (
        signing_domain
        ++ 1
          ∷ s.protocol_version
          ∷ append_field s.purpose (
              append_field binding (
                append_field nonce (
                  append_field s.operation_id (
                    append_field (revision_bytes s.expected_policy_revision)
                      (u32_bytes (length s.args) ++ append_fields s.args []))))))

  unfoldable pub validate_query : SignedStatusQuery → Result AgentRejection (Unit {0})
  validate_query q = do
    guard (q.protocol_version == 1) AgentRejection.unsupported_version
    guard (q.purpose == codes "status" && valid_request_id q.request_id) AgentRejection.malformed
    _ ← decode_fixed 32 q.binding_id
    _ ← decode_fixed 32 q.nonce
    _ ← decode_fixed 64 q.signature
    ok tt

  unfoldable pub query_bytes : SignedStatusQuery → Result AgentRejection Text
  query_bytes q = do
    validate_query q
    binding ← decode_fixed 32 q.binding_id
    nonce ← decode_fixed 32 q.nonce
    request ← decode_fixed 32 q.request_id
    ok (
        signing_domain
        ++ 1
          ∷ q.protocol_version
          ∷ append_field q.purpose
              (append_field binding (append_field nonce (append_field request []))))

  -- `replay_digest`: of the binding and the nonce alone.
  unfoldable pub marker_of : Text → Text → Result AgentRejection Text
  marker_of binding_id nonce = do
    binding ← decode_fixed 32 binding_id
    bytes ← decode_fixed 32 nonce
    ok (hex_sha256 (replay_domain ++ 1 ∷ append_field binding (append_field bytes [])))

  unfoldable pub submission_marker : SignedSubmission → Result AgentRejection Text
  unfolding marker_of
  submission_marker s = validate_submission s >> marker_of s.binding_id s.nonce

  unfoldable pub query_marker : SignedStatusQuery → Result AgentRejection Text
  unfolding marker_of
  query_marker q = validate_query q >> marker_of q.binding_id q.nonce

  -- The strict check of a signature over these bytes by a stored key.
  check_signature : Text → Text → Text → Result AgentRejection (Unit {0})
  check_signature public_key bytes signature = do
    key ← ok_or (decode_public_key public_key) AgentRejection.unauthorized
    raw ← decode_fixed 64 signature
    guard (h.verify_strict key bytes raw) AgentRejection.unauthorized

  unfoldable pub verify_submission : SignedSubmission → Text → Result AgentRejection (Unit {0})
  unfolding check_signature
  verify_submission s public_key =
      submission_bytes s >>= λ bytes. check_signature public_key bytes s.signature

  unfoldable pub verify_query : SignedStatusQuery → Text → Result AgentRejection (Unit {0})
  unfolding check_signature
  verify_query q public_key =
      query_bytes q >>= λ bytes. check_signature public_key bytes q.signature
