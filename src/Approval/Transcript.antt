-- ===== src/Approval/Transcript.antt =====
-- The transcripts of src/access/approval_v2.rs: fields with their lengths, in a fixed order.
use vaultwarden_cli.Base.{
  ℕ, Bool, false, not, ◌&&◌, ◌||◌, Option, none, some, List, [], ◌∷◌, ◌==◌, nat_eq, text_eq, leb,
  if◌then◌else◌, Text, length, codes, and_then,
}
use vaultwarden_cli.Strings.{first}
use vaultwarden_cli.Host.{Host}
use vaultwarden_cli.Ident.{valid_sha256, valid_request_id, hex_sha256}
use vaultwarden_cli.Request.Types.{ApprovalBinding, DirectReview}
use vaultwarden_cli.Protocol.{revision_bytes}
use vaultwarden_cli.Protocol.Framing.{append_fields, u64_bytes}
use vaultwarden_cli.Approval.Canonical.{Value, Json, canonical}

-- `?` on options.
infixl 5 ◌>>=◌
abbrev pub ◌>>=◌ : {A B : Type 0} → Option A → (A → Option B) → Option B
o >>= f = and_then o f

abbrev pub approval_domain : Text
approval_domain = codes "dev.vaultwarden.provider.approval.v2"

abbrev pub enroll_domain : Text
enroll_domain = codes "dev.vaultwarden.provider.approval-enroll.v2"

abbrev pub approve_action : Text
approve_action = codes "approve"

pub record ApprovalContext : Type 0 where
  pub provider_identity : Text
  pub approval_client : Text
  pub ticket : Text
  pub ticket_deadline_unix_ms : ℕ
  pub review : DirectReview

-- `hex32`: the bytes of a lowercase digest.
unfoldable pub hex32 : Text → Option Text
hex32 v = if valid_sha256 v then some (revision_bytes v) else none

-- `valid_public_key` and `valid_signature_len`
unfoldable pub valid_public_key : Text → Bool
valid_public_key k = length k == 65 && starts_uncompressed (first k)
  where
    starts_uncompressed : Option ℕ → Bool
    starts_uncompressed none = false
    starts_uncompressed (some b) = b == 0x04

unfoldable pub valid_signature_len : Text → Bool
valid_signature_len s = leb 8 (length s) && leb (length s) 72

-- `serde_json::to_value` of a review.
pub record ToValue : Type 0 where
  pub value_of : DirectReview → Option Value

module _ ⦃h : Host⦄ where
  -- `key_id`
  unfoldable pub key_id : Text → Text
  key_id public_key = hex_sha256 public_key

  module _ ⦃j : Json⦄ ⦃c : ToValue⦄ where
    -- `review_digest_value` and `review_digest`
    unfoldable pub review_digest_value : Value → Option Text
    review_digest_value v = and_then (canonical v) (λ t. some (h.sha256 t))

    unfoldable pub review_digest : DirectReview → Option Text
    unfolding review_digest_value
    review_digest r = and_then (c.value_of r) review_digest_value

    abbrev pub approval_fields :
        ApprovalContext
        → ApprovalBinding
        → ℕ
        → (provider client key record_ policy arguments ticket review : Text) → List Text
    approval_fields context b generation provider client key record_ policy arguments ticket
          review =
        approval_domain
        ∷ approve_action
        ∷ provider
        ∷ client
        ∷ key
        ∷ b.request_id
        ∷ record_
        ∷ policy
        ∷ arguments
        ∷ u64_bytes b.expires_at_unix_seconds
        ∷ u64_bytes generation
        ∷ ticket
        ∷ u64_bytes context.ticket_deadline_unix_ms
        ∷ review
        ∷ []

    -- `approval_transcript`
    unfoldable pub approval_transcript : ApprovalContext → ApprovalBinding → ℕ → Text → Option Text
    unfolding hex32 review_digest
    approval_transcript context b generation key_text = do
      provider ← hex32 context.provider_identity
      client ← hex32 context.approval_client
      key ← hex32 key_text
      record_ ← hex32 b.record_digest
      policy ← hex32 b.policy_digest
      arguments ← hex32 b.arguments_digest
      ticket ← hex32 context.ticket
      review ← review_digest context.review
      if not (valid_request_id b.request_id) || not (context.review.id == b.request_id)
          then none
          else some (
              append_fields
                (approval_fields context b generation provider client key record_ policy arguments
                  ticket review)
                [])

  -- `enroll_transcript`
  unfoldable pub enroll_transcript : Text → Text → Text → Text → Text → Option Text
  unfolding hex32 valid_public_key
  enroll_transcript provider_identity approval_client public_key ticket action_id = do
    provider ← hex32 provider_identity
    client ← hex32 approval_client
    ticket_bytes ← hex32 ticket
    if not (valid_public_key public_key) || not (valid_request_id action_id)
        then none
        else some (
            append_fields
              (enroll_domain ∷ provider ∷ client ∷ public_key ∷ ticket_bytes ∷ action_id ∷ []) [])
