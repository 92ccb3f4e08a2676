-- ===== src/Examples/Approvals.antt =====
-- Approval transcripts at the request of the other examples.
use vaultwarden_cli.Base.{
  ℕ, ◌≡◌, ◌≢◌, refl, false, none, some, Option, [], ◌∷◌, Text, codes, ℕ_discrete, Text-discrete,
  arith, ◌==◌, text_eq,
}
use mathlib.Core.Bool.{decide}
use vaultwarden_cli.Ident.{valid_request_id, valid_sha256}
use vaultwarden_cli.Request.Types.{ApprovalBinding}
use vaultwarden_cli.Approval.Canonical.{Value, Members, Json, canonical}
use vaultwarden_cli.Approval.Reorder.{Reorders, canonical-Reorders}
use vaultwarden_cli.Approval.Transcript.{
  ApprovalContext, ToValue, hex32, review_digest, review_digest_value, approval_transcript,
  enroll_transcript, valid_public_key,
}
use vaultwarden_cli.Approval.Injective.{
  IsDigest, approval_transcript-injective, approval-not-enroll,
}
use vaultwarden_cli.Examples.Inputs.{toy_host, digest_text, request_id, review}

instance abbrev toy_json : Json
toy_json = record { quoted = λ t. some t }

instance abbrev toy_values : ToValue
toy_values = record { value_of = λ r. some Value.null }

toy_host-IsDigest : IsDigest toy_host
toy_host-IsDigest = record { sized = λ t. refl }

abbrev context : ApprovalContext
context = record {
  provider_identity = digest_text;
  approval_client = digest_text;
  ticket = digest_text;
  ticket_deadline_unix_ms = 5000;
  review = review;
}

abbrev approved : ApprovalBinding
approved = record {
  request_id = request_id;
  requester_uid = 1000;
  agent_owner = none;
  policy_digest = digest_text;
  arguments_digest = digest_text;
  expires_at_unix_seconds = 200;
  lifecycle_epoch = 0;
  record_digest = digest_text;
}

abbrev generation : ℕ
generation = 3

abbrev text_of : Option Text → Text
text_of none = []
text_of (some t) = t

unfoldable transcript : Text
unfolding approval_transcript
transcript = text_of (approval_transcript context approved generation digest_text)

transcribes : approval_transcript context approved generation digest_text ≡ some transcript
unfolding transcript approval_transcript hex32 valid_sha256 valid_request_id review_digest
    review_digest_value canonical review decide Text-discrete ℕ_discrete
transcribes = refl

approval_transcript-injective_example :
    (context.provider_identity ≡ context.provider_identity)
    × (context.approval_client ≡ context.approval_client)
    × (digest_text ≡ digest_text)
    × (approved.request_id ≡ approved.request_id)
    × (approved.record_digest ≡ approved.record_digest)
    × (approved.policy_digest ≡ approved.policy_digest)
    × (approved.arguments_digest ≡ approved.arguments_digest)
    × (approved.expires_at_unix_seconds ≡ approved.expires_at_unix_seconds)
    × (generation ≡ generation)
    × (context.ticket ≡ context.ticket)
    × (context.ticket_deadline_unix_ms ≡ context.ticket_deadline_unix_ms)
    × (review_digest context.review ≡ review_digest context.review)
approval_transcript-injective_example =
    approval_transcript-injective context context approved approved generation generation
      digest_text digest_text transcript toy_host-IsDigest (omega arith) (omega arith) (omega arith)
      (omega arith) (omega arith) (omega arith) (omega arith) (omega arith) transcribes transcribes

abbrev public_key : Text
public_key = 4 ∷ codes "0123456789abcdef0123456789abcdef0123456789abcdef0123456789abcdef"

unfoldable enrolment : Text
unfolding enroll_transcript
enrolment = text_of (enroll_transcript digest_text digest_text public_key digest_text request_id)

enrols :
    enroll_transcript digest_text digest_text public_key digest_text request_id ≡ some enrolment
unfolding enrolment enroll_transcript hex32 valid_sha256 valid_request_id valid_public_key decide
    Text-discrete ℕ_discrete
enrols = refl

approval-not-enroll_example : transcript ≢ enrolment
approval-not-enroll_example =
    approval-not-enroll context approved generation digest_text transcript digest_text digest_text
      public_key digest_text request_id enrolment transcribes enrols

abbrev first_order : Members
first_order =
    Members.member (codes "b") Value.null (Members.member (codes "a") Value.null Members.none_left)

abbrev second_order : Members
second_order =
    Members.member (codes "a") Value.null (Members.member (codes "b") Value.null Members.none_left)

keys_differ : (codes "b" == codes "a") ≡ false
unfolding decide Text-discrete ℕ_discrete
keys_differ = refl

canonical-Reorders_example :
    canonical (Value.object first_order) ≡ canonical (Value.object second_order)
canonical-Reorders_example =
    canonical-Reorders first_order second_order
      (Reorders.swap (codes "b") (codes "a") Value.null Value.null Members.none_left keys_differ)
