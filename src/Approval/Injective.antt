-- ===== src/Approval/Injective.antt =====
-- What a transcript of src/access/approval_v2.rs binds.
use vaultwarden_cli.Base.{
  ℕ, ◌^◌, ◌<◌, ◌≡◌, ◌≢◌, refl, sym, ap, ◌∙◌, Bool, true, false, not, ◌||◌, Option, none, some, List,
  [], ◌∷◌, ◌==◌, text_eq, nat_eq, Text, length, arith, if◌then◌else◌, all,
}
use vaultwarden_cli.Strings.{is_hex}
use vaultwarden_cli.Host.{Host}
use vaultwarden_cli.Ident.{valid_sha256, valid_request_id}
use vaultwarden_cli.Request.Types.{ApprovalBinding, DirectReview}
use vaultwarden_cli.Protocol.{revision_bytes}
use vaultwarden_cli.Protocol.Framing.{
  append_field, append_fields, append_field-injective, append_fields-injective, u64_bytes,
  u64_bytes-injective, AreShort,
}
use vaultwarden_cli.Protocol.Signing.{revision_bytes-injective, length-revision_bytes}
use vaultwarden_cli.Provider.Evolution.{some-injective}
use vaultwarden_cli.Approval.Canonical.{Json, canonical}
use vaultwarden_cli.Approval.Transcript.{
  ApprovalContext, ToValue, ◌>>=◌, hex32, approval_domain, enroll_domain, review_digest,
  review_digest_value, approval_fields, approval_transcript, enroll_transcript,
}

-- A digest of SHA-256 has 32 bytes.
pub record IsDigest (h : Host) : Type 0 where
  pub sized : (t : Text) → length (h.sha256 t) ≡ 32

bind-some :
    {A B : Type 0} (o : Option A) (f : A → Option B) {y : B}
    → (o >>= f) ≡ some y
    → (x : A) × (o ≡ some x) × (f x ≡ some y)
bind-some none f e = cc
bind-some (some x) f e = (x, refl, e)

hex32-digest :
    (v : Text) {bs : Text}
    → hex32 v ≡ some bs
    → (bs ≡ revision_bytes v) × (length v ≡ 64) × (all is_hex v ≡ true)
unfolding hex32 valid_sha256
hex32-digest v e = ground arith

hex32-injective : (v w : Text) {bs : Text} → hex32 v ≡ some bs → hex32 w ≡ some bs → v ≡ w
hex32-injective v w e f =
    let (p, lv, hv) = hex32-digest v e in
    let (q, lw, hw) = hex32-digest w f in
    revision_bytes-injective v w (lv ∙ sym lw) (rw lv refl) hv hw (sym p ∙ q)

module _ ⦃h : Host⦄ where
  hex32-short : (v : Text) {bs : Text} → hex32 v ≡ some bs → length bs < 2 ^ 32
  hex32-short v {bs} e =
      let (p, lv, _) = hex32-digest v e in omega (arith, length-revision_bytes v, ap length p)

  u64_bytes-short : (n : ℕ) → length (u64_bytes n) < 2 ^ 32
  unfolding u64_bytes
  u64_bytes-short n = omega arith

  module _ ⦃j : Json⦄ ⦃c : ToValue⦄ where
    -- What a transcript that is made encodes.
    record Signs (context : ApprovalContext) (b : ApprovalBinding) (generation : ℕ)
        (key_text t : Text) : Type 0 where
      provider : Text
      client : Text
      key : Text
      record_ : Text
      policy : Text
      arguments : Text
      ticket : Text
      review : Text
      provider_is : hex32 context.provider_identity ≡ some provider
      client_is : hex32 context.approval_client ≡ some client
      key_is : hex32 key_text ≡ some key
      record_is : hex32 b.record_digest ≡ some record_
      policy_is : hex32 b.policy_digest ≡ some policy
      arguments_is : hex32 b.arguments_digest ≡ some arguments
      ticket_is : hex32 context.ticket ≡ some ticket
      review_is : review_digest context.review ≡ some review
      same_id : context.review.id ≡ b.request_id
      transcript_is :
          t
          ≡ append_fields
              (approval_fields context b generation provider client key record_ policy arguments
                ticket review)
              []

    transcript-Signs :
        (context : ApprovalContext) (b : ApprovalBinding) (generation : ℕ) (key_text : Text)
        {t : Text}
        → approval_transcript context b generation key_text ≡ some t
        → Signs context b generation key_text t
    unfolding approval_transcript
    transcript-Signs context b generation key_text {t} e =
        let (provider, p, e1) = bind-some (hex32 context.provider_identity) _ e in
        let (client, c, e2) = bind-some (hex32 context.approval_client) _ e1 in
        let (key, k, e3) = bind-some (hex32 key_text) _ e2 in
        let (rec, r, e4) = bind-some (hex32 b.record_digest) _ e3 in
        let (policy, q, e5) = bind-some (hex32 b.policy_digest) _ e4 in
        let (arguments, a, e6) = bind-some (hex32 b.arguments_digest) _ e5 in
        let (ticket, i, e7) = bind-some (hex32 context.ticket) _ e6 in
        let (review, v, e8) = bind-some (review_digest context.review) _ e7 in
        let (same, made) =
          accepted (valid_request_id b.request_id) (context.review.id == b.request_id) e8 in
        record {
          provider = provider;
          client = client;
          key = key;
          record_ = rec;
          policy = policy;
          arguments = arguments;
          ticket = ticket;
          review = review;
          provider_is = p;
          client_is = c;
          key_is = k;
          record_is = r;
          policy_is = q;
          arguments_is = a;
          ticket_is = i;
          review_is = v;
          same_id = (text_eq.eq_iff context.review.id b.request_id).0 same;
          transcript_is = sym made;
        }
      where
        accepted :
            (v s : Bool) {x y : Text}
            → (if not v || not s then none else some x) ≡ some y
            → (s ≡ true) × (x ≡ y)
        accepted false s e = cc
        accepted true false e = cc
        accepted true true e = (refl, some-injective e)

    digest_short :
        IsDigest h → (r : DirectReview) {d : Text} → review_digest r ≡ some d → length d < 2 ^ 32
    unfolding review_digest review_digest_value
    digest_short sha r e =
        let (v, _, e1) = bind-some (c.value_of r) _ e in
        let (t, _, e2) = bind-some (canonical v) _ e1 in
        omega (arith, sha.sized t, ap length (some-injective e2))

    fields_short :
        (context : ApprovalContext) (b : ApprovalBinding) (generation : ℕ) (key_text t : Text)
        → IsDigest h
        → length b.request_id < 2 ^ 32
        → (s : Signs context b generation key_text t)
        → AreShort (
            approval_fields context b generation s.provider s.client s.key s.record_ s.policy
              s.arguments s.ticket s.review)
    fields_short context b generation key_text t sha short s = (
      omega arith,
      (
        omega arith,
        (
          hex32-short context.provider_identity s.provider_is,
          (
            hex32-short context.approval_client s.client_is,
            (
              hex32-short key_text s.key_is,
              (
                short,
                (
                  hex32-short b.record_digest s.record_is,
                  (
                    hex32-short b.policy_digest s.policy_is,
                    (
                      hex32-short b.arguments_digest s.arguments_is,
                      (
                        u64_bytes-short b.expires_at_unix_seconds,
                        (
                          u64_bytes-short generation,
                          (
                            hex32-short context.ticket s.ticket_is,
                            (
                              u64_bytes-short context.ticket_deadline_unix_ms,
                              (digest_short sha context.review s.review_is, tt),
                            ),
                          ),
                        ),
                      ),
                    ),
                  ),
                ),
              ),
            ),
          ),
        ),
      ),
    )

    -- Two approvals that sign the same transcript agree in the provider, the client, the key, the
    -- request, its three digests, its expiry, the generation, the ticket and its deadline, and in the
    -- digest of the review; if digests have 32 bytes and the lengths and numbers are within range.
    pub approval_transcript-injective :
        (context context' : ApprovalContext) (b b' : ApprovalBinding) (generation generation' : ℕ)
        (key_text key_text' t : Text)
        → IsDigest h
        → length b.request_id < 2 ^ 32
        → length b'.request_id < 2 ^ 32
        → b.expires_at_unix_seconds < 2 ^ 64
        → b'.expires_at_unix_seconds < 2 ^ 64
        → generation < 2 ^ 64
        → generation' < 2 ^ 64
        → context.ticket_deadline_unix_ms < 2 ^ 64
        → context'.ticket_deadline_unix_ms < 2 ^ 64
        → approval_transcript context b generation key_text ≡ some t
        → approval_transcript context' b' generation' key_text' ≡ some t
        → (context.provider_identity ≡ context'.provider_identity)
          × (context.approval_client ≡ context'.approval_client)
          × (key_text ≡ key_text')
          × (b.request_id ≡ b'.request_id)
          × (b.record_digest ≡ b'.record_digest)
          × (b.policy_digest ≡ b'.policy_digest)
          × (b.arguments_digest ≡ b'.arguments_digest)
          × (b.expires_at_unix_seconds ≡ b'.expires_at_unix_seconds)
          × (generation ≡ generation')
          × (context.ticket ≡ context'.ticket)
          × (context.ticket_deadline_unix_ms ≡ context'.ticket_deadline_unix_ms)
          × (review_digest context.review ≡ review_digest context'.review)
    approval_transcript-injective context context' b b' g g' k k' t sha s s' x x' y y' z z' e e' =
        let p = transcript-Signs context b g k e in
        let p' = transcript-Signs context' b' g' k' e' in
        let (fields, _) =
          append_fields-injective
            (approval_fields context b g p.provider p.client p.key p.record_ p.policy p.arguments
              p.ticket p.review)
            (approval_fields context' b' g' p'.provider p'.client p'.key p'.record_ p'.policy
              p'.arguments p'.ticket p'.review)
            [] [] refl (fields_short context b g k t sha s p)
            (fields_short context' b' g' k' t sha s' p') (sym p.transcript_is ∙ p'.transcript_is) in
        (
          agree context.provider_identity context'.provider_identity p.provider_is p'.provider_is
              cc,
          agree context.approval_client context'.approval_client p.client_is p'.client_is cc,
          agree k k' p.key_is p'.key_is cc,
          cc,
          agree b.record_digest b'.record_digest p.record_is p'.record_is cc,
          agree b.policy_digest b'.policy_digest p.policy_is p'.policy_is cc,
          agree b.arguments_digest b'.arguments_digest p.arguments_is p'.arguments_is cc,
          u64_bytes-injective b.expires_at_unix_seconds b'.expires_at_unix_seconds x x' cc,
          u64_bytes-injective g g' y y' cc,
          agree context.ticket context'.ticket p.ticket_is p'.ticket_is cc,
          u64_bytes-injective context.ticket_deadline_unix_ms context'.ticket_deadline_unix_ms z z'
              cc,
          cc,
        )
      where
        agree : (v w : Text) {x y : Text} → hex32 v ≡ some x → hex32 w ≡ some y → x ≡ y → v ≡ w
        agree v w {x} e f same = hex32-injective v w e (f ∙ ap some (sym same))

    enroll-domain :
        (provider_identity approval_client public_key ticket action_id : Text) {u : Text}
        → enroll_transcript provider_identity approval_client public_key ticket action_id ≡ some u
        → (fields : List Text) × (u ≡ append_fields (enroll_domain ∷ fields) [])
    unfolding enroll_transcript
    enroll-domain provider_identity approval_client public_key ticket action_id e =
        let (p, _, e1) = bind-some (hex32 provider_identity) _ e in
        let (q, _, e2) = bind-some (hex32 approval_client) _ e1 in
        let (r, _, e3) = bind-some (hex32 ticket) _ e2 in
        (p ∷ q ∷ public_key ∷ r ∷ action_id ∷ [], sym (made _ e3))
      where
        made : (b : Bool) {x y : Text} → (if b then none else some x) ≡ some y → x ≡ y
        made true e = cc
        made false e = some-injective e

    domains_differ : (x y : Text) → append_field approval_domain x ≢ append_field enroll_domain y
    domains_differ x y e =
        let (same, _) =
          append_field-injective approval_domain enroll_domain x y (omega arith) (omega arith) e in
        absurd (omega (arith, ap length same))

    -- No transcript that an approval signs is one that an enrolment signs.
    pub approval-not-enroll :
        (context : ApprovalContext) (b : ApprovalBinding) (generation : ℕ) (key_text t : Text)
        (provider_identity approval_client public_key ticket action_id u : Text)
        → approval_transcript context b generation key_text ≡ some t
        → enroll_transcript provider_identity approval_client public_key ticket action_id ≡ some u
        → t ≢ u
    unfolding append_fields
    approval-not-enroll context b generation key_text t provider_identity approval_client public_key
          ticket action_id u e f same =
        let p = transcript-Signs context b generation key_text e in
        let (fields, q) =
          enroll-domain provider_identity approval_client public_key ticket action_id f in
        domains_differ _ (append_fields fields []) (sym p.transcript_is ∙ same ∙ q)
