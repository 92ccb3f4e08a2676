-- ===== src/Protocol/Signing.antt =====
-- What a signature covers: the bytes of two messages agree only if every signed field does, and no
-- submission signs as a status query.
use vaultwarden_cli.Base.{
  ℕ, ◌+◌, ◌*◌, ◌%◌, ◌^◌, ◌<◌, ◌≤◌, ◌≡◌, ◌≢◌, refl, ap, sym, ◌∙◌, Bool, true, false, not, ◌&&◌, ◌||◌,
  List, [], ◌∷◌, ◌++◌, Text, length, all, any, arith, ◌==◌, nat_eq, text_eq, codes, Result, ok, leb,
  Option-cases, inl, inr, &&-true, guard, ◌>>◌, bind-ok,
}
use vaultwarden_cli.Strings.{is_hex}
use vaultwarden_cli.Host.{Host}
use vaultwarden_cli.Ident.{valid_operation_id, valid_sha256}
use vaultwarden_cli.Protocol.Framing.{
  append_field, append_fields, u32_bytes, u32_bytes-injective, append_field-injective,
  append_fields-injective, AreShort, split_equal,
}
use vaultwarden_cli.Protocol.{
  SignedSubmission, SignedStatusQuery, AgentRejection, decode_fixed, submission_bytes, query_bytes,
  validate_submission, validate_query, revision_bytes, hex_nibble, signing_domain, bad_arg,
}

hex_nibble-injective :
    (a b : ℕ) → is_hex a ≡ true → is_hex b ≡ true → hex_nibble a ≡ hex_nibble b → a ≡ b
unfolding hex_nibble
hex_nibble-injective a b ha hb e = ground arith

hex_nibble-lt : (a : ℕ) → is_hex a ≡ true → hex_nibble a < 16
unfolding hex_nibble
hex_nibble-lt a ha = ground arith

nibbles_equal :
    (a b c d : ℕ) → a < 16 → b < 16 → c < 16 → d < 16 → a * 16 + b ≡ c * 16 + d → (a ≡ c) × (b ≡ d)
nibbles_equal a b c d ha hb hc hd e = omega arith

heads_equal : {a b : ℕ} {x y : Text} → a ∷ x ≡ b ∷ y → (a ≡ b) × (x ≡ y)
heads_equal h = (cc, cc)

two_hex :
    (a b : ℕ) (v : Text)
    → all is_hex (a ∷ b ∷ v) ≡ true
    → (is_hex a ≡ true) × (is_hex b ≡ true) × (all is_hex v ≡ true)
two_hex a b v h =
    let (p, q) = &&-true (is_hex a) (is_hex b && all is_hex v) h in
    let (r, t) = &&-true (is_hex b) (all is_hex v) q in (p, r, t)

pub revision_bytes-injective :
    (v w : Text)
    → length v ≡ length w
    → length v % 2 ≡ 0
    → all is_hex v ≡ true
    → all is_hex w ≡ true
    → revision_bytes v ≡ revision_bytes w
    → v ≡ w
unfolding revision_bytes
revision_bytes-injective [] [] l p hv hw e = refl
revision_bytes-injective [] (b ∷ w) l p hv hw e = absurd (omega arith)
revision_bytes-injective (a ∷ []) w l p hv hw e = absurd (omega arith)
revision_bytes-injective (a ∷ b ∷ v) [] l p hv hw e = absurd (omega arith)
revision_bytes-injective (a ∷ b ∷ v) (c ∷ []) l p hv hw e = absurd (omega arith)
revision_bytes-injective (a ∷ b ∷ v) (c ∷ d ∷ w) l p hv hw e =
    let (pair, rest) = heads_equal e in
    let (ha, hb, hv') = two_hex a b v hv in
    let (hc, hd, hw') = two_hex c d w hw in
    let (p1, p2) =
      nibbles_equal (hex_nibble a) (hex_nibble b) (hex_nibble c) (hex_nibble d) (hex_nibble-lt a ha)
        (hex_nibble-lt b hb) (hex_nibble-lt c hc) (hex_nibble-lt d hd) pair in
    let q1 = hex_nibble-injective a c ha hc p1 in
    let q2 = hex_nibble-injective b d hb hd p2 in
    let q = revision_bytes-injective v w (omega arith) (omega arith) hv' hw' rest in cc

-- What the signature of a submission covers, once it validates.
record Covers ⦃h : Host⦄ (s : SignedSubmission) (binding nonce : Text) : Type 0 where
  version : s.protocol_version ≡ 1
  purpose : s.purpose ≡ codes "submit"
  operation : length s.operation_id ≤ 64
  revision_length : length s.expected_policy_revision ≡ 64
  revision_hex : all is_hex s.expected_policy_revision ≡ true
  args_length : length s.args ≤ 64
  args_short : any bad_arg s.args ≡ false
  binding_of : decode_fixed 32 s.binding_id ≡ ok binding
  nonce_of : decode_fixed 32 s.nonce ≡ ok nonce

guard-true :
    {E A : Type 0} (b : Bool) (e : E) (m : Result E A) {a : A} → (guard b e >> m) ≡ ok a → b ≡ true
guard-true true e m h = refl
guard-true false e m h = cc

guard-rest :
    {E A : Type 0} (b : Bool) (e : E) (m : Result E A) {a : A} → (guard b e >> m) ≡ ok a → m ≡ ok a
guard-rest true e m h = h
guard-rest false e m h = cc

covers :
    ⦃h : Host⦄ (s : SignedSubmission) (binding nonce : Text)
    → (s.protocol_version == 1) ≡ true
    → (s.purpose == codes "submit"
        && valid_operation_id s.operation_id
        && valid_sha256 s.expected_policy_revision
        && leb (length s.args) 64
        && not (any bad_arg s.args))
      ≡ true
    → decode_fixed 32 s.binding_id ≡ ok binding
    → decode_fixed 32 s.nonce ≡ ok nonce
    → Covers s binding nonce
unfolding valid_operation_id valid_sha256
covers s binding nonce v r eb en = record {
  version = ground arith;
  purpose = (text_eq.eq_iff s.purpose (codes "submit")).0 (ground arith);
  operation = ground arith;
  revision_length = ground arith;
  revision_hex = ground arith;
  args_length = ground arith;
  args_short = ground arith;
  binding_of = eb;
  nonce_of = en;
}

short_arg : (v : Text) (r : Bool) → (bad_arg v || r) ≡ false → length v < 2 ^ 32
short_arg v r e = ground arith

rest_good : (v : Text) (vs : List Text) → any bad_arg (v ∷ vs) ≡ false → any bad_arg vs ≡ false
rest_good v vs e = ground arith

header_equal :
    {p q : ℕ} {x y : Text}
    → signing_domain ++ 1 ∷ p ∷ x ≡ signing_domain ++ 1 ∷ q ∷ y
    → (p ≡ q) × (x ≡ y)
header_equal {p} {q} {x} {y} e =
    let (_, e1) = split_equal signing_domain signing_domain (1 ∷ p ∷ x) (1 ∷ q ∷ y) refl e in
    let (_, e2) = heads_equal e1 in heads_equal e2

module _ ⦃h : Host⦄ where
  decode_fixed-length : (n : ℕ) (v : Text) {bs : Text} → decode_fixed n v ≡ ok bs → length bs ≡ n
  unfolding decode_fixed
  decode_fixed-length n v e = ground arith

  decode_fixed-encode :
      (n : ℕ) (v : Text) {bs : Text} → decode_fixed n v ≡ ok bs → h.url_encode bs ≡ v
  unfolding decode_fixed
  decode_fixed-encode n v {bs} e = elim (Option-cases (h.url_decode v)) [
    | inl gone ↦ ground arith
    | inr (cs, at) ↦ ground (arith, text_eq.eq_iff (h.url_encode cs) v)
  ]

  submission-valid :
      (s : SignedSubmission) {u : Unit {0}}
      → validate_submission s ≡ ok u
      → ((s.protocol_version == 1) ≡ true)
        × ((s.purpose == codes "submit"
              && valid_operation_id s.operation_id
              && valid_sha256 s.expected_policy_revision
              && leb (length s.args) 64
              && not (any bad_arg s.args))
            ≡ true)
  unfolding validate_submission
  submission-valid s e = (
    guard-true (s.protocol_version == 1) _ _ e,
    guard-true _ _ _ (guard-rest (s.protocol_version == 1) _ _ e),
  )

  submission-Covers :
      (s : SignedSubmission) {b : Text}
      → submission_bytes s ≡ ok b
      → (binding : Text) × (nonce : Text) × Covers s binding nonce
        × (b
            ≡ signing_domain
              ++ 1
                ∷ s.protocol_version
                ∷ append_field s.purpose (
                    append_field binding (
                      append_field nonce (
                        append_field s.operation_id (
                          append_field
                            (revision_bytes s.expected_policy_revision)
                            (u32_bytes (length s.args) ++ append_fields s.args []))))))
  unfolding submission_bytes
  submission-Covers s e =
      let (_, e1, v) = bind-ok _ (validate_submission s) e in
      let (binding, e2, eb) = bind-ok _ (decode_fixed 32 s.binding_id) e1 in
      let (nonce, e3, en) = bind-ok _ (decode_fixed 32 s.nonce) e2 in
      let (version, rest) = submission-valid s v in
      (binding, nonce, covers s binding nonce version rest eb en, cc)

  AreShort-args : (vs : List Text) → any bad_arg vs ≡ false → AreShort vs
  AreShort-args [] e = tt
  AreShort-args (v ∷ vs) e = (short_arg v (any bad_arg vs) e, AreShort-args vs (rest_good v vs e))

  purpose_short : (s : SignedSubmission) (b n : Text) → Covers s b n → length s.purpose < 2 ^ 32
  purpose_short s b n c = rw c.purpose (omega arith)

  binding_short : (s : SignedSubmission) (b n : Text) → Covers s b n → length b < 2 ^ 32
  binding_short s b n c = omega (arith, decode_fixed-length 32 s.binding_id c.binding_of)

  nonce_short : (s : SignedSubmission) (b n : Text) → Covers s b n → length n < 2 ^ 32
  nonce_short s b n c = omega (arith, decode_fixed-length 32 s.nonce c.nonce_of)

  operation_short :
      (s : SignedSubmission) (b n : Text) → Covers s b n → length s.operation_id < 2 ^ 32
  operation_short s b n c = omega (arith, c.operation)

  pub length-revision_bytes : (v : Text) → length (revision_bytes v) ≤ length v
  unfolding revision_bytes
  length-revision_bytes [] = omega arith
  length-revision_bytes (a ∷ []) = omega arith
  length-revision_bytes (a ∷ b ∷ v) = omega (arith, length-revision_bytes v)

  revision_short :
      (s : SignedSubmission) (b n : Text)
      → Covers s b n
      → length (revision_bytes s.expected_policy_revision) < 2 ^ 32
  revision_short s b n c =
      omega (arith, length-revision_bytes s.expected_policy_revision, c.revision_length)

  args_few : (s : SignedSubmission) (b n : Text) → Covers s b n → length s.args < 2 ^ 32
  args_few s b n c = omega (arith, c.args_length)

  encoded_equal :
      (n : ℕ) (v w x y : Text) → decode_fixed n v ≡ ok x → decode_fixed n w ≡ ok y → x ≡ y → v ≡ w
  encoded_equal n v w x y ev ew q =
      sym (decode_fixed-encode n v ev) ∙ ap h.url_encode q ∙ decode_fixed-encode n w ew

  revisions_equal :
      (s t : SignedSubmission) (bs ns bt nt : Text)
      → Covers s bs ns
      → Covers t bt nt
      → revision_bytes s.expected_policy_revision ≡ revision_bytes t.expected_policy_revision
      → s.expected_policy_revision ≡ t.expected_policy_revision
  revisions_equal s t bs ns bt nt c d =
      revision_bytes-injective s.expected_policy_revision t.expected_policy_revision
        (c.revision_length ∙ sym d.revision_length) (rw c.revision_length refl) c.revision_hex
        d.revision_hex

  -- Two submissions that sign as the same bytes agree in every field but the signature.
  pub submission_bytes-injective :
      (s t : SignedSubmission) {b : Text}
      → submission_bytes s ≡ ok b
      → submission_bytes t ≡ ok b
      → (s.protocol_version ≡ t.protocol_version)
        × (s.purpose ≡ t.purpose)
        × (s.binding_id ≡ t.binding_id)
        × (s.nonce ≡ t.nonce)
        × (s.operation_id ≡ t.operation_id)
        × (s.expected_policy_revision ≡ t.expected_policy_revision)
        × (s.args ≡ t.args)
  submission_bytes-injective s t es et =
      let (bs, ns, cs, qs) = submission-Covers s es in
      let (bt, nt, ct, qt) = submission-Covers t et in
      let (version, e1) = header_equal (sym qs ∙ qt) in
      let (purpose, e2) =
        append_field-injective s.purpose t.purpose _ _ (purpose_short s bs ns cs)
          (purpose_short t bt nt ct) e1 in
      let (binding, e3) =
        append_field-injective bs bt _ _ (binding_short s bs ns cs) (binding_short t bt nt ct) e2 in
      let (nonce, e4) =
        append_field-injective ns nt _ _ (nonce_short s bs ns cs) (nonce_short t bt nt ct) e3 in
      let (operation, e5) =
        append_field-injective s.operation_id t.operation_id _ _ (operation_short s bs ns cs)
          (operation_short t bt nt ct) e4 in
      let (revision, e6) =
        append_field-injective (revision_bytes s.expected_policy_revision)
          (revision_bytes t.expected_policy_revision) _ _ (revision_short s bs ns cs)
          (revision_short t bt nt ct) e5 in
      let (count, e7) =
        u32_bytes-injective (length s.args) (length t.args) _ _ (args_few s bs ns cs)
          (args_few t bt nt ct) e6 in
      let (args, _) =
        append_fields-injective s.args t.args [] [] count (AreShort-args s.args cs.args_short)
          (AreShort-args t.args ct.args_short) e7 in
      (
        version,
        purpose,
        encoded_equal 32 s.binding_id t.binding_id bs bt cs.binding_of ct.binding_of binding,
        encoded_equal 32 s.nonce t.nonce ns nt cs.nonce_of ct.nonce_of nonce,
        operation,
        revisions_equal s t bs ns bt nt cs ct revision,
        args,
      )

  purposes_differ :
      (p x y : Text) → p ≡ codes "submit" → append_field p x ≡ append_field (codes "status") y → ⊥
  purposes_differ p x y q e =
      let (same, _) =
        append_field-injective p (codes "status") x y (rw q (omega arith)) (omega arith) e in
      clash (sym q ∙ same)
    where
      clash : codes "submit" ≡ codes "status" → ⊥
      clash h = absurd (omega ((heads_equal (heads_equal h).1).0, arith))

  query-valid :
      (q : SignedStatusQuery) {u : Unit {0}} → validate_query q ≡ ok u → q.purpose ≡ codes "status"
  unfolding validate_query
  query-valid q e =
      (text_eq.eq_iff q.purpose (codes "status")).0
        (&&-true _ _ (guard-true _ _ _ (guard-rest (q.protocol_version == 1) _ _ e))).0

  purpose_named :
      (q : SignedStatusQuery) (rest : Text) {b : Text}
      → q.purpose ≡ codes "status"
      → ◌≡◌ {A = Result AgentRejection Text}
          (ok (signing_domain ++ 1 ∷ q.protocol_version ∷ append_field q.purpose rest))
          (ok b)
      → b ≡ signing_domain ++ 1 ∷ q.protocol_version ∷ append_field (codes "status") rest
  purpose_named q rest e h = cc

  query-purpose :
      (q : SignedStatusQuery) {b : Text}
      → query_bytes q ≡ ok b
      → (rest : Text) × (b
          ≡ signing_domain ++ 1 ∷ q.protocol_version ∷ append_field (codes "status") rest)
  unfolding query_bytes
  query-purpose q e =
      let (_, e1, v) = bind-ok _ (validate_query q) e in
      let (binding, e2, _) = bind-ok _ (decode_fixed 32 q.binding_id) e1 in
      let (nonce, e3, _) = bind-ok _ (decode_fixed 32 q.nonce) e2 in
      let (request, e4, _) = bind-ok _ (decode_fixed 32 q.request_id) e3 in
      (
        append_field binding (append_field nonce (append_field request [])),
        purpose_named q _ (query-valid q v) e4,
      )

  -- The bytes that a valid submission signs are never those that a valid status query signs.
  pub submission-not-query :
      (s : SignedSubmission) (q : SignedStatusQuery) (b c : Text)
      → submission_bytes s ≡ ok b
      → query_bytes q ≡ ok c
      → b ≢ c
  submission-not-query s q b c es eq same =
      let (bs, ns, cs, qs) = submission-Covers s es in
      let (rest, qq) = query-purpose q eq in
      let (_, e) = header_equal (sym qs ∙ same ∙ qq) in
      purposes_differ s.purpose _ rest cs.purpose e
