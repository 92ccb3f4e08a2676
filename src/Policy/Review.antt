-- ===== src/Policy/Review.antt =====
-- `OperationPolicy::direct_review`: what a human is shown before a decision.
use vaultwarden_cli.Base.{
  none, some, List, [], ◌∷◌, ◌++◌, map, codes, if◌then◌else◌, Text, is_some, ℕ,
}
use vaultwarden_cli.Host.{Host}
use vaultwarden_cli.Ident.{hex_sha256}
use vaultwarden_cli.Policy.Types.{ArgumentSpec, OperationPolicy, CredentialUse}
use vaultwarden_cli.Policy.Ssh.{ssh_review, ssh_target}
use vaultwarden_cli.Request.Types.{DirectReview, DirectStatus, ReviewCredential}

unfoldable pub one_time_text : Text
one_time_text =
    codes "Approval authorizes one protected execution. Lock or cancellation stops its descendants."

unfoldable pub human_requester : Text
human_requester = codes "local human terminal"

unfoldable pub create_effect_text : Text
create_effect_text = codes "CREATE personal vault item (no update)"

-- The value at the first target argument.
unfoldable pub target_argument : List ArgumentSpec → List Text → Text
target_argument [] vs = codes "No target argument"
target_argument (s ∷ ss) [] = codes "No target argument"
target_argument (ArgumentSpec.target ∷ ss) (v ∷ vs) = v
target_argument (ArgumentSpec.choice _ ∷ ss) (v ∷ vs) = target_argument ss vs
target_argument (ArgumentSpec.integer _ _ ∷ ss) (v ∷ vs) = target_argument ss vs

review_target : OperationPolicy → List Text → Text
unfolding target_argument
review_target p arguments = elim p.create [
  | some c ↦ c.destination.reference
  | none ↦ elim p.ssh [
    | some s ↦ ssh_target (ssh_review s)
    | none ↦ target_argument p.arguments arguments
  ]
]

review_credentials : OperationPolicy → List ReviewCredential
review_credentials p =
    map (λ c. record { label = c.label; use_type = c.use_type }) p.credentials
    ++ ((elim p.create [
      | none ↦ []
      | some c ↦ record { label = c.destination.reference; use_type = CredentialUse.login } ∷ []
    ])
        ++ (elim p.ssh [
          | none ↦ []
          | some s ↦ record { label = s.credential.label; use_type = s.credential.use_type } ∷ []
        ]))

module _ ⦃h : Host⦄ where
  unfoldable pub arguments_digest : List Text → Text
  arguments_digest values = hex_sha256 (h.arguments_bytes values)

  unfoldable pub direct_review : OperationPolicy → Text → List Text → ℕ → DirectReview
  unfolding review_target review_credentials arguments_digest create_effect_text human_requester
      one_time_text
  direct_review p id arguments expires = record {
    id = id;
    requester = human_requester;
    operation = p.id;
    effect = if is_some p.create then create_effect_text else p.description;
    create = p.create;
    target = review_target p arguments;
    ssh = elim p.ssh [ none ↦ none | some s ↦ some (ssh_review s) ];
    arguments = arguments;
    credentials = review_credentials p;
    executable_digest = p.image.sha256;
    policy_digest = p.revision;
    arguments_digest = arguments_digest arguments;
    expires_at_unix_seconds = expires;
    one_time = one_time_text;
    status = DirectStatus.pending;
  }
