-- ===== src/Provider/Catalogue.antt =====
-- Provisioning in src/access/provider.rs: policies against the registry of images and the backend's
-- credentials, and the registration of images.
use vaultwarden_cli.Base.{
  ℕ, Bool, true, false, not, ◌&&◌, Option, none, some, List, [], ◌∷◌, ◌++◌, map, ◌==◌, text_eq,
  if◌then◌else◌, Text, any, all, find, update_first, unwrap_or, codes, Result, ok, err, ◌>>=◌, ◌>>◌,
  guard, ok_or,
}
use vaultwarden_cli.Host.{Host}
use vaultwarden_cli.Storage.{Destination}
use vaultwarden_cli.Policy.Types.{
  ApprovedImage, OperationPolicy, OperationPolicyDraft, LoginField, LoginCredentialDraft,
}
use vaultwarden_cli.Policy.Image.{image_valid}
use vaultwarden_cli.Policy.Draft.{from_draft, draft_of}
use vaultwarden_cli.State.Types.{ProviderState, ProviderDiagnostic}
use vaultwarden_cli.State.Validate.{state_valid}
use vaultwarden_cli.Store.{Io}
use vaultwarden_cli.Provider.Defs.{Provider, Plan, write, transact_guarded, query, find_operation}

-- `LoginEligibilityVerifier`: the backend's answers; `none` where the backend fails.
pub record Eligibility : Type 0 where
  pub ssh : Text → Option Bool
  pub login : Text → List LoginField → Text → Option Bool
  pub scoped : Text → List LoginField → Text → Destination → Option Bool

-- What an `ImageVerifier` answers: unavailable, or another `ExecutionError`.
pub data ImageCheck : Type 0 where
  verified unverifiable rejected : ImageCheck

pub record OperationSummary : Type 0 where
  pub id : Text
  pub image_id : Text
  pub revision : Text

pub record OperationMetadata : Type 0 where
  pub policy : OperationPolicyDraft
  pub revision : Text

-- `OperationPolicy::summary` and `metadata`
unfoldable pub summary : OperationPolicy → OperationSummary
summary p = record { id = p.id; image_id = p.image.image_id; revision = p.revision }

unfoldable pub metadata : OperationPolicy → OperationMetadata
metadata p = record { policy = draft_of p; revision = p.revision }

-- One binding of `login_bindings`; a failure of the backend denies.
unfoldable pub credential_eligible : Eligibility → Text → LoginCredentialDraft → Bool
credential_eligible v marker c =
    let fields = map (λ m. m.field) c.field_mappings in
    elim c.namespace [
      | some n ↦ unwrap_or false (v.scoped c.item_id fields marker n)
      | none ↦ unwrap_or false (v.login c.item_id fields marker)
    ]

unfoldable pub ssh_eligible : Eligibility → OperationPolicy → Bool
ssh_eligible v p = elim p.ssh [
  | none ↦ true
  | some s ↦ unwrap_or false (v.ssh s.credential.item_id)
]

unfoldable pub policy_eligible : Eligibility → OperationPolicy → Bool
unfolding credential_eligible ssh_eligible
policy_eligible v p =
    ssh_eligible v p && all (credential_eligible v (codes "vw-access=" ++ p.id)) p.credentials

-- `upsert_operation_guarded`: in the place of a policy of the same identifier, or at the end.
unfoldable pub upsert : OperationPolicy → List OperationPolicy → List OperationPolicy
upsert p ps =
    if any (λ q. q.id == p.id) ps then update_first (λ q. q.id == p.id) p ps else ps ++ p ∷ []

module _ ⦃h : Host⦄ where
  -- `upsert_operation_guarded` up to its write: both states are tested.
  unfoldable pub upserted :
      ℕ → OperationPolicy → ProviderState → Result ProviderDiagnostic (Plan Text)
  unfolding upsert
  upserted uid policy s = do
    guard (state_valid s uid) ProviderDiagnostic.invalid_state
    let updated = record s { operations = upsert policy s.operations }
    guard (state_valid updated uid) ProviderDiagnostic.invalid_state
    ok (write updated policy.revision)

  -- `provision_operation` after it has read the state. `allowed` is what `still_authorized` answers
  -- before the write.
  unfoldable pub provision_plan :
      ℕ
      → OperationPolicyDraft
      → Eligibility
      → Bool
      → Bool
      → ProviderState
      → Result ProviderDiagnostic (Plan Text)
  unfolding policy_eligible upserted
  provision_plan uid draft v create_only allowed s = do
    guard (not (create_only && any (λ p. p.id == draft.id) s.operations))
        ProviderDiagnostic.conflict
    image ←
        ok_or (find (λ i. i.id == draft.image_id) s.approved_images)
          ProviderDiagnostic.invalid_operation_policy
    policy ← ok_or (from_draft draft image) ProviderDiagnostic.invalid_operation_policy
    guard (policy_eligible v policy) ProviderDiagnostic.credential_ineligible
    guard allowed ProviderDiagnostic.credential_ineligible
    upserted uid policy s

  -- `provision_operation`; `create_only` refuses an identifier that is in use.
  unfoldable pub provision_operation :
      Provider
      → OperationPolicyDraft
      → Eligibility
      → Bool
      → Bool
      → Io
      → Result ProviderDiagnostic Text × Provider
  provision_operation p draft v create_only allowed io =
      transact_guarded (λ e. e) p io (provision_plan p.store.owner_uid draft v create_only allowed)

  -- `register_image` after it has read the state; a registration has the fields of an image.
  unfoldable pub register_plan :
      ApprovedImage → ImageCheck → ProviderState → Result ProviderDiagnostic (Plan ApprovedImage)
  register_plan input check s = do
    guard (not (any (λ i. i.id == input.id) s.approved_images)) ProviderDiagnostic.conflict
    guard (image_valid input) ProviderDiagnostic.invalid_operation_policy
    checked check
    ok (write (record s { approved_images = s.approved_images ++ input ∷ [] }) input)
    where
      checked : ImageCheck → Result ProviderDiagnostic (Unit {0})
      checked ImageCheck.verified = ok tt
      checked ImageCheck.unverifiable = err ProviderDiagnostic.unsafe_state
      checked ImageCheck.rejected = err ProviderDiagnostic.invalid_operation_policy

  unfoldable pub register_image :
      Provider
      → ApprovedImage
      → ImageCheck
      → Io
      → Result ProviderDiagnostic ApprovedImage × Provider
  register_image p input check io = transact_guarded (λ e. e) p io (register_plan input check)

  -- `images`, `operations` and `operation`
  unfoldable pub images : Provider → Io → Result ProviderDiagnostic (List ApprovedImage)
  images p io = query (λ e. e) p io λ s. ok s.approved_images

  unfoldable pub operations : Provider → Io → Result ProviderDiagnostic (List OperationSummary)
  operations p io = query (λ e. e) p io λ s. ok (map summary s.operations)

  unfoldable pub operation :
      Provider → Text → Io → Result ProviderDiagnostic (Option OperationMetadata)
  operation p id io =
      query (λ e. e) p io
        λ s. ok (elim (find_operation id s.operations) [ none ↦ none | some q ↦ some (metadata q) ])
