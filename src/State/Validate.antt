-- ===== src/State/Validate.antt =====
-- `ProviderState::validate_for_owner`.
use vaultwarden_cli.Base.{
  ℕ, Bool, true, not, ◌&&◌, Option, none, some, List, [], ◌∷◌, map, ◌==◌, nat_eq, text_eq,
  if◌then◌else◌, Text, all, any, find, is_none_or, is_some_and,
}
use vaultwarden_cli.Host.{Host}
use vaultwarden_cli.Ident.{valid_sha256}
use vaultwarden_cli.Policy.Types.{ApprovedImage, OperationPolicy}
use vaultwarden_cli.Policy.Checks.{has_duplicates}
use vaultwarden_cli.Policy.Image.{image_valid, policy_image_matches}
use vaultwarden_cli.Policy.Draft.{policy_valid}
use vaultwarden_cli.Request.Types.{DirectRecord, DirectStatus, AgentOwner}
use vaultwarden_cli.Request.Record.{validate}
use vaultwarden_cli.Agents.{AgentBinding, registry_valid, owner_matches}
use vaultwarden_cli.State.Types.{
  ProviderState, RequestRecord, RequestLifecycleStatus, is_unexecuted, schema_version,
  lifecycle_status_eq,
}
use vaultwarden_cli.State.Transition.{lifecycle_of}

abbrev pub mem : Text → List Text → Bool
mem t = any λ s. s == t

-- The query markers: digests, each of them once. `none` at one that is refused.
unfoldable pub markers_distinct : List Text → List Text → Option (List Text)
markers_distinct seen [] = some seen
markers_distinct seen (m ∷ ms) =
    let rest = markers_distinct (m ∷ seen) ms in
    if valid_sha256 m && not (mem m seen) then rest else none

-- The request's own status repeats the record's.
abbrev pub consistent : RequestLifecycleStatus → DirectStatus → Bool
consistent s d = s == lifecycle_of d

abbrev pub paired_owner : List AgentBinding → Option AgentOwner → Bool
paired_owner bindings o = is_none_or (λ a. any (owner_matches a) bindings) o

-- An unclaimed request that still waits belongs to the current epoch.
abbrev pub epoch_current : ℕ → RequestLifecycleStatus → DirectRecord → Bool
epoch_current epoch s d = not (
    is_unexecuted s
    && not d.execution_claimed
    && not (s == RequestLifecycleStatus.running)
    && not (d.lifecycle_epoch == epoch))

abbrev pub replay_of : RequestRecord → Option Text
replay_of r = elim r.direct [ none ↦ none | some d ↦ d.replay_digest ]

abbrev pub add_marker : Option Text → List Text → List Text
add_marker none ms = ms
add_marker (some m) ms = m ∷ ms

module _ ⦃h : Host⦄ where
  unfoldable pub direct_valid :
      List AgentBinding → ℕ → Text → RequestLifecycleStatus → DirectRecord → Bool
  direct_valid bindings epoch id s d =
      paired_owner bindings d.agent_owner
      && consistent s d.review.status
      && validate d id epoch
      && epoch_current epoch s d

  unfoldable pub request_valid : List AgentBinding → ℕ → RequestRecord → Bool
  request_valid bindings epoch r = is_none_or (direct_valid bindings epoch r.id r.status) r.direct

  -- The loop over the requests, with the identifiers and the replay markers so far.
  unfoldable pub requests_valid :
      List AgentBinding → ℕ → List Text → List Text → List RequestRecord → Bool
  requests_valid bindings epoch ids markers [] = true
  requests_valid bindings epoch ids markers (r ∷ rs) =
      not (mem r.id ids)
      && is_none_or (λ m. not (mem m markers)) (replay_of r)
      && request_valid bindings epoch r
      && requests_valid bindings epoch (r.id ∷ ids) (add_marker (replay_of r) markers) rs

  unfoldable pub policy_bound : List ApprovedImage → OperationPolicy → Bool
  policy_bound images p =
      policy_valid p
      && is_some_and (policy_image_matches p) (find (λ i. i.id == p.image.image_id) images)

  -- The registry of images and the policies bound to it.
  unfoldable pub catalogue_valid : List ApprovedImage → List OperationPolicy → Bool
  unfolding policy_bound
  catalogue_valid images policies =
      not (has_duplicates (map (λ i. i.id) images))
      && all image_valid images
      && not (has_duplicates (map (λ p. p.id) policies))
      && all (policy_bound images) policies

  unfoldable pub state_valid : ProviderState → ℕ → Bool
  unfolding requests_valid request_valid direct_valid markers_distinct
  state_valid s owner_uid =
      s.schema_version == schema_version
      && registry_valid s.pairings s.agent_audit owner_uid
      && catalogue_valid s.approved_images s.operations
      && is_some_and (λ markers. requests_valid s.pairings s.lifecycle_epoch [] markers s.requests)
          (markers_distinct [] s.query_replay_markers)
