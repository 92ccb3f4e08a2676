-- ===== src/Provider/Signed.antt =====
-- Signed agents: who may speak for a binding, signed submissions and signed status queries, and the
-- replay markers that both of them use up.
use vaultwarden_cli.Base.{
  ℕ, Bool, not, ◌&&◌, ◌||◌, Option, none, some, List, [], ◌∷◌, ◌++◌, map, ◌==◌, nat_eq, text_eq,
  option_text_eq, if◌then◌else◌, Text, any, filter, find, is_some, is_some_and, Result, ok, err,
  map_err, ◌>>=◌, ◌>>◌, guard, ok_or, codes,
}
use vaultwarden_cli.Host.{Host}
use vaultwarden_cli.Request.Types.{DirectReview, DirectStatus, AgentOwner, RequestError, owner_eq}
use vaultwarden_cli.Request.Record.{human_visible}
use vaultwarden_cli.Agents.{
  AgentBinding, AgentBindingView, matches_os, from_binding, owner_matches, view,
}
use vaultwarden_cli.Protocol.{
  AgentRejection, SignedSubmission, SignedStatusQuery, submission_marker, query_marker,
  verify_submission, verify_query,
}
use vaultwarden_cli.State.Types.{ProviderState, ProviderDiagnostic, diagnostic_eq}
use vaultwarden_cli.State.Validate.{mem, replay_of}
use vaultwarden_cli.Store.{Io}
use vaultwarden_cli.Provider.Defs.{
  Provider, Plan, write, unavailable, transact_guarded, query, find_direct, agent_current,
}
use vaultwarden_cli.Provider.Requests.{create_owned}

pub record RequestOrigin : Type 0 where
  pub kind : Text
  pub binding_id : Text
  pub label : Text
  pub fingerprint : Text
  pub evidence : Text

-- `From<DirectRequestError> for AgentRejection`
unfoldable pub rejection_of : RequestError → AgentRejection
rejection_of RequestError.unauthorized = AgentRejection.unauthorized
rejection_of RequestError.locked = AgentRejection.locked
rejection_of RequestError.invalid_request = AgentRejection.invalid_arguments
rejection_of RequestError.stale_revision = AgentRejection.stale_revision
rejection_of _ = AgentRejection.unavailable

-- A marker that a request or a status query used.
unfoldable pub is_used : Text → ProviderState → Bool
is_used marker s =
    mem marker s.query_replay_markers
    || any (λ r. is_some_and (λ m. m == marker) (replay_of r)) s.requests

-- `iter().find(|b| b.id == id && b.matches_os(uid, groups))`
unfoldable pub peer_binding : Text → ℕ → List ℕ → List AgentBinding → Option AgentBinding
peer_binding id uid groups bindings = find (λ b. b.id == id && matches_os b uid groups) bindings

-- `owned_agent_status`
unfoldable pub owned_status : AgentOwner → Text → ProviderState → Result AgentRejection DirectStatus
owned_status owner id s = elim (find_direct id s.requests) [
  | none ↦ err AgentRejection.unauthorized
  | some d ↦
      if is_some_and (λ a. a == owner) d.agent_owner
      then ok d.review.status
      else err AgentRejection.unauthorized
]

abbrev pub rejected : ProviderDiagnostic → AgentRejection
rejected e = AgentRejection.unavailable

module _ ⦃h : Host⦄ where
  -- `agent_binding_for_peer`
  unfoldable pub agent_binding_for_peer :
      Provider → Text → ℕ → List ℕ → Io → Result RequestError AgentOwner
  unfolding peer_binding
  agent_binding_for_peer p id uid groups io = query unavailable p io λ s. do
    b ← ok_or (peer_binding id uid groups s.pairings) RequestError.unauthorized
    ok (from_binding b)

  -- `eligible_agent_ids`
  unfoldable pub eligible_agent_ids : Provider → ℕ → List ℕ → Io → Result AgentRejection (List Text)
  eligible_agent_ids p uid groups io =
      if uid == p.store.owner_uid
      then err AgentRejection.unauthorized
      else query rejected p io
          λ s. ok (map (λ b. b.id) (filter (λ b. matches_os b uid groups) s.pairings))

  -- `authenticate_agent`, on the state that it reads.
  unfoldable pub authenticate_plan :
      ℕ → List ℕ → SignedSubmission → ProviderState → Result AgentRejection AgentOwner
  unfolding peer_binding
  authenticate_plan uid groups input s = do
    b ← ok_or (peer_binding input.binding_id uid groups s.pairings) AgentRejection.unauthorized
    verify_submission input b.public_key
    ok (from_binding b)

  unfoldable pub authenticate_agent :
      Provider → ℕ → List ℕ → SignedSubmission → Io → Result AgentRejection AgentOwner
  authenticate_agent p uid groups input io =
      if uid == p.store.owner_uid
      then err AgentRejection.unauthorized
      else query rejected p io (authenticate_plan uid groups input)

  unfoldable pub unused : Text → ProviderState → Result AgentRejection Text
  unfolding is_used
  unused marker s = guard (not (is_used marker s)) AgentRejection.replay >> ok marker

  -- `create_signed` before its request: the marker of the submission, if it is not used.
  unfoldable pub fresh_marker :
      Provider → AgentOwner → SignedSubmission → Io → Result AgentRejection Text
  unfolding unused
  fresh_marker p owner input io = do
    guard (input.binding_id == owner.binding_id) AgentRejection.unauthorized
    marker ← submission_marker input
    query rejected p io (unused marker)

  -- `create_signed` after its marker.
  unfoldable pub submit_marked :
      Provider
      → AgentOwner
      → SignedSubmission
      → ℕ
      → ℕ
      → Bool
      → Io
      → Result AgentRejection Text
      → Result AgentRejection DirectReview × Provider
  submit_marked p owner input now expires allowed io (err e) = (err e, p)
  submit_marked p owner input now expires allowed io (ok marker) =
      let (result, p') =
        create_owned p
          (record { uid = owner.uid; agent_owner = some owner; replay_digest = some marker })
          (record {
            operation = input.operation_id;
            revision = some input.expected_policy_revision;
            values = input.args;
          })
          now expires allowed io in
      (map_err rejection_of result, p')

  -- `create_signed`: the state is read for the marker, and again by `create_owned`.
  unfoldable pub create_signed :
      Provider
      → AgentOwner
      → SignedSubmission
      → ℕ
      → ℕ
      → Bool
      → Io
      → Io
      → Result AgentRejection DirectReview × Provider
  unfolding fresh_marker submit_marked
  create_signed p owner input now expires allowed first io =
      submit_marked p owner input now expires allowed io (fresh_marker p owner input first)

  -- `authenticate_status_query`: ownership is tested before any use of the marker.
  unfoldable pub authenticate_query_plan :
      ℕ → List ℕ → SignedStatusQuery → ProviderState → Result AgentRejection AgentOwner
  unfolding peer_binding owned_status
  authenticate_query_plan uid groups q s = do
    b ← ok_or (peer_binding q.binding_id uid groups s.pairings) AgentRejection.unauthorized
    verify_query q b.public_key
    _ ← owned_status (from_binding b) q.request_id s
    ok (from_binding b)

  unfoldable pub authenticate_status_query :
      Provider → ℕ → List ℕ → SignedStatusQuery → Io → Result AgentRejection AgentOwner
  authenticate_status_query p uid groups q io =
      if uid == p.store.owner_uid
      then err AgentRejection.unauthorized
      else query rejected p io (authenticate_query_plan uid groups q)

  -- `consume_status_query`
  unfoldable pub query_plan :
      AgentOwner → SignedStatusQuery → ProviderState → Result AgentRejection (Plan (Unit {0}))
  unfolding is_used owned_status
  query_plan owner q s = do
    guard (q.binding_id == owner.binding_id && agent_current s.pairings (some owner))
        AgentRejection.unauthorized
    _ ← owned_status owner q.request_id s
    marker ← query_marker q
    guard (not (is_used marker s)) AgentRejection.replay
    ok (write (record s { query_replay_markers = s.query_replay_markers ++ marker ∷ [] }) tt)

  abbrev query_write_error : ProviderDiagnostic → AgentRejection
  query_write_error e =
      if e == ProviderDiagnostic.expired_access_request
      then AgentRejection.unauthorized
      else AgentRejection.unavailable

  unfoldable pub consume_status_query :
      Provider → AgentOwner → SignedStatusQuery → Io → Result AgentRejection (Unit {0}) × Provider
  consume_status_query p owner q io = transact_guarded query_write_error p io (query_plan owner q)

  -- `agent_status`
  unfoldable pub status_plan :
      AgentOwner → ℕ → List ℕ → Text → ProviderState → Result RequestError DirectStatus
  status_plan owner uid groups id s = do
    guard (any (λ b. owner_matches owner b && matches_os b uid groups) s.pairings)
        RequestError.unauthorized
    d ← ok_or (find_direct id s.requests) RequestError.not_found
    guard (is_some_and (λ a. a == owner) d.agent_owner) RequestError.not_found
    ok d.review.status

  unfoldable pub agent_status :
      Provider → AgentOwner → ℕ → List ℕ → Text → Io → Result RequestError DirectStatus
  agent_status p owner uid groups id io = query unavailable p io (status_plan owner uid groups id)

  -- `list_agents`
  unfoldable pub list_agents : Provider → ℕ → Io → Result RequestError (List AgentBindingView)
  list_agents p human io =
      if not (human == p.store.owner_uid)
      then err RequestError.unauthorized
      else query unavailable p io λ s. ok (map view s.pairings)

  origin_of : AgentOwner → RequestOrigin
  origin_of a = record {
    kind = codes "requester_agent";
    binding_id = a.binding_id;
    label = a.label;
    fingerprint = a.fingerprint;
    evidence = codes "signed_os_binding";
  }

  unfoldable pub origin_plan :
      ℕ → ℕ → Text → ProviderState → Result RequestError (Option RequestOrigin)
  unfolding origin_of
  origin_plan human provider_uid id s = do
    d ← ok_or (find_direct id s.requests) RequestError.not_found
    guard (human_visible human provider_uid d) RequestError.unauthorized
    ok (elim d.agent_owner [
      | none ↦ none
      | some a ↦ if is_some d.replay_digest then some (origin_of a) else none
    ])

  -- `request_origin`
  unfoldable pub request_origin :
      Provider → ℕ → Text → Io → Result RequestError (Option RequestOrigin)
  request_origin p human id io =
      if not (human == p.store.owner_uid)
      then err RequestError.unauthorized
      else query unavailable p io (origin_plan human p.store.owner_uid id)
