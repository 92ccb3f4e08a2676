-- ===== src/Agents.antt =====
-- Paired agents: src/access/agent_binding.rs, as built for Linux (`account_uuid` is `None`).
use vaultwarden_cli.Base.{
  ℕ, Bool, true, false, not, ◌&&◌, ◌||◌, Option, none, some, List, [], ◌∷◌, leb, ◌==◌, nat_eq,
  text_eq, if◌then◌else◌, Text, all, any, is_empty, length, is_some_and, ℕ_discrete, PartialEq,
  of_discrete,
}
use vaultwarden_cli.Strings.{is_graphic}
use vaultwarden_cli.Host.{Host}
use vaultwarden_cli.Ident.{decode_public_key, decodes_to, hex_sha256}
use vaultwarden_cli.Request.Types.{AgentOwner, owner_eq}
use vaultwarden_cli.Request.History.{u32_max}

pub record AgentPairing : Type 0 where
  pub label : Text
  pub public_key : Text
  pub uid : ℕ
  pub gid : ℕ

pub data AgentBindingStatus : Type 0 where
  enabled revoked : AgentBindingStatus

pub record AgentBinding : Type 0 where
  pub id : Text
  pub label : Text
  pub public_key : Text
  pub fingerprint : Text
  pub uid : ℕ
  pub gid : ℕ
  pub status : AgentBindingStatus

pub data AgentAuditAction : Type 0 where
  paired revoked : AgentAuditAction

pub record AgentAuditEvent : Type 0 where
  pub actor_uid : ℕ
  pub binding_id : Text
  pub label : Text
  pub fingerprint : Text
  pub uid : ℕ
  pub gid : ℕ
  pub timestamp_unix_seconds : ℕ
  pub action : AgentAuditAction

pub record AgentBindingView : Type 0 where
  pub id : Text
  pub label : Text
  pub fingerprint : Text
  pub uid : ℕ
  pub gid : ℕ
  pub status : AgentBindingStatus

unfoldable pub BindingStatus-discrete : Discrete AgentBindingStatus
BindingStatus-discrete = hlevel

unfoldable pub AuditEvent-discrete : Discrete AgentAuditEvent
AuditEvent-discrete = hlevel ℕ_discrete

instance abbrev pub binding_status_eq : PartialEq AgentBindingStatus
binding_status_eq = of_discrete BindingStatus-discrete

instance abbrev pub audit_event_eq : PartialEq AgentAuditEvent
audit_event_eq = of_discrete AuditEvent-discrete

abbrev pub valid_label : Text → Bool
valid_label l =
    not (is_empty l)
    && leb (length l) 128
    && all (λ b. is_graphic b || b == b' ') l
    && any is_graphic l

abbrev pub valid_os_id : ℕ → Bool
valid_os_id n = not (n == 0) && not (n == u32_max)

abbrev pub is_enabled : AgentBinding → Bool
is_enabled b = b.status == AgentBindingStatus.enabled

abbrev has_group : ℕ → List ℕ → Bool
has_group g = any λ x. x == g

-- `AgentBinding::matches_os`
unfoldable pub matches_os : AgentBinding → ℕ → List ℕ → Bool
matches_os b uid groups = b.uid == uid && has_group b.gid groups && is_enabled b

-- `AgentBinding::view` and `audit`
unfoldable pub view : AgentBinding → AgentBindingView
view b = record {
  id = b.id;
  label = b.label;
  fingerprint = b.fingerprint;
  uid = b.uid;
  gid = b.gid;
  status = b.status;
}

unfoldable pub audit : AgentBinding → ℕ → ℕ → AgentAuditAction → AgentAuditEvent
audit b actor now action = record {
  actor_uid = actor;
  binding_id = b.id;
  label = b.label;
  fingerprint = b.fingerprint;
  uid = b.uid;
  gid = b.gid;
  timestamp_unix_seconds = now;
  action = action;
}

-- `AgentOwner::from_binding` and `matches`
unfoldable pub from_binding : AgentBinding → AgentOwner
from_binding b = record {
  binding_id = b.id;
  label = b.label;
  fingerprint = b.fingerprint;
  uid = b.uid;
  gid = b.gid;
}

unfoldable pub owner_matches : AgentOwner → AgentBinding → Bool
unfolding from_binding
owner_matches a b = a == from_binding b

module _ ⦃h : Host⦄ where
  -- `AgentBinding::validate`
  unfoldable pub binding_valid : ℕ → AgentBinding → Bool
  binding_valid provider_uid b =
      decodes_to 32 b.id
      && is_some_and (λ key. b.fingerprint == hex_sha256 key) (decode_public_key b.public_key)
      && valid_label b.label
      && valid_os_id b.uid
      && valid_os_id b.gid
      && not (b.uid == provider_uid)

  -- `AgentBinding::new`, whose identifier is drawn at random.
  unfoldable pub new_binding : AgentPairing → ℕ → Option Text → Option AgentBinding
  new_binding input provider_uid fresh = elim (decode_public_key input.public_key) [
    | none ↦ none
    | some key ↦ elim fresh [
      | none ↦ none
      | some bytes ↦
          let b : AgentBinding = record {
            id = h.url_encode bytes;
            label = input.label;
            public_key = input.public_key;
            fingerprint = hex_sha256 key;
            uid = input.uid;
            gid = input.gid;
            status = AgentBindingStatus.enabled;
          } in
          if binding_valid provider_uid b then some b else none
    ]
  ]

  -- The first loop of `validate_registry`, over the identifiers, keys and enabled labels so far.
  unfoldable pub bindings_distinct :
      ℕ → List Text → List Text → List Text → List AgentBinding → Bool
  bindings_distinct uid ids keys labels [] = true
  bindings_distinct uid ids keys labels (b ∷ bs) =
      binding_valid uid b
      && not (any (λ i. i == b.id) ids)
      && not (any (λ k. k == b.public_key) keys)
      && not (is_enabled b && any (λ l. l == b.label) labels)
      && bindings_distinct uid (b.id ∷ ids) (b.public_key ∷ keys)
          (if is_enabled b then b.label ∷ labels else labels) bs

-- The actions of the audit so far, the latest first.
abbrev Actions : Type 0
Actions = List (Text × AgentAuditAction)

abbrev pub last_action : Text → Actions → Option AgentAuditAction
last_action id [] = none
last_action id ((i, a) ∷ as_) = if i == id then some a else last_action id as_

abbrev action_follows : Option AgentAuditAction → AgentAuditAction → Bool
action_follows none AgentAuditAction.paired = true
action_follows none AgentAuditAction.revoked = false
action_follows (some AgentAuditAction.paired) AgentAuditAction.paired = false
action_follows (some AgentAuditAction.paired) AgentAuditAction.revoked = true
action_follows (some AgentAuditAction.revoked) _ = false

abbrev pub binding_by_id : Text → List AgentBinding → Option AgentBinding
binding_by_id id [] = none
binding_by_id id (b ∷ bs) = if b.id == id then some b else binding_by_id id bs

audit_event_valid : ℕ → List AgentBinding → Actions → AgentAuditEvent → Bool
audit_event_valid uid bindings seen e =
    is_some_and (λ b. e == audit b uid e.timestamp_unix_seconds e.action)
      (binding_by_id e.binding_id bindings)
    && action_follows (last_action e.binding_id seen) e.action

-- The loop over the audit: the actions at its end, or `none` at an event that is refused.
unfoldable pub audit_actions :
    ℕ → List AgentBinding → Actions → List AgentAuditEvent → Option Actions
unfolding audit_event_valid
audit_actions uid bindings seen [] = some seen
audit_actions uid bindings seen (e ∷ es) =
    let rest = audit_actions uid bindings ((e.binding_id, e.action) ∷ seen) es in
    if audit_event_valid uid bindings seen e then rest else none

-- An enabled binding was last paired, a revoked one last revoked.
unfoldable pub action_settled : Actions → AgentBinding → Bool
action_settled seen b = elim (last_action b.id seen) [
  | none ↦ false
  | some AgentAuditAction.paired ↦ is_enabled b
  | some AgentAuditAction.revoked ↦ not (is_enabled b)
]

-- `validate_registry`
unfoldable pub registry_valid : ⦃h : Host⦄ → List AgentBinding → List AgentAuditEvent → ℕ → Bool
unfolding bindings_distinct audit_actions action_settled
registry_valid bindings events uid =
    bindings_distinct uid [] [] [] bindings
    && is_some_and (λ seen. all (action_settled seen) bindings)
        (audit_actions uid bindings [] events)
