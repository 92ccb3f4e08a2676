-- ===== src/Examples/Listing.antt =====
-- The history that an administrator lists, at a concrete state.
use vaultwarden_cli.State.Transition.{advance}
use vaultwarden_cli.Request.Record.{
  seal, digest, approval_binding, validate_history, shape_valid, validate,
}
use vaultwarden_cli.Ident.{hex_sha256, valid_operation_id, valid_request_id, valid_sha256}
use vaultwarden_cli.Request.Types.{
  ApprovalBinding-discrete, DirectStatus-discrete, HistoryEvent-discrete, HistoryOutcome-discrete,
  OptionStatus-discrete, OptionTime-discrete, status_eq, option_binding_eq, binding_eq,
}
use vaultwarden_cli.Examples.Inputs.{review, running_record, state_of, toy_host, good_io}
use vaultwarden_cli.Request.History.{
  matches_record, receipt_follows, event_valid, identity_valid, consistent_outcome, expected_event,
}
use vaultwarden_cli.Base.{
  Text-discrete, ℕ_discrete, ◌≡◌, refl, true, ok, nat_eq, text_eq, option_text_eq,
}
use vaultwarden_cli.Policy.Checks.{create_valid, has_duplicates}
use vaultwarden_cli.Policy.Review.{arguments_digest}
use vaultwarden_cli.Request.Status.{exit_in_range, outcome}
use vaultwarden_cli.Storage.{canonical_path, item_name, valid_id, destination_eq, option_receipt_eq}
use mathlib.Core.Bool.{decide}
use vaultwarden_cli.State.Validate.{state_valid, catalogue_valid}
use vaultwarden_cli.Agents.{registry_valid}
use vaultwarden_cli.State.Types.{
  LifecycleStatus-discrete, RequestLifecycleStatus, ProviderState, lifecycle_status_eq,
}
use vaultwarden_cli.Base.{◌≡◌, ◌≤◌, false, some, List, [], length}
use vaultwarden_cli.Request.Types.{HistoryEvent}
use vaultwarden_cli.Request.History.{limit}
use vaultwarden_cli.Request.Newest.{newest, is_ordered}
use vaultwarden_cli.Store.{read_state}
use vaultwarden_cli.Provider.Defs.{Provider, ProviderLockState}
use vaultwarden_cli.Provider.Listing.{history, visible_events, reversed, history-newest}

unfoldable listed_state : ProviderState
unfolding state_of running_record
listed_state = state_of RequestLifecycleStatus.running running_record

-- The request's owner as the provider's own user.
unfoldable listed : Provider
unfolding listed_state
listed = record {
  store = record { owner_uid = 1000; poisoned = false; durable = listed_state };
  lock_state = ProviderLockState.locked;
  state = listed_state;
}

reads : read_state listed.store (good_io.reads 0) ≡ ok listed_state
unfolding ApprovalBinding-discrete DirectStatus-discrete HistoryEvent-discrete
    HistoryOutcome-discrete LifecycleStatus-discrete OptionStatus-discrete OptionTime-discrete
    Text-discrete advance approval_binding arguments_digest canonical_path catalogue_valid
    consistent_outcome create_valid decide digest event_valid exit_in_range expected_event
    has_duplicates hex_sha256 identity_valid item_name matches_record outcome receipt_follows
    registry_valid review seal shape_valid state_valid valid_id valid_operation_id valid_request_id
    valid_sha256 validate validate_history ℕ_discrete listed read_state
reads = refl

limits : limit (some 2) ≡ ok 2
unfolding limit
limits = refl

history-newest_example :
    (es : List HistoryEvent) × (history listed listed.store.owner_uid (some 2) good_io ≡ ok es)
    × (es
        ≡ newest
            (reversed
              (visible_events listed.store.owner_uid listed.store.owner_uid listed_state)
              [])
            2)
    × (is_ordered es ≡ true)
    × (length es ≤ 2)
history-newest_example = history-newest listed (some 2) good_io 2 listed_state limits reads
