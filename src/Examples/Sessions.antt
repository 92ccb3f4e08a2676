-- ===== src/Examples/Sessions.antt =====
-- A session at a concrete host: it is opened, a request is submitted and prepared, and it is locked.
use vaultwarden_cli.Base.{
  ℕ, ◌≡◌, refl, sym, ◌∙◌, Bool, true, false, Option, none, some, List, [], ◌∷◌, Text, codes, Result,
  ok, err, is_ok, ◌+◌, ◌*◌, ◌<◌, ◌≤◌, ◌^◌, suc, ltb→lt, arith,
}
use vaultwarden_cli.Agents
use vaultwarden_cli.Application.Action
use vaultwarden_cli.Application.Authority
use vaultwarden_cli.Application.Decision
use vaultwarden_cli.Application.Run
use vaultwarden_cli.Application.Submission
use vaultwarden_cli.Examples.Provisioning
use vaultwarden_cli.Ident
use vaultwarden_cli.Policy.Arguments
use vaultwarden_cli.Policy.Checks
use vaultwarden_cli.Policy.Draft
use vaultwarden_cli.Policy.Image
use vaultwarden_cli.Policy.Review
use vaultwarden_cli.Policy.Ssh
use vaultwarden_cli.Provider.Catalogue
use vaultwarden_cli.Provider.Expiry
use vaultwarden_cli.Provider.Requests
use vaultwarden_cli.Request.History
use vaultwarden_cli.Request.Record
use vaultwarden_cli.Request.Status
use vaultwarden_cli.State.Transition
use vaultwarden_cli.State.Validate
use vaultwarden_cli.Storage
use vaultwarden_cli.Store
use vaultwarden_cli.Request.Types.{ApprovalBinding, RequestError, ApprovalMethod}
use vaultwarden_cli.Store.{Io}
use vaultwarden_cli.Request.Record.{approval_binding}
use vaultwarden_cli.Provider.Defs
use vaultwarden_cli.Provider.Defs.{Provider, ProviderLockState}
use vaultwarden_cli.Provider.Requests.{DirectSubmission}
use vaultwarden_cli.Application.Types.{Session, Settings, Outside, SessionError}
use vaultwarden_cli.Application.Authority.{admit, authenticate, lock, max_session}
use vaultwarden_cli.Application.Decision.{
  PreparedApproval, prepare_approval, commit_decision, deny_direct,
}
use vaultwarden_cli.Application.Submission.{submit_direct}
use vaultwarden_cli.Application.Execution.{execution_authority}
use vaultwarden_cli.Application.Reconcile.{reconcile_write}
use vaultwarden_cli.Application.Run.{Method, perform_all}
use vaultwarden_cli.Application.Lease.{Opened, probe_answered, unlock_answered}
use vaultwarden_cli.Application.Progress.{authenticate-opens}
use vaultwarden_cli.Application.Safety.{session-lease}
use vaultwarden_cli.Application.Stale.{approval-stale}
use vaultwarden_cli.Application.Closed.{closed-refuses, locked-refuses}
use vaultwarden_cli.Application.Locked.{Withdrawn, lock-Withdrawn}
use vaultwarden_cli.Examples.Inputs.{toy_host, good_io, request_id, pending_record}
use vaultwarden_cli.Examples.Provisioning.{provisioned_state}

-- The clock ticks once a second, and the backend gives a minute.
abbrev pub world : Outside
world = record {
  closes = λ n. false;
  revokes = λ n. 0;
  withdraws = λ n a. false;
  now = λ n. n * 1000000000;
  unix_seconds = λ n. ok 150;
  clear = λ n. none;
  probe_compatibility = λ n. none;
  unlock = λ n. ok 60000000000;
  reconcile_secret = λ n e i. none;
  create_eligible = λ n e. none;
  ssh_eligible = λ n i. true;
  login_eligible = λ n p l. true;
  io = λ n. record good_io { fresh = some request_id };
  cleanup_uncertain = λ n. false;
  active = λ n i. false;
  contended = λ n. false;
  launch = λ n i. none;
}

abbrev settings : Settings
settings = record { owner = 500; request_lifetime_seconds = 300 }

abbrev locked_provider : Provider
locked_provider = record {
  store = record { owner_uid = 500; poisoned = false; durable = provisioned_state };
  lock_state = ProviderLockState.locked;
  state = provisioned_state;
}

abbrev pub locked_session : Session
locked_session = record {
  provider = locked_provider;
  deadline = none;
  cleanup_failed = false;
  generation = 1;
  session_epoch = 0;
  request_deadlines = λ id. none;
  request_agents = λ id. none;
  closing = false;
  revocation_epoch = 1;
  tokens = λ a. none;
  tick = 0;
}

abbrev binding : ApprovalBinding
unfolding pending_record
binding = approval_binding pending_record

-- What an action has answered, and what it has left.
abbrev answer_of : Result RequestError PreparedApproval → PreparedApproval
answer_of (ok p) = p
answer_of (err e) = record {
  binding = binding;
  generation = 0;
  companion_deadline = none;
  password_required = false;
}

done : (x : Result SessionError (Unit {0}) × Session) → is_ok x.0 ≡ true → x ≡ (ok tt, x.1)
done (ok u, s) e = refl
done (err x, s) e = cc

answered_as :
    (x : Result RequestError PreparedApproval × Session)
    → is_ok x.0 ≡ true
    → x ≡ (ok (answer_of x.0), x.1)
answered_as (ok p, s) e = refl
answered_as (err x, s) e = cc

unfoldable opened_session : Session
opened_session = (authenticate world locked_session).1

abbrev input : DirectSubmission
input = record { operation = codes "create-db"; revision = none; values = [] }

abbrev submission : List Method
submission = Method.submitting 500 input ∷ []

unfoldable later_session : Session
unfolding opened_session
later_session = perform_all settings submission world opened_session

unfoldable admitted_session : Session
unfolding later_session
admitted_session = (admit world later_session).1

unfoldable asked : Result RequestError PreparedApproval × Session
unfolding later_session
asked = prepare_approval settings 500 request_id world later_session

unfoldable closed : Result SessionError (Unit {0}) × Session
unfolding asked
closed = lock world asked.1

-- The session is opened, admits, prepares the request and is locked; all of it in one generation.
computes :
    (is_ok (authenticate world locked_session).0 ≡ true)
    × (opened_session.generation ≡ 2)
    × (later_session.generation ≡ 2)
    × (is_ok (admit world later_session).0 ≡ true)
    × (is_ok asked.0 ≡ true)
    × (is_ok closed.0 ≡ true)
    × (is_ok (Defs.lock locked_provider (world.io 0)).0 ≡ true)
unfolding opened_session later_session asked closed Authority.authenticate Submission.submit_direct
    Decision.prepare_approval Run.perform_all Defs.lock Authority.lock Authority.admit
    Submission.create Authority.expire_requests Requests.prepare_direct Decision.refreshed
    Authority.request_agent_live Run.perform Defs.transact Authority.await_cleanup
    Authority.publish_revocation Action.observe Authority.withdrawn Requests.create_direct
    Requests.create_plan Requests.show_review Expiry.expire_direct Authority.retain_deadlines
    Record.approval_binding Requests.decision_policy Requests.prepare_plan Defs.query
    Store.invalidated_state Store.read_state Store.write_state
    vaultwarden_cli.Request.Types.ApprovalBinding-discrete
    vaultwarden_cli.Request.Types.DirectStatus-discrete
    vaultwarden_cli.Policy.Types.ExecutionProfile-discrete
    vaultwarden_cli.Request.Types.HistoryEvent-discrete
    vaultwarden_cli.Request.Types.HistoryOutcome-discrete
    vaultwarden_cli.State.Types.LifecycleStatus-discrete Storage.OptionReceipt-discrete
    vaultwarden_cli.Request.Types.OptionStatus-discrete
    vaultwarden_cli.Request.Types.OptionTime-discrete vaultwarden_cli.Base.Text-discrete
    Authority.admit_or_locked Transition.advance Defs.agent_current Image.approved_of
    Provisioning.bare_state Storage.canonical_path Draft.canonicalize_draft Validate.catalogue_valid
    Authority.clean_up Authority.cleaned History.consistent_outcome Requests.create_owned
    Checks.create_valid Record.digest Review.direct_review Draft.draft_of History.event_valid
    Status.exit_in_range History.expected_event Expiry.expire_plan Defs.find_direct
    Defs.find_operation Draft.from_draft Checks.has_duplicates Ident.hex_sha256 Record.human_visible
    History.identity_valid Image.image_valid Storage.item_name History.matches_record
    Arguments.normalize_args Authority.open_session Status.outcome Image.policy_image_matches
    Draft.policy_valid Provisioning.provisioned_state History.receipt_follows Agents.registry_valid
    Image.resolve_image Draft.revision_for Record.seal Submission.set_deadline Record.shape_valid
    Validate.state_valid Requests.submitted Transition.transition Checks.valid_display_text
    Storage.valid_id Ssh.valid_image_path Ident.valid_operation_id Ident.valid_request_id
    Ident.valid_sha256 Record.validate Draft.validate_draft Record.validate_history
    Arguments.validates_args Defs.visible Authority.withdraw_authority Store.write_state_guarded
    Catalogue.provision_plan mathlib.Core.Bool.decide vaultwarden_cli.Base.ℕ_discrete
computes = (refl, refl, refl, refl, refl, refl, refl)

opens : authenticate world locked_session ≡ (ok tt, opened_session)
unfolding opened_session
opens = done (authenticate world locked_session) computes.0

same_generation :
    (perform_all settings submission world opened_session).generation ≡ opened_session.generation
unfolding later_session
same_generation = computes.2 ∙ sym computes.1

admits :
    admit world (perform_all settings submission world opened_session) ≡ (ok tt, admitted_session)
unfolding later_session admitted_session
admits = done (admit world later_session) computes.3

prepares :
    prepare_approval settings 500 request_id world later_session ≡ (ok (answer_of asked.0), asked.1)
unfolding asked
prepares = answered_as asked computes.4

locks : lock world (perform_all settings [] world asked.1) ≡ (ok tt, closed.1)
unfolding closed perform_all
locks = done closed computes.5

session-lease_example :
    (world.probe_compatibility (probe_answered locked_session) ≡ none)
    × (lifetime : ℕ) × (world.unlock (unlock_answered locked_session) ≡ ok lifetime)
    × (admitted_session.tick * 1000000000 < 4 * 1000000000 + max_session)
    × (admitted_session.tick * 1000000000 < 4 * 1000000000 + lifetime)
session-lease_example =
    session-lease settings world locked_session opened_session admitted_session submission opens
      same_generation admits

approval-stale_example :
    is_ok (commit_decision settings (answer_of asked.0) true none world closed.1).0 ≡ false
unfolding perform_all
approval-stale_example =
    approval-stale settings world 500 request_id (answer_of asked.0) later_session asked.1 closed.1
      [] [] true none prepares locks

lock-Withdrawn_example : Withdrawn asked.1 closed.1
unfolding perform_all
lock-Withdrawn_example = lock-Withdrawn world asked.1 closed.1 locks

closed-refuses_example :
    let t = perform_all settings submission world (record locked_session { closing = true }) in
    (is_ok (admit world t).0 ≡ false)
    × (is_ok (authenticate world t).0 ≡ false)
    × ((owner : ℕ) (i : DirectSubmission)
        → is_ok (submit_direct settings owner i world t).0 ≡ false)
    × ((owner : ℕ) (id : Text) → is_ok (prepare_approval settings owner id world t).0 ≡ false)
    × ((p : PreparedApproval) (approve : Bool) (m : Option ApprovalMethod)
        → is_ok (commit_decision settings p approve m world t).0 ≡ false)
closed-refuses_example =
    closed-refuses settings world (record locked_session { closing = true }) submission refl

abbrev afterwards : List Method
afterwards = Method.submitting 500 input ∷ Method.asking_status ∷ Method.locking ∷ []

locked-refuses_example :
    let t = perform_all settings afterwards world closed.1 in
    (t.deadline ≡ none)
    × (is_ok (admit world t).0 ≡ false)
    × ((owner : ℕ) (i : DirectSubmission)
        → is_ok (submit_direct settings owner i world t).0 ≡ false)
    × ((owner : ℕ) (id : Text) → is_ok (prepare_approval settings owner id world t).0 ≡ false)
    × ((p : PreparedApproval) (approve : Bool) (m : Option ApprovalMethod)
        → is_ok (commit_decision settings p approve m world t).0 ≡ false)
    × ((owner : ℕ) (id : Text) → is_ok (deny_direct settings owner id world t).0 ≡ false)
    × ((owner : ℕ) (id : Text) (b : Option ApprovalBinding) (claimed : Bool)
        → is_ok (execution_authority owner id b claimed world t).0 ≡ false)
    × ((owner : ℕ) (id item : Text)
        → is_ok (reconcile_write settings owner id item world t).0 ≡ false)
unfolding perform_all
locked-refuses_example =
    locked-refuses settings world closed.1 afterwards
      (lock-Withdrawn world asked.1 closed.1 locks).shut refl

authenticate-opens_example :
    (authenticate world locked_session ≡ (ok tt, (authenticate world locked_session).1))
    × Opened world locked_session (authenticate world locked_session).1
authenticate-opens_example =
    authenticate-opens world locked_session 60000000000 refl refl (ltb→lt 2 (2 ^ 64) refl)
      (λ n. refl) (λ n. refl) (λ n. computes.6) (λ n. refl) (λ n. refl) (ltb→lt 0 60000000000 refl)
      (λ m n a b c. (in_range m n b c, within m n a b c))
  where
    in_range : (m n : ℕ) → m ≤ n → n ≤ 9 → m * 1000000000 + max_session < 2 ^ 64 * 1000000000
    in_range m n b c = omega arith

    within : (m n : ℕ) → 0 ≤ m → m ≤ n → n ≤ 9 → n * 1000000000 < m * 1000000000 + 60000000000
    within m n a b c = omega arith
