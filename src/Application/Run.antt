-- ===== src/Application/Run.antt =====
-- Any sequence of the methods of `ProviderApplication`, one after the other behind the gate.
use vaultwarden_cli.Base.{
  ℕ, Bool, true, false, ◌||◌, ◌≡◌, refl, none, any, if◌then◌else◌, Option, List, [], ◌∷◌, Text,
}
use vaultwarden_cli.Host.{Host}
use vaultwarden_cli.Request.Types.{ApprovalBinding, ApprovalMethod}
use vaultwarden_cli.Provider.Requests.{DirectSubmission}
use vaultwarden_cli.Application.Types.{Session, Outside, Settings}
use vaultwarden_cli.Application.Authority.{authenticate, lock, shutdown, close_admission, status}
use vaultwarden_cli.Application.Decision.{
  PreparedApproval, prepare_approval, commit_decision, deny_direct,
}
use vaultwarden_cli.Application.Submission.{
  submit_direct, review_direct, history_current, management_authority,
}
use vaultwarden_cli.Application.Execution.{
  ExecutionHold, cancel_execution, execution_authority, cleared, started,
}
use vaultwarden_cli.Protocol.{SignedStatusQuery}
use vaultwarden_cli.Application.Queries.{signed_agent_status}
use vaultwarden_cli.Application.Queried.{signed_agent_status-Keeps}
use vaultwarden_cli.Application.Reconcile.{reconcile_write, reconcile_write-Keeps}
use vaultwarden_cli.Application.Follows.{Hold, Follows, Follows-refl, Follows-trans, Follows-leased}
use vaultwarden_cli.Application.Kept.{
  lock-Keeps, shutdown-Keeps, close_admission-Keeps, status-Keeps,
}
use vaultwarden_cli.Application.Opening.{authenticate-Keeps}
use vaultwarden_cli.Application.Methods.{
  prepare_approval-Keeps, commit_decision-Keeps, deny_direct-Keeps,
}
use vaultwarden_cli.Application.Requests.{
  submit_direct-Keeps, review_direct-Keeps, history_current-Keeps, management_authority-Keeps,
  cancel_execution-Keeps, execution_authority-Keeps, cleared-Keeps, started-Keeps,
}

-- A call of a method. Anyone may make it, with any arguments.
pub data Method : Type 0 where
  authenticating locking shutting_down closing_admission asking_status : Method
  preparing denying reviewing : ℕ → Text → Method
  committing : PreparedApproval → Bool → Option ApprovalMethod → Method
  submitting : ℕ → DirectSubmission → Method
  listing : Option ℕ → Option ℕ → Method
  managing : Method
  cancelling : ℕ → Text → Method
  delivering : ℕ → Text → Option ApprovalBinding → Bool → Method
  releasing starting : ExecutionHold → Method
  querying : ℕ → List ℕ → SignedStatusQuery → Method
  reconciling : ℕ → Text → Text → Method

-- Only an authentication opens a session.
abbrev pub opens : Method → Bool
opens Method.authenticating = true
opens _ = false

abbrev hold_of : Method → Hold
hold_of m = if opens m then Hold.leased else Hold.kept

module _ ⦃h : Host⦄ (c : Settings) where
  -- The session that a method leaves, whatever it answers.
  unfoldable pub perform : Method → Outside → Session → Session
  perform Method.authenticating o s = (authenticate o s).1
  perform Method.locking o s = (lock o s).1
  perform Method.shutting_down o s = (shutdown o s).1
  perform Method.closing_admission o s = (close_admission {E = Unit {0}} o s).1
  perform Method.asking_status o s = (status o s).1
  perform (Method.preparing owner id) o s = (prepare_approval c owner id o s).1
  perform (Method.denying owner id) o s = (deny_direct c owner id o s).1
  perform (Method.reviewing owner id) o s = (review_direct c owner id o s).1
  perform (Method.committing p approve m) o s = (commit_decision c p approve m o s).1
  perform (Method.submitting owner input) o s = (submit_direct c owner input o s).1
  perform (Method.listing g count) o s = (history_current c g count o s).1
  perform Method.managing o s = (management_authority o s).1
  perform (Method.cancelling owner id) o s = (cancel_execution c owner id o s).1
  perform (Method.delivering owner id b claimed) o s =
      (execution_authority owner id b claimed o s).1
  perform (Method.releasing e) o s = (cleared e o s).1
  perform (Method.starting e) o s = (started e o s).1
  perform (Method.querying uid groups q) o s = (signed_agent_status uid groups q o s).1
  perform (Method.reconciling owner id item) o s = (reconcile_write c owner id item o s).1

  unfoldable pub perform_all : List Method → Outside → Session → Session
  perform_all [] o s = s
  perform_all (m ∷ ms) o s = perform_all ms o (perform m o s)

  perform-Follows : (m : Method) (o : Outside) (s : Session) → Follows (hold_of m) s (perform m o s)
  unfolding perform
  perform-Follows Method.authenticating = authenticate-Keeps.follows
  perform-Follows Method.locking = lock-Keeps.follows
  perform-Follows Method.shutting_down = shutdown-Keeps.follows
  perform-Follows Method.closing_admission = (close_admission-Keeps Hold.kept).follows
  perform-Follows Method.asking_status = status-Keeps.follows
  perform-Follows (Method.preparing owner id) = (prepare_approval-Keeps c owner id).follows
  perform-Follows (Method.denying owner id) = (deny_direct-Keeps c owner id).follows
  perform-Follows (Method.reviewing owner id) = (review_direct-Keeps c owner id).follows
  perform-Follows (Method.committing p a m) = (commit_decision-Keeps c p a m).follows
  perform-Follows (Method.submitting owner input) = (submit_direct-Keeps c owner input).follows
  perform-Follows (Method.listing g count) = (history_current-Keeps c g count).follows
  perform-Follows Method.managing = management_authority-Keeps.follows
  perform-Follows (Method.cancelling owner id) = (cancel_execution-Keeps c owner id).follows
  perform-Follows (Method.delivering owner id b k) =
      (execution_authority-Keeps owner id b k).follows
  perform-Follows (Method.releasing e) = (cleared-Keeps e).follows
  perform-Follows (Method.starting e) = (started-Keeps e).follows
  perform-Follows (Method.querying uid groups q) = (signed_agent_status-Keeps uid groups q).follows
  perform-Follows (Method.reconciling owner id item) =
      (reconcile_write-Keeps c owner id item).follows

  -- Whatever is called, the session keeps its lease,
  pub perform_all-Follows :
      (ms : List Method) (o : Outside) (s : Session) → Follows Hold.leased s (perform_all ms o s)
  unfolding perform_all
  perform_all-Follows [] o s = Follows-refl Hold.leased s
  perform_all-Follows (m ∷ ms) o s =
      Follows-trans Hold.leased s (perform m o s) _
        (leases (opens m) s (perform m o s) (perform-Follows m o s))
        (perform_all-Follows ms o (perform m o s))
    where
      leases :
          (b : Bool) (s t : Session)
          → Follows (if b then Hold.leased else Hold.kept) s t
          → Follows Hold.leased s t
      leases true s t f = f
      leases false s t f = Follows-leased s t f

  -- and without an authentication it does not open.
  pub perform_all-closes :
      (ms : List Method) (o : Outside) (s : Session)
      → any opens ms ≡ false
      → s.deadline ≡ none
      → (perform_all ms o s).deadline ≡ none
  unfolding perform_all
  perform_all-closes [] o s a e = e
  perform_all-closes (m ∷ ms) o s a e =
      let (first, rest) = neither (opens m) (any opens ms) a in
      perform_all-closes ms o (perform m o s) rest
        (closed_by (opens m) s (perform m o s) first (perform-Follows m o s) e)
    where
      neither : (a b : Bool) → (a || b) ≡ false → (a ≡ false) × (b ≡ false)
      neither false b e = (refl, e)
      neither true b e = cc

      closed_by :
          (b : Bool) (s t : Session)
          → b ≡ false
          → Follows (if b then Hold.leased else Hold.kept) s t
          → s.deadline ≡ none
          → t.deadline ≡ none
      closed_by true s t a f = cc
      closed_by false s t a f = f.closes refl
