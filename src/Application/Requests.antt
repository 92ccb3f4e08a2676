-- ===== src/Application/Requests.antt =====
-- The methods for requesters and executions keep the session within its lease.
use vaultwarden_cli.Base.{ℕ, refl, Bool, Option, none, some, Text, Result, ok, err, arith}
use vaultwarden_cli.Host.{Host}
use vaultwarden_cli.Request.Types.{RequestError, DirectReview, ApprovalBinding}
use vaultwarden_cli.Provider.Moves.{Moves-refl}
use vaultwarden_cli.Provider.Requests.{DirectSubmission}
use vaultwarden_cli.Provider.Calls.{
  create_direct-Moves, fail_direct_launch-Moves, cancel_unclaimed_execution-Moves,
  execution_started-Moves,
}
use vaultwarden_cli.Application.Types.{SessionError, Settings}
use vaultwarden_cli.Application.Submission.{
  set_deadline, submission_live, create, close_on, refused_creation, launch_answered, launched,
  submitted_review, created, submit_direct, review_direct, history_current, management_authority,
}
use vaultwarden_cli.Application.Execution.{
  ExecutionHold, lapsed, execution_live, execution_live_current, execution_authority, live_fast,
  releasable, cleared, started_or_closed, started, cancel_queued, closed_on, cancel_execution,
}
use vaultwarden_cli.Application.Follows.{Hold, Keeps, keeping, call-Keeps}
use vaultwarden_cli.Application.Kept.{
  close_admission-Keeps, admit-Keeps, admit_or_locked-Keeps, await_cleanup-Keeps,
  expire_requests-Keeps, token_live-Keeps, request_agent_live-Keeps,
}

module _ ⦃h : Host⦄ where
  pub close_on-Keeps : (e : RequestError) → Keeps Hold.kept (close_on e)
  unfolding close_on
  close_on-Keeps RequestError.unavailable = close_admission-Keeps Hold.kept
  close_on-Keeps RequestError.unauthorized = search keeping
  close_on-Keeps RequestError.locked = search keeping
  close_on-Keeps RequestError.invalid_request = search keeping
  close_on-Keeps RequestError.stale_revision = search keeping
  close_on-Keeps RequestError.not_found = search keeping
  close_on-Keeps RequestError.review_unavailable = search keeping
  close_on-Keeps RequestError.already_decided = search keeping
  close_on-Keeps RequestError.authentication_failed = search keeping

  pub set_deadline-Keeps :
      {E : Type 0} (id : Text) (d : ℕ) → Keeps {E = E} Hold.kept (set_deadline id d)
  unfolding set_deadline
  set_deadline-Keeps id d = record {
    follows = λ o s. record {
      later = omega arith;
      ticks = omega arith;
      closed = λ e. e;
      moves = Moves-refl s.provider;
      lease = λ _ _. (refl, refl);
      closes = λ _ e. e;
    };
  }

  pub create-Keeps :
      (owner : ℕ) (input : DirectSubmission) (a b c d : ℕ)
      → Keeps Hold.kept (create owner input a b c d)
  unfolding create submission_live
  create-Keeps owner input a b c d = search (keeping, call-Keeps, create_direct-Moves) depth 14

  pub launch_answered-Keeps :
      (id : Text) (e : Option RequestError) → Keeps Hold.kept (launch_answered id e)
  unfolding launch_answered
  launch_answered-Keeps id none = search keeping
  launch_answered-Keeps id (some e) = search (keeping, call-Keeps, fail_direct_launch-Moves) depth 8

  pub launched-Keeps : (id : Text) → Keeps Hold.kept (launched id)
  unfolding launched
  launched-Keeps id =
      search (keeping, launch_answered-Keeps, admit_or_locked-Keeps, expire_requests-Keeps) depth 12

  pub submitted_review-Keeps :
      (id : Text) (d : ℕ) (x : Bool) (a : Result SessionError (Unit {0}))
      → Keeps Hold.kept (submitted_review id d x a)
  unfolding submitted_review
  submitted_review-Keeps id d x (ok u) =
      search (keeping, set_deadline-Keeps, expire_requests-Keeps, launched-Keeps) depth 8
  submitted_review-Keeps id d x (err SessionError.locked) =
      search (keeping, expire_requests-Keeps) depth 4
  submitted_review-Keeps id d x (err SessionError.incompatible) = search keeping
  submitted_review-Keeps id d x (err SessionError.authentication_failed) = search keeping
  submitted_review-Keeps id d x (err SessionError.backend_unavailable) = search keeping
  submitted_review-Keeps id d x (err SessionError.cleanup_failed) = search keeping
  submitted_review-Keeps id d x (err SessionError.invalid_request) = search keeping

  pub created-Keeps :
      (owner d : ℕ) (x : Bool) (a : Result SessionError (Unit {0}))
      (r : Result RequestError DirectReview)
      → Keeps Hold.kept (created owner d x a r)
  unfolding created refused_creation
  created-Keeps owner d x a (ok v) = search (keeping, submitted_review-Keeps) depth 8
  created-Keeps owner d x a (err e) = search (keeping, close_on-Keeps) depth 8

  pub submit_direct-Keeps :
      (c : Settings) (owner : ℕ) (input : DirectSubmission)
      → Keeps Hold.kept (submit_direct c owner input)
  unfolding submit_direct
  submit_direct-Keeps c owner input =
      search (keeping, admit-Keeps, expire_requests-Keeps, create-Keeps, created-Keeps) depth 24
        fits 20000

  pub review_direct-Keeps :
      (c : Settings) (owner : ℕ) (id : Text) → Keeps Hold.kept (review_direct c owner id)
  unfolding review_direct
  review_direct-Keeps c owner id =
      search (keeping, admit_or_locked-Keeps, expire_requests-Keeps) depth 10

  pub history_current-Keeps :
      (c : Settings) (g count : Option ℕ) → Keeps Hold.kept (history_current c g count)
  unfolding history_current
  history_current-Keeps c g count =
      search (keeping, admit_or_locked-Keeps, expire_requests-Keeps) depth 14

  pub management_authority-Keeps : Keeps Hold.kept management_authority
  unfolding management_authority
  management_authority-Keeps = search (keeping, admit_or_locked-Keeps) depth 10

  pub lapsed-Keeps : Keeps Hold.kept lapsed
  unfolding lapsed
  lapsed-Keeps = search (keeping, admit-Keeps, expire_requests-Keeps) depth 12

  pub execution_live-Keeps : (id : Text) → Keeps Hold.kept (execution_live id)
  unfolding execution_live
  execution_live-Keeps id =
      search (keeping, admit-Keeps, request_agent_live-Keeps, lapsed-Keeps) depth 14

  pub execution_live_current-Keeps :
      (id : Text) (n : ℕ) → Keeps Hold.kept (execution_live_current id n)
  unfolding execution_live_current
  execution_live_current-Keeps id n = search (keeping, execution_live-Keeps) depth 10

  pub execution_authority-Keeps :
      (owner : ℕ) (id : Text) (e : Option ApprovalBinding) (claimed : Bool)
      → Keeps Hold.kept (execution_authority owner id e claimed)
  unfolding execution_authority
  execution_authority-Keeps owner id e claimed = search (keeping, execution_live-Keeps) depth 14

  pub live_fast-Keeps : (e : ExecutionHold) → Keeps Hold.kept (live_fast e)
  unfolding live_fast
  live_fast-Keeps e = search (keeping, token_live-Keeps) depth 14

  pub cleared-Keeps : (e : ExecutionHold) → Keeps Hold.kept (cleared e)
  unfolding cleared releasable
  cleared-Keeps e =
      search (keeping, execution_authority-Keeps, execution_live_current-Keeps, live_fast-Keeps)
        depth 14

  pub started_or_closed-Keeps :
      (e : ExecutionHold) (r : Result RequestError (Unit {0}))
      → Keeps Hold.kept (started_or_closed e r)
  unfolding started_or_closed
  started_or_closed-Keeps e (ok u) = search keeping
  started_or_closed-Keeps e (err x) = search (keeping, close_admission-Keeps) depth 6

  pub started-Keeps : (e : ExecutionHold) → Keeps Hold.kept (started e)
  unfolding started
  started-Keeps e =
      search (keeping, call-Keeps, execution_started-Moves, started_or_closed-Keeps) depth 8

  pub closed_on-Keeps : (r : Result RequestError (Unit {0})) → Keeps Hold.kept (closed_on r)
  unfolding closed_on
  closed_on-Keeps (ok u) = search keeping
  closed_on-Keeps (err e) = close_on-Keeps e

  pub cancel_execution-Keeps :
      (c : Settings) (owner : ℕ) (id : Text) → Keeps Hold.kept (cancel_execution c owner id)
  unfolding cancel_execution cancel_queued
  cancel_execution-Keeps c owner id =
      search
        (
          keeping, call-Keeps, cancel_unclaimed_execution-Moves, closed_on-Keeps,
          await_cleanup-Keeps,
        )
        depth 14
