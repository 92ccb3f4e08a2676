-- ===== src/Application/Submission.antt =====
-- `submit_direct` and the readings of src/access/application.rs.
use vaultwarden_cli.Base.{
  ℕ, ◌+◌, ◌*◌, ◌^◌, Bool, not, ◌&&◌, Option, none, some, List, ltb, leb, ◌==◌, nat_eq, text_eq,
  Text, Result, ok, err, is_some_and, if◌then◌else◌, ok_or,
}
use vaultwarden_cli.Host.{Host}
use vaultwarden_cli.Request.Types.{RequestError, DirectStatus, DirectReview, HistoryEvent}
use vaultwarden_cli.Request.History.{limit}
use vaultwarden_cli.Provider.Requests.{DirectSubmission, create_direct, show_review}
use vaultwarden_cli.Provider.Expiry.{fail_direct_launch}
use vaultwarden_cli.Provider.Listing.{history}
use vaultwarden_cli.Application.Types.{Settings, SessionError}
use vaultwarden_cli.Application.Action.{
  Action, pure, fail, lift, ◌>>=◌, ◌>>◌, attempt, map_error, check, gets, ask, now, is_closing,
  revocations, call, read,
}
use vaultwarden_cli.Application.Authority.{
  admit, admit_or_locked, expire_requests, check_owner, close_admission, add_duration,
}
use vaultwarden_cli.Application.Decision.{session}

pub record SubmissionReceipt : Type 0 where
  pub id : Text
  pub revision : Text
  pub arguments_digest : Text
  pub expires_at_unix_seconds : ℕ
  pub status : DirectStatus

abbrev receipt_of : DirectReview → SubmissionReceipt
receipt_of r = record {
  id = r.id;
  revision = r.policy_digest;
  arguments_digest = r.arguments_digest;
  expires_at_unix_seconds = r.expires_at_unix_seconds;
  status = r.status;
}

abbrev nanoseconds : ℕ → ℕ
nanoseconds seconds = seconds * 1000000000

unfoldable pub set_deadline : {E : Type 0} → Text → ℕ → Action E (Unit {0})
set_deadline id deadline o s = (
  ok tt,
  record s { request_deadlines = λ x. if id == x then some deadline else s.request_deadlines x },
)

module _ ⦃h : Host⦄ where
  -- The closure that `create_direct` asks.
  unfoldable pub submission_live : ℕ → ℕ → Action RequestError Bool
  submission_live session_deadline deadline = do
    closing ← is_closing
    first ← now
    second ← now
    pure (not closing && ltb first session_deadline && ltb second deadline)

  unfoldable pub create : ℕ → DirectSubmission → ℕ → ℕ → ℕ → ℕ → Action RequestError DirectReview
  unfolding submission_live
  create owner input at expires session_deadline deadline = do
    allowed ← submission_live session_deadline deadline
    call (λ p io. create_direct p owner input at expires allowed io)

  -- A failure to write closes admission.
  unfoldable pub close_on : RequestError → Action RequestError (Unit {0})
  close_on RequestError.unavailable = close_admission
  close_on e = pure tt

  -- A creation that failed.
  unfoldable pub refused_creation :
      {A : Type 0} → RequestError → Result SessionError (Unit {0}) → Action RequestError A
  refused_creation e admission = do close_on e; session (lift admission); fail e

  unfoldable pub launch_answered : Text → Option RequestError → Action RequestError (Unit {0})
  launch_answered id none = pure tt
  launch_answered id (some e) =
      map_error (λ _. RequestError.unavailable) (call (λ p io. fail_direct_launch p id io))

  -- The review is handed to the desktop; the request expires if that fails.
  unfoldable pub launched : Text → Action RequestError (Unit {0})
  unfolding launch_answered
  launched id = do
    answer ← ask (λ o n. o.launch n id)
    launch_answered id answer
    session admit_or_locked
    session expire_requests

  -- A creation that was written, admitted or not afterwards.
  unfoldable pub submitted_review :
      Text → ℕ → Bool → Result SessionError (Unit {0}) → Action RequestError (Unit {0})
  unfolding launched
  submitted_review id deadline expired (ok u) = do
    set_deadline id deadline
    if expired then session expire_requests else launched id
  submitted_review id deadline expired (err SessionError.locked) = session expire_requests
  submitted_review id deadline expired (err e) = session (fail e)

  unfoldable pub created :
      ℕ
      → ℕ
      → Bool
      → Result SessionError (Unit {0})
      → Result RequestError DirectReview
      → Action RequestError SubmissionReceipt
  unfolding refused_creation submitted_review
  created owner deadline expired admission (err e) = refused_creation e admission
  created owner deadline expired admission (ok review) = do
    submitted_review review.id deadline expired admission
    final ← read (λ p io. show_review p owner review.id io)
    pure (receipt_of final)

  -- `submit_direct`: `submit_owned` for a human. The gate is tried and not waited for.
  unfoldable pub submit_direct :
      Settings → ℕ → DirectSubmission → Action RequestError SubmissionReceipt
  unfolding created
  submit_direct c owner input = do
    check_owner c owner
    contended ← ask (λ o n. o.contended n)
    check (not contended) RequestError.unavailable
    session admit
    session expire_requests
    started ← now
    deadline ← lift (
        ok_or (add_duration started (nanoseconds c.request_lifetime_seconds))
          RequestError.unavailable)
    wall ← ask (λ o n. o.unix_seconds n)
    at ← session (lift wall)
    check (ltb (at + c.request_lifetime_seconds) (2 ^ 64)) RequestError.unavailable
    ends ← gets (λ s. s.deadline)
    session_deadline ← lift (ok_or ends RequestError.locked)
    result ←
        attempt (create owner input at (at + c.request_lifetime_seconds) session_deadline deadline)
    later ← now
    admission ← attempt admit
    created owner deadline (leb deadline later) admission result

  -- The readings: they refresh the session, and a locked one may still be read.
  unfoldable pub review_direct : Settings → ℕ → Text → Action RequestError DirectReview
  review_direct c owner id = do
    check_owner c owner
    session admit_or_locked
    session expire_requests
    read (λ p io. show_review p owner id io)

  unfoldable pub direct_status : Settings → ℕ → Text → Action RequestError DirectStatus
  direct_status c owner id = review_direct c owner id >>= λ r. pure r.status

  unfoldable pub history_current :
      Settings → Option ℕ → Option ℕ → Action RequestError (List HistoryEvent)
  history_current c generation count = do
    session admit_or_locked
    current ← gets (λ s. s.generation)
    check (not (is_some_and (λ g. not (g == current)) generation)) RequestError.unauthorized
    lift (limit count)
    session expire_requests
    read (λ p io. history p c.owner count io)

  unfoldable pub decision_generation : Action RequestError ℕ
  decision_generation = session admit_or_locked >> gets (λ s. s.generation)

  unfoldable pub management_authority : Action RequestError (ℕ × ℕ)
  management_authority = do
    session admit_or_locked
    published ← revocations
    generation ← gets (λ s. s.generation)
    pure (generation, published)
