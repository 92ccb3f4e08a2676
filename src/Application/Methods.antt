-- ===== src/Application/Methods.antt =====
-- The methods for requesters and reviewers keep the session within its lease.
use vaultwarden_cli.Base.{ℕ, Bool, Option, none, some, Text, List, [], ◌∷◌, Result, ok, err}
use vaultwarden_cli.Host.{Host}
use vaultwarden_cli.Policy.Types.{OperationPolicy, LoginCredentialDraft, CreateEffect, SshOperation}
use vaultwarden_cli.Request.Types.{RequestError, ApprovalBinding, ApprovalMethod}
use vaultwarden_cli.Provider.Calls.{decide_direct-Moves}
use vaultwarden_cli.Application.Types.{Settings}
use vaultwarden_cli.Application.Action.{Action, ask, check, ◌>>◌}
use vaultwarden_cli.Application.Decision.{
  PreparedApproval, refreshed, policy_of, prepare_approval, still_admitted, create_checked,
  ssh_checked, logins_checked, eligibility_checked, decision_live, decide, closed_if_unavailable,
  withdrawn_on, decided, check_current, commit_current, commit_decision, deny_direct,
}
use vaultwarden_cli.Application.Follows.{Hold, Keeps, Keeps-bind, ask-Keeps, keeping, call-Keeps}
use vaultwarden_cli.Application.Kept.{
  close_admission-Keeps, revoke-Keeps, admit-Keeps, expire_requests-Keeps, agent_token-Keeps,
  token_live-Keeps, request_agent_live-Keeps,
}

module _ ⦃h : Host⦄ where
  pub refreshed-Keeps : Keeps Hold.kept refreshed
  unfolding refreshed
  refreshed-Keeps = search (keeping, admit-Keeps, expire_requests-Keeps) depth 8

  policy_of-Keeps : (b : ApprovalBinding) → Keeps Hold.kept (policy_of b)
  unfolding policy_of
  policy_of-Keeps b = search keeping depth 8

  pub prepare_approval-Keeps :
      (c : Settings) (owner : ℕ) (id : Text) → Keeps Hold.kept (prepare_approval c owner id)
  unfolding prepare_approval
  prepare_approval-Keeps c owner id =
      search (keeping, refreshed-Keeps, request_agent_live-Keeps, policy_of-Keeps) depth 14

  still_admitted-Keeps : (t : Option Text) → Keeps Hold.kept (still_admitted t)
  unfolding still_admitted
  still_admitted-Keeps t = search (keeping, refreshed-Keeps, token_live-Keeps) depth 8

  create_checked-Keeps :
      (t : Option Text) (e : Option CreateEffect) → Keeps Hold.kept (create_checked t e)
  unfolding create_checked
  create_checked-Keeps t none = search keeping
  create_checked-Keeps t (some e) = search (keeping, still_admitted-Keeps) depth 8

  ssh_checked-Keeps :
      (t : Option Text) (e : Option SshOperation) → Keeps Hold.kept (ssh_checked t e)
  unfolding ssh_checked
  ssh_checked-Keeps t none = search keeping
  ssh_checked-Keeps t (some e) = search (keeping, still_admitted-Keeps) depth 8

  login_checked :
      (t : Option Text) (eligible : Bool) (rest : Action RequestError (Unit {0}))
      → Keeps Hold.kept rest
      → Keeps Hold.kept (still_admitted t >> (check eligible RequestError.unavailable >> rest))
  login_checked t eligible rest k = search (keeping, still_admitted-Keeps) depth 8

  logins_checked-Keeps :
      (t : Option Text) (policy : Text) (ls : List LoginCredentialDraft)
      → Keeps Hold.kept (logins_checked t policy ls)
  unfolding logins_checked
  logins_checked-Keeps t policy [] = search keeping
  logins_checked-Keeps t policy (l ∷ ls) =
      let rest = logins_checked-Keeps t policy ls in
      Keeps-bind Hold.kept (ask (λ o n. o.login_eligible n policy l)) _ (ask-Keeps Hold.kept _)
        λ eligible. login_checked t eligible _ rest

  eligibility_checked-Keeps :
      (t : Option Text) (p : OperationPolicy) → Keeps Hold.kept (eligibility_checked t p)
  unfolding eligibility_checked
  eligibility_checked-Keeps t p =
      search
        (
          keeping, still_admitted-Keeps, create_checked-Keeps, ssh_checked-Keeps,
          logins_checked-Keeps,
        )
        depth 12

  decision_live-Keeps :
      (p : PreparedApproval) (t : Option Text) (a b : ℕ) → Keeps Hold.kept (decision_live p t a b)
  unfolding decision_live
  decision_live-Keeps p t a b = search (keeping, token_live-Keeps) depth 14

  decide-Keeps :
      (p : PreparedApproval) (approve : Bool) (m : Option ApprovalMethod) (t : Option Text)
      (a b at : ℕ)
      → Keeps Hold.kept (decide p approve m t a b at)
  unfolding decide
  decide-Keeps p approve m t a b at =
      search (keeping, decision_live-Keeps, call-Keeps, decide_direct-Moves) depth 10

  withdrawn_on-Keeps : (e : RequestError) → Keeps Hold.kept (withdrawn_on e)
  unfolding withdrawn_on
  withdrawn_on-Keeps RequestError.unavailable =
      search (keeping, close_admission-Keeps, revoke-Keeps) depth 8
  withdrawn_on-Keeps RequestError.unauthorized = search keeping
  withdrawn_on-Keeps RequestError.locked = search keeping
  withdrawn_on-Keeps RequestError.invalid_request = search keeping
  withdrawn_on-Keeps RequestError.stale_revision = search keeping
  withdrawn_on-Keeps RequestError.not_found = search keeping
  withdrawn_on-Keeps RequestError.review_unavailable = search keeping
  withdrawn_on-Keeps RequestError.already_decided = search keeping
  withdrawn_on-Keeps RequestError.authentication_failed = search keeping

  closed_if_unavailable-Keeps :
      {A : Type 0} (r : Result RequestError A) → Keeps Hold.kept (closed_if_unavailable r)
  unfolding closed_if_unavailable
  closed_if_unavailable-Keeps (ok a) = search keeping
  closed_if_unavailable-Keeps (err e) = withdrawn_on-Keeps e

  decided-Keeps :
      (p : PreparedApproval) (approve : Bool) (m : Option ApprovalMethod) (t : Option Text)
      (a b : ℕ)
      → Keeps Hold.kept (decided p approve m t a b)
  unfolding decided
  decided-Keeps p approve m t a b =
      search (keeping, token_live-Keeps, decide-Keeps, closed_if_unavailable-Keeps, refreshed-Keeps)
        depth 14

  commit_current-Keeps :
      (c : Settings) (p : PreparedApproval) (approve : Bool) (m : Option ApprovalMethod)
      → Keeps Hold.kept (commit_current c p approve m)
  unfolding commit_current
  commit_current-Keeps c p approve m =
      search
        (
          keeping, agent_token-Keeps, token_live-Keeps, policy_of-Keeps, eligibility_checked-Keeps,
          decided-Keeps,
        )
        depth 20 fits 20000

  check_current-Keeps : (p : PreparedApproval) → Keeps Hold.kept (check_current p)
  unfolding check_current
  check_current-Keeps p = search keeping depth 8

  pub commit_decision-Keeps :
      (c : Settings) (p : PreparedApproval) (approve : Bool) (m : Option ApprovalMethod)
      → Keeps Hold.kept (commit_decision c p approve m)
  unfolding commit_decision
  commit_decision-Keeps c p approve m =
      search (keeping, refreshed-Keeps, check_current-Keeps, commit_current-Keeps) depth 8

  pub deny_direct-Keeps :
      (c : Settings) (owner : ℕ) (id : Text) → Keeps Hold.kept (deny_direct c owner id)
  unfolding deny_direct
  deny_direct-Keeps c owner id =
      search (keeping, prepare_approval-Keeps, commit_decision-Keeps) depth 6
