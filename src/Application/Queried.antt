-- ===== src/Application/Queried.antt =====
-- A status query keeps the session within its lease.
use vaultwarden_cli.Base.{
  ℕ, zero, suc, Option, none, some, Text, List, Result, ok, err, if◌then◌else◌,
}
use vaultwarden_cli.Host.{Host}
use vaultwarden_cli.Request.Types.{AgentOwner, DirectStatus}
use vaultwarden_cli.Protocol.{AgentRejection, SignedStatusQuery}
use vaultwarden_cli.Provider.Signed.{agent_status}
use vaultwarden_cli.Provider.Calls.{consume_status_query-Moves}
use vaultwarden_cli.Application.Action.{Action, pure, ◌>>=◌, ◌>>◌, map_error, read}
use vaultwarden_cli.Application.Queries.{
  reading_error, refresh, refresh_session, is_settled_for, status_loop, max_rounds, answer_query,
  signed_query, close_unavailable, signed_agent_status,
}
use vaultwarden_cli.Application.Follows.{
  Hold, Keeps, keeping, call-Keeps, Keeps-bind, Keeps-if, Keeps-pure,
}
use vaultwarden_cli.Application.Kept.{
  revoke-Keeps, admit_or_locked-Keeps, expire_requests-Keeps, close_admission-Keeps,
  agent_token-Keeps, token_live-Keeps,
}

module _ ⦃h : Host⦄ where
  refresh-Keeps : Keeps Hold.kept refresh
  unfolding refresh refresh_session
  refresh-Keeps =
      search (keeping, revoke-Keeps, admit_or_locked-Keeps, expire_requests-Keeps) depth 14

  is_settled_for-Keeps : (id : Text) (d : DirectStatus) → Keeps Hold.kept (is_settled_for id d)
  unfolding is_settled_for
  is_settled_for-Keeps id d = search keeping depth 14

  round-Keeps :
      (id : Text) (status : DirectStatus) (k : Action AgentRejection (Option DirectStatus))
      → Keeps Hold.kept k
      → Keeps Hold.kept (
          is_settled_for id status >>= λ settled.
          if settled then pure (some status) else refresh >> k)
  round-Keeps id status k rest =
      Keeps-bind Hold.kept (is_settled_for id status)
        (λ settled. if settled then pure (some status) else refresh >> k)
        (is_settled_for-Keeps id status)
        (λ settled.
          Keeps-if Hold.kept settled (pure (some status)) (refresh >> k)
            (Keeps-pure Hold.kept (some status))
            (Keeps-bind Hold.kept refresh (λ _. k) refresh-Keeps (λ _. rest)))

  read_status :
      (owner : AgentOwner) (uid : ℕ) (groups : List ℕ) (id : Text)
      → Keeps Hold.kept
          (map_error reading_error (read (λ p io. agent_status p owner uid groups id io)))
  read_status owner uid groups id = search keeping depth 6

  status_loop-Keeps :
      (owner : AgentOwner) (uid : ℕ) (groups : List ℕ) (id : Text) (n : ℕ)
      → Keeps Hold.kept (status_loop owner uid groups id n)
  unfolding status_loop
  status_loop-Keeps owner uid groups id zero = Keeps-pure Hold.kept none
  status_loop-Keeps owner uid groups id (suc n) =
      Keeps-bind Hold.kept
        (map_error reading_error (read (λ p io. agent_status p owner uid groups id io)))
        (λ status. is_settled_for id status >>= λ settled.
          if settled then pure (some status) else refresh >> status_loop owner uid groups id n)
        (read_status owner uid groups id)
        (λ status.
          round-Keeps id status (status_loop owner uid groups id n)
            (status_loop-Keeps owner uid groups id n))

  answer_query-Keeps :
      (token : Option Text) (d : Option DirectStatus) → Keeps Hold.kept (answer_query token d)
  unfolding answer_query
  answer_query-Keeps token none = search keeping
  answer_query-Keeps token (some d) = search (keeping, token_live-Keeps) depth 14

  signed_query-Keeps :
      (uid : ℕ) (groups : List ℕ) (q : SignedStatusQuery)
      → Keeps Hold.kept (signed_query max_rounds uid groups q)
  unfolding signed_query
  signed_query-Keeps uid groups q =
      search
        (
          keeping, call-Keeps, consume_status_query-Moves, agent_token-Keeps, token_live-Keeps,
          refresh-Keeps, status_loop-Keeps, answer_query-Keeps,
        )
        depth 40

  close_unavailable-Keeps :
      {A : Type 0} (r : Result AgentRejection A) → Keeps Hold.kept (close_unavailable r)
  unfolding close_unavailable
  close_unavailable-Keeps (ok a) = search keeping
  close_unavailable-Keeps (err AgentRejection.unauthorized) = search keeping
  close_unavailable-Keeps (err AgentRejection.malformed) = search keeping
  close_unavailable-Keeps (err AgentRejection.unsupported_version) = search keeping
  close_unavailable-Keeps (err AgentRejection.replay) = search keeping
  close_unavailable-Keeps (err AgentRejection.stale_revision) = search keeping
  close_unavailable-Keeps (err AgentRejection.invalid_arguments) = search keeping
  close_unavailable-Keeps (err AgentRejection.locked) = search keeping
  close_unavailable-Keeps (err AgentRejection.busy) = search keeping
  close_unavailable-Keeps (err AgentRejection.unavailable) =
      search (keeping, close_admission-Keeps) depth 6

  pub signed_agent_status-Keeps :
      (uid : ℕ) (groups : List ℕ) (q : SignedStatusQuery)
      → Keeps Hold.kept (signed_agent_status uid groups q)
  unfolding signed_agent_status
  signed_agent_status-Keeps uid groups q =
      search (keeping, signed_query-Keeps, close_unavailable-Keeps) depth 8
