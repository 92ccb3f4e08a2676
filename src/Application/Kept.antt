-- ===== src/Application/Kept.antt =====
-- Every method but `authenticate` keeps the session within its lease.
use vaultwarden_cli.Base.{ℕ, suc, ◌≤◌, refl, Option, none, some, Text, Result, ok, err, arith}
use vaultwarden_cli.Host.{Host}
use vaultwarden_cli.Request.Types.{AgentOwner}
use vaultwarden_cli.Provider.Moves.{Moves-refl}
use vaultwarden_cli.Provider.Calls.{lock-Moves, expire_direct-Moves}
use vaultwarden_cli.Application.Types.{Session, Outside, SessionError}
use vaultwarden_cli.Application.Action.{observe}
use vaultwarden_cli.Application.Authority.{
  withdraw_authority, cleaned, close_admission, publish_revocation, retain_deadlines, clean_up,
  withdrawn, revoke, revoke_locked, admit_until, admit, locked_is_fine, admit_or_locked,
  await_cleanup, lock, shutdown, expire_requests, status_of, status, agent_token, token_live,
  request_agent_live,
}
use vaultwarden_cli.Application.Follows.{
  Hold, Keeps, keeping, Keeps-bind, call-Keeps, observe-Keeps,
}

module _ ⦃h : Host⦄ where
  withdraw-Keeps : {E : Type 0} → Keeps {E = E} Hold.loose withdraw_authority
  unfolding withdraw_authority
  withdraw-Keeps = record {
    follows = λ o s. record {
      later = omega arith;
      ticks = omega arith;
      closed = λ e. e;
      moves = Moves-refl s.provider;
      lease = λ l. cc;
      closes = λ _ _. refl;
    };
  }

  cleaned-Keeps : {E : Type 0} → Keeps {E = E} Hold.shut cleaned
  unfolding cleaned
  cleaned-Keeps = record {
    follows = λ o s. record {
      later = omega arith;
      ticks = omega arith;
      closed = λ e. e;
      moves = Moves-refl s.provider;
      lease = λ l. cc;
      closes = λ _ e. e;
    };
  }

  pub close_admission-Keeps : {E : Type 0} (b : Hold) → Keeps {E = E} b close_admission
  unfolding close_admission
  close_admission-Keeps b = record {
    follows = λ o s. record {
      later = omega arith;
      ticks = omega arith;
      closed = λ e. refl;
      moves = Moves-refl s.provider;
      lease = λ _ _. (refl, refl);
      closes = λ _ e. e;
    };
  }

  pub publish_revocation-Keeps : {E : Type 0} (b : Hold) → Keeps {E = E} b publish_revocation
  unfolding publish_revocation
  publish_revocation-Keeps b = Keeps-bind b observe _ (observe-Keeps b) λ u. record {
    follows = λ o s. record {
      later = omega arith;
      ticks = omega arith;
      closed = λ e. e;
      moves = Moves-refl s.provider;
      lease = λ _ _. (refl, refl);
      closes = λ _ e. e;
    };
  }

  retain_deadlines-Keeps : {E : Type 0} (b : Hold) (at : ℕ) → Keeps {E = E} b (retain_deadlines at)
  unfolding retain_deadlines
  retain_deadlines-Keeps b at = record {
    follows = λ o s. record {
      later = omega arith;
      ticks = omega arith;
      closed = λ e. e;
      moves = Moves-refl s.provider;
      lease = λ _ _. (refl, refl);
      closes = λ _ e. e;
    };
  }

  clean_up-Keeps : Keeps Hold.shut clean_up
  unfolding clean_up
  clean_up-Keeps = search (keeping, call-Keeps, lock-Moves, cleaned-Keeps) depth 12

  -- The generation after `withdrawn` is another, whatever the cleanups do.
  pub withdrawn-grows :
      (o : Outside) (s : Session) → suc s.generation ≤ (withdrawn o s).1.generation
  unfolding withdrawn withdraw_authority
  withdrawn-grows o s = (clean_up-Keeps.follows o _).later

  withdrawn-Keeps : Keeps Hold.kept withdrawn
  unfolding withdrawn withdraw_authority
  withdrawn-Keeps = record {
    follows = λ o s.
        let f = clean_up-Keeps.follows o (withdraw_authority {E = SessionError} o s).1 in
        let grows = withdrawn-grows o s in
        record {
          later = omega arith;
          ticks = f.ticks;
          closed = f.closed;
          moves = f.moves;
          lease = λ l e. absurd (omega arith);
          closes = λ _ _. f.closes refl refl;
        };
  }

  pub revoke-Keeps : Keeps Hold.kept revoke
  unfolding revoke
  revoke-Keeps = search (keeping, withdrawn-Keeps) depth 8

  revoke_locked-Keeps : Keeps Hold.kept revoke_locked
  unfolding revoke_locked
  revoke_locked-Keeps = search (keeping, revoke-Keeps) depth 8

  admit_until-Keeps : (d : Option ℕ) → Keeps Hold.kept (admit_until d)
  unfolding admit_until
  admit_until-Keeps none = search keeping
  admit_until-Keeps (some d) = search (keeping, revoke_locked-Keeps) depth 10

  pub admit-Keeps : Keeps Hold.kept admit
  unfolding admit
  admit-Keeps = search (keeping, revoke_locked-Keeps, admit_until-Keeps) depth 10

  locked_is_fine-Keeps : (r : Result SessionError (Unit {0})) → Keeps Hold.kept (locked_is_fine r)
  unfolding locked_is_fine
  locked_is_fine-Keeps (ok u) = search keeping
  locked_is_fine-Keeps (err SessionError.locked) = search keeping
  locked_is_fine-Keeps (err SessionError.incompatible) = search keeping
  locked_is_fine-Keeps (err SessionError.authentication_failed) = search keeping
  locked_is_fine-Keeps (err SessionError.backend_unavailable) = search keeping
  locked_is_fine-Keeps (err SessionError.cleanup_failed) = search keeping
  locked_is_fine-Keeps (err SessionError.invalid_request) = search keeping

  pub admit_or_locked-Keeps : Keeps Hold.kept admit_or_locked
  unfolding admit_or_locked
  admit_or_locked-Keeps = search (keeping, admit-Keeps, locked_is_fine-Keeps) depth 8

  pub await_cleanup-Keeps : Keeps Hold.kept await_cleanup
  unfolding await_cleanup
  await_cleanup-Keeps = search (keeping, close_admission-Keeps) depth 10

  pub lock-Keeps : Keeps Hold.kept lock
  unfolding lock
  lock-Keeps =
      search (keeping, publish_revocation-Keeps, revoke-Keeps, await_cleanup-Keeps) depth 12

  pub shutdown-Keeps : Keeps Hold.kept shutdown
  unfolding shutdown
  shutdown-Keeps = search (keeping, close_admission-Keeps, lock-Keeps) depth 8

  pub expire_requests-Keeps : Keeps Hold.kept expire_requests
  unfolding expire_requests
  expire_requests-Keeps =
      search (keeping, call-Keeps, expire_direct-Moves, retain_deadlines-Keeps) depth 12

  status_of-Keeps : (r : Result SessionError (Unit {0})) → Keeps Hold.kept (status_of r)
  unfolding status_of
  status_of-Keeps (ok u) = search keeping
  status_of-Keeps (err SessionError.locked) = search keeping
  status_of-Keeps (err SessionError.incompatible) = search keeping
  status_of-Keeps (err SessionError.authentication_failed) = search keeping
  status_of-Keeps (err SessionError.backend_unavailable) = search keeping
  status_of-Keeps (err SessionError.cleanup_failed) = search keeping
  status_of-Keeps (err SessionError.invalid_request) = search keeping

  pub status-Keeps : Keeps Hold.kept status
  unfolding status
  status-Keeps = search (keeping, admit-Keeps, expire_requests-Keeps, status_of-Keeps) depth 10

  pub agent_token-Keeps : (a : Option AgentOwner) → Keeps Hold.kept (agent_token a)
  unfolding agent_token
  agent_token-Keeps none = search keeping
  agent_token-Keeps (some a) = search keeping depth 8

  pub token_live-Keeps : {E : Type 0} (t : Option Text) → Keeps {E = E} Hold.kept (token_live t)
  unfolding token_live
  token_live-Keeps t = search keeping depth 8

  pub request_agent_live-Keeps : (id : Text) → Keeps Hold.kept (request_agent_live id)
  unfolding request_agent_live
  request_agent_live-Keeps id = search keeping depth 8
