-- ===== src/Provider/Calls.antt =====
-- The calls that the application makes of the provider are runs of it.
use vaultwarden_cli.Base.{
  ℕ, ◌≡◌, Bool, true, false, Option, Text, Result, ok, err, ◌>>=◌, if◌then◌else◌,
}
use vaultwarden_cli.Host.{Host}
use vaultwarden_cli.Request.Types.{
  ApprovalBinding, ApprovalMethod, DirectStatus, DirectReview, RequestError, binding_eq,
}
use vaultwarden_cli.State.Types.{ProviderState, ProviderDiagnostic}
use vaultwarden_cli.Store.{Io}
use vaultwarden_cli.Provider.Defs.{
  Provider, Plan, write, transact, transact_guarded, lock, invalidate_with, ProviderLockState,
}
use vaultwarden_cli.Provider.Requests.{
  DirectSubmission, Submitter, create_plan, create_owned, create_direct, decide_plan, decide_direct,
  prepare_direct, decider, decide_prepared,
}
use vaultwarden_cli.Provider.Expiry.{Deadlines, expire_direct, fail_direct_launch}
use vaultwarden_cli.Provider.Execution.{cancel_unclaimed_execution, execution_started}
use vaultwarden_cli.Request.Types.{AgentOwner}
use vaultwarden_cli.Protocol.{SignedStatusQuery}
use vaultwarden_cli.Provider.Signed.{consume_status_query}
use vaultwarden_cli.Provider.Writes
use vaultwarden_cli.Provider.Runs.{Planned}
use vaultwarden_cli.Provider.Moves.{Moves, Moves-refl, transact-Moves, guarded-Moves}

module _ ⦃h : Host⦄ where
  only_written :
      (r : Result ProviderDiagnostic ProviderState) (s' : ProviderState) (u : Unit {0})
      → (r >>= λ t. ok (write t tt)) ≡ ok (write s' u)
      → r ≡ ok s'
  only_written (ok t) s' u e = cc
  only_written (err x) s' u e = cc

  lock-plans :
      (io : Io) (s s' : ProviderState) (u : Unit {0})
      → invalidate_with false io s ≡ ok (write s' u)
      → Planned s s'
  unfolding invalidate_with
  lock-plans io s s' u e = Planned.invalidated false io s s' (only_written _ s' u e)

  pub lock-Moves : (p : Provider) (io : Io) → Moves p (lock p io).1
  unfolding lock
  lock-Moves p io =
      let m =
        transact-Moves (λ e. e) (invalidate_with false io) (lock-plans io)
          (record p { lock_state = ProviderLockState.locked }) io in
      record { same_owner = m.same_owner; runs = m.runs }

  -- A result with a provider that a call moved to.
  record Moved {A : Type 0} (p : Provider) (x : A × Provider) : Type 0 where
    moves : Moves p x.1

  if-Moved :
      {A : Type 0} (p : Provider) (b : Bool) (m n : A × Provider)
      → Moved p m
      → Moved p n
      → Moved p (if b then m else n)
  if-Moved p true m n x y = x
  if-Moved p false m n x y = y

  still : {A : Type 0} (p : Provider) (a : A) → Moved p (a, p)
  still p a = record { moves = Moves-refl p }

  module _ {E A : Type 0} (to_error : ProviderDiagnostic → E)
      (plan : ProviderState → Result E (Plan A))
      (planned : (s s' : ProviderState) (a : A) → plan s ≡ ok (write s' a) → Planned s s') where
    transacted : (p : Provider) (io : Io) → Moved p (transact to_error p io plan)
    transacted p io = record { moves = transact-Moves to_error plan planned p io }

    guarded : (p : Provider) (io : Io) → Moved p (transact_guarded to_error p io plan)
    guarded p io = record { moves = guarded-Moves to_error plan planned p io }

  pub expire_direct-Moves :
      (now : ℕ) (deadlines : Deadlines) (p : Provider) (io : Io)
      → Moves p (expire_direct p now deadlines io).1
  unfolding expire_direct
  expire_direct-Moves now deadlines p io =
      transact-Moves _ _ (λ s s' u. Planned.expired now deadlines io s s' u) p io

  pub reconcile_write-Moves :
      (id item : Text) (p : Provider) (io : Io) → Moves p (Writes.reconcile_write p id item io).1
  unfolding Writes.reconcile_write
  reconcile_write-Moves id item p io =
      transact-Moves _ _ (λ s s' v. Planned.reconciled id item io s s' v) p io

  pub consume_status_query-Moves :
      (owner : AgentOwner) (q : SignedStatusQuery) (p : Provider) (io : Io)
      → Moves p (consume_status_query p owner q io).1
  unfolding consume_status_query
  consume_status_query-Moves owner q p io =
      guarded-Moves _ _ (λ s s' u. Planned.queried owner q s s' u) p io

  pub fail_direct_launch-Moves :
      (id : Text) (p : Provider) (io : Io) → Moves p (fail_direct_launch p id io).1
  unfolding fail_direct_launch
  fail_direct_launch-Moves id p io =
      transact-Moves _ _ (λ s s' u. Planned.launch_failed id io s s' u) p io

  pub cancel_unclaimed_execution-Moves :
      (human : ℕ) (id : Text) (p : Provider) (io : Io)
      → Moves p (cancel_unclaimed_execution p human id io).1
  unfolding cancel_unclaimed_execution
  cancel_unclaimed_execution-Moves human id p io =
      transact-Moves _ _ (λ s s' u. Planned.cancelled human p.store.owner_uid id io s s' u) p io

  pub execution_started-Moves :
      (b : ApprovalBinding) (p : Provider) (io : Io) → Moves p (execution_started p b io).1
  unfolding execution_started
  execution_started-Moves b p io = transact-Moves _ _ (λ s s' u. Planned.started b io s s' u) p io

  created_here :
      (who : Submitter) (input : DirectSubmission) (at expires : ℕ) (allowed : Bool) (io : Io)
      (s s' : ProviderState) (v : DirectReview)
      → create_plan who input at expires allowed io s ≡ ok (write s' v)
      → Planned s s'
  created_here who input at expires allowed io s s' v =
      Planned.created who input at expires allowed io s s' v

  create_owned-Moved :
      (who : Submitter) (input : DirectSubmission) (at expires : ℕ) (allowed : Bool) (p : Provider)
      (io : Io)
      → Moved p (create_owned p who input at expires allowed io)
  unfolding create_owned
  create_owned-Moved who input at expires allowed p io =
      search (if-Moved, still, transacted, guarded, created_here) depth 8

  pub create_direct-Moves :
      (human : ℕ) (input : DirectSubmission) (at expires : ℕ) (allowed : Bool) (p : Provider)
      (io : Io)
      → Moves p (create_direct p human input at expires allowed io).1
  unfolding create_direct
  create_direct-Moves human input at expires allowed p io =
      (create_owned-Moved _ input at expires allowed p io).moves

  decided_here :
      (b : ApprovalBinding) (approve : Bool) (method : Option ApprovalMethod) (at : ℕ)
      (s s' : ProviderState) (v : DirectStatus)
      → decide_plan b approve method at s ≡ ok (write s' v)
      → Planned s s'
  decided_here b approve method at s s' v = Planned.decided b approve method at s s' v

  decided-Moved :
      (b : ApprovalBinding) (approve : Bool) (method : Option ApprovalMethod) (at : ℕ)
      (p : Provider) (io : Io) (r : Result RequestError ApprovalBinding)
      → Moved p (decide_prepared p b approve method at io r)
  unfolding decide_prepared
  decided-Moved b approve method at p io (err e) = still p _
  decided-Moved b approve method at p io (ok prepared) =
      search (if-Moved, still, guarded, decided_here) depth 8

  pub decide_direct-Moves :
      (b : ApprovalBinding) (approve : Bool) (method : Option ApprovalMethod) (at : ℕ) (first : Io)
      (p : Provider) (io : Io)
      → Moves p (decide_direct p b approve method at first io).1
  unfolding decide_direct
  decide_direct-Moves b approve method at first p io =
      (decided-Moved b approve method at p io
        (prepare_direct p (decider b p.store.owner_uid) b.request_id first)).moves
