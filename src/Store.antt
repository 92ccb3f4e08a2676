-- ===== src/Store.antt =====
-- The store of src/access/provider_store.rs: one durable state behind reads and atomic writes that
-- validate it. What the file system, the clock and the caller's authority answer is an input.
pub mod Laws
pub mod Epoch
use vaultwarden_cli.Base.{
  ℕ, suc, ◌+◌, Bool, true, false, not, ◌&&◌, ◌||◌, Option, none, some, List, [], ◌∷◌, ltb, ◌==◌,
  text_eq, if◌then◌else◌, is_some, is_none, is_some_and, Result, ok, err, ◌>>=◌, ◌>>◌, guard, ok_or,
}
use vaultwarden_cli.Host.{Host}
use vaultwarden_cli.Policy.Types.{OperationPolicy}
use vaultwarden_cli.Request.Types.{DirectRecord, DirectStatus, DirectFailure, DecisionOutcome}
use vaultwarden_cli.State.Types.{
  ProviderState, RequestRecord, RequestLifecycleStatus, ProviderDiagnostic, is_unexecuted,
  lifecycle_status_eq,
}
use vaultwarden_cli.State.Validate.{state_valid}
use vaultwarden_cli.State.Transition.{transition}

pub record ProviderStore : Type 0 where
  pub owner_uid : ℕ
  pub poisoned : Bool
  pub durable : ProviderState

-- How one write goes. `staging` is the failure of the layout checks, the removal of a stale
-- temporary file, or the creation and syncing of the new one; `before` and `after` are what
-- `still_authorized` answers around the rename.
pub record WriteRun : Type 0 where
  pub staging : Option ProviderDiagnostic
  pub before : Bool
  pub removed : Bool
  pub renamed : Bool
  pub synced : Bool
  pub after : Bool

-- What a call meets: the outcome of each of its reads, of its write, and of each reading of the
-- clock; and the bytes that are drawn at random.
pub record Io : Type 0 where
  pub reads : ℕ → Option ProviderDiagnostic
  pub write : WriteRun
  pub clock : ℕ → Option ℕ
  pub fresh : Option (List ℕ)

abbrev pub fail_if : {E : Type 0} → Option E → Result E (Unit {0})
fail_if none = ok tt
fail_if (some e) = err e

-- `provider_wall_time`, at its nth call.
abbrev pub wall_time : Io → ℕ → Result ProviderDiagnostic ℕ
wall_time io n = ok_or (io.clock n) ProviderDiagnostic.invalid_state

module _ ⦃h : Host⦄ where
  -- `ProviderStore::read_state`
  unfoldable pub read_state :
      ProviderStore → Option ProviderDiagnostic → Result ProviderDiagnostic ProviderState
  read_state s failure = do
    guard (not s.poisoned) ProviderDiagnostic.unsafe_state
    fail_if failure
    guard (state_valid s.durable s.owner_uid) ProviderDiagnostic.invalid_state
    ok s.durable

  -- Everything up to the rename: the state on disk is untouched.
  stage : ProviderStore → ProviderState → WriteRun → Result ProviderDiagnostic (Unit {0})
  stage s next run = do
    guard (not s.poisoned) ProviderDiagnostic.unsafe_state
    guard (state_valid next s.owner_uid) ProviderDiagnostic.invalid_state
    fail_if run.staging
    guard (run.before || run.removed) ProviderDiagnostic.persistence_failure
    guard run.before ProviderDiagnostic.expired_access_request
    guard run.renamed ProviderDiagnostic.persistence_failure

  -- After the rename a failed sync, or authority lost meanwhile, poisons the store.
  settle :
      ProviderStore
      → ProviderState
      → WriteRun
      → Result ProviderDiagnostic (Unit {0}) × ProviderStore
  settle s next run = if run.synced && run.after then (ok tt, record s { durable = next }) else (
    err ProviderDiagnostic.persistence_failure,
    record s { durable = next; poisoned = true },
  )

  -- `ProviderStore::write_state_guarded`
  unfoldable pub write_state_guarded :
      ProviderStore
      → ProviderState
      → WriteRun
      → Result ProviderDiagnostic (Unit {0}) × ProviderStore
  unfolding stage settle
  write_state_guarded s next run = elim (stage s next run) [
    | err e ↦ (err e, s)
    | ok _ ↦ settle s next run
  ]

  -- `ProviderStore::write_state`, whose guard is always true.
  unfoldable pub write_state :
      ProviderStore
      → ProviderState
      → WriteRun
      → Result ProviderDiagnostic (Unit {0}) × ProviderStore
  write_state s next run = write_state_guarded s next (record run { before = true; after = true })

-- Authority that survives a lock: a claimed or running execution.
abbrev pub in_execution : RequestRecord → Bool
in_execution r = elim r.direct [
  | none ↦ false
  | some d ↦ d.execution_claimed || r.status == RequestLifecycleStatus.running
]

-- One request of `invalidate`.
unfoldable pub invalidate_request :
    Bool → Io → ℕ → RequestRecord → Result ProviderDiagnostic RequestRecord
invalidate_request recovered io n r =
    let decision = if recovered then DecisionOutcome.recovered else DecisionOutcome.invalidated in
    let next =
      if in_execution r
      then DirectStatus.failed DirectFailure.observation_lost
      else DirectStatus.expired in
    let step = wall_time io n >>= λ now. transition r next decision now in
    if not (is_unexecuted r.status)
    then ok r
    else (if not recovered && in_execution r
        then ok r
        else (if is_some r.direct
            then step
            else ok (record r { status = RequestLifecycleStatus.invalidated })))

unfoldable pub invalidate_requests :
    Bool → Io → ℕ → List RequestRecord → Result ProviderDiagnostic (List RequestRecord)
invalidate_requests recovered io n [] = ok []
invalidate_requests recovered io n (r ∷ rs) = do
  r' ← invalidate_request recovered io n r
  rs' ← invalidate_requests recovered io (suc n) rs
  ok (r' ∷ rs')

abbrev pub u64_max : ℕ
u64_max = 18446744073709551615

-- The state that `invalidate` writes.
unfoldable pub invalidated_state :
    Bool → Io → ProviderState → Result ProviderDiagnostic ProviderState
unfolding invalidate_requests invalidate_request
invalidated_state recovered io s = do
  guard (ltb s.lifecycle_epoch u64_max) ProviderDiagnostic.persistence_failure
  requests ← invalidate_requests recovered io 0 s.requests
  ok (record s { lifecycle_epoch = s.lifecycle_epoch + 1; requests = requests })
