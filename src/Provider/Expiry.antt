-- ===== src/Provider/Expiry.antt =====
-- `expire_direct` and `fail_direct_launch`: requests that end without a decision.
use vaultwarden_cli.Base.{
  ℕ, suc, Bool, false, not, ◌&&◌, ◌||◌, Option, none, some, List, [], ◌∷◌, leb, ◌==◌, text_eq,
  if◌then◌else◌, Text, is_none_or, Result, ok, ◌>>=◌,
}
use vaultwarden_cli.Host.{Host}
use vaultwarden_cli.Request.Types.{DirectStatus, DecisionOutcome}
use vaultwarden_cli.State.Types.{
  ProviderState, RequestRecord, RequestLifecycleStatus, ProviderDiagnostic, lifecycle_status_eq,
}
use vaultwarden_cli.State.Transition.{transition}
use vaultwarden_cli.Store.{Io, wall_time}
use vaultwarden_cli.Provider.Defs.{Provider, Plan, write, keep, transact}

-- The deadlines by request; a request without one is past it.
abbrev pub Deadlines : Type 0
Deadlines = Text → Option ℕ

abbrev pub is_due : ℕ → Deadlines → RequestRecord → Bool
is_due now deadlines r =
    not (is_none_or (λ d. d.execution_claimed) r.direct)
    && (r.status == RequestLifecycleStatus.pending || r.status == RequestLifecycleStatus.approved)
    && is_none_or (λ t. leb t now) (deadlines r.id)

unfoldable pub expire_request :
    ℕ → Deadlines → Io → ℕ → RequestRecord → Result ProviderDiagnostic RequestRecord
expire_request now deadlines io n r =
    if is_due now deadlines r
    then (wall_time io n >>= λ at. transition r DirectStatus.expired DecisionOutcome.expired at)
    else ok r

-- The loop over the requests, and whether any of them changed.
unfoldable pub expire_requests :
    ℕ
    → Deadlines
    → Io
    → ℕ
    → List RequestRecord
    → Result ProviderDiagnostic (List RequestRecord × Bool)
expire_requests now deadlines io n [] = ok ([], false)
expire_requests now deadlines io n (r ∷ rs) = expire_request now deadlines io n r >>= λ r'.
    expire_requests now deadlines io (suc n) rs >>= λ rest.
    ok (r' ∷ rest.0, is_due now deadlines r || rest.1)

unfoldable pub expire_plan :
    ℕ → Deadlines → Io → ProviderState → Result ProviderDiagnostic (Plan (Unit {0}))
unfolding expire_requests expire_request
expire_plan now deadlines io s = expire_requests now deadlines io 0 s.requests >>= λ rest.
    let s' = record s { requests = rest.0 } in ok (if rest.1 then write s' tt else keep s' tt)

-- The first pending request with this identifier, made to expire.
unfoldable pub fail_launch :
    Text → Io → List RequestRecord → Result ProviderDiagnostic (Option (List RequestRecord))
fail_launch id io [] = ok none
fail_launch id io (r ∷ rs) =
    let here = wall_time io 0 >>= λ at.
    transition r DirectStatus.expired DecisionOutcome.review_unavailable at >>= λ r'.
    ok (some (r' ∷ rs)) in
    let rest =
      fail_launch id io rs >>= λ o. ok (elim o [ none ↦ none | some rs' ↦ some (r ∷ rs') ]) in
    if r.id == id && r.status == RequestLifecycleStatus.pending then here else rest

unfoldable pub fail_launch_plan :
    Text → Io → ProviderState → Result ProviderDiagnostic (Plan (Unit {0}))
unfolding fail_launch
fail_launch_plan id io s = fail_launch id io s.requests >>= λ o.
    ok (elim o [ none ↦ keep s tt | some rs ↦ write (record s { requests = rs }) tt ])

module _ ⦃h : Host⦄ where
  -- `expire_direct`
  unfoldable pub expire_direct :
      Provider → ℕ → Deadlines → Io → Result ProviderDiagnostic (Unit {0}) × Provider
  expire_direct p now deadlines io = transact (λ e. e) p io (expire_plan now deadlines io)

  -- `fail_direct_launch`
  unfoldable pub fail_direct_launch :
      Provider → Text → Io → Result ProviderDiagnostic (Unit {0}) × Provider
  fail_direct_launch p id io = transact (λ e. e) p io (fail_launch_plan id io)
