-- ===== src/Provider/Sweeps.antt =====
-- The operations that go over every request: expiry, a failed launch, and the end of an epoch.
use vaultwarden_cli.Base.{
  ℕ, suc, refl, Bool, false, not, ◌||◌, Option, none, some, List, [], ◌∷◌, ◌==◌, text_eq, Text,
  Bool-cases, inl, inr, Result, ok, err, Sound, Sound-ok, Sound-if, Sound-bind, Sound-option,
  Sound-map_err, find, ◌>>=◌, guard, ltb,
}
use vaultwarden_cli.Request.Types.{DirectStatus, DecisionOutcome}
use vaultwarden_cli.State.Types.{
  ProviderState, RequestRecord, RequestLifecycleStatus, ProviderDiagnostic,
}
use vaultwarden_cli.State.Transition.{transition}
use vaultwarden_cli.Store.{
  Io, wall_time, invalidate_request, invalidate_requests, invalidated_state, u64_max,
}
use vaultwarden_cli.Provider.Defs.{write, keep, unavailable}
use vaultwarden_cli.Provider.Expiry.{
  Deadlines, is_due, expire_request, expire_requests, expire_plan, fail_launch, fail_launch_plan,
}
use vaultwarden_cli.Agents.{AgentBindingStatus, binding_status_eq}
use vaultwarden_cli.Provider.Pairing.{is_orphaned, revoke_request, revoke_requests, revoke_plan}
use vaultwarden_cli.Provider.Evolution.{
  Grows, RequestEvolves, RequestEvolves-refl, Grows-refl, status_evolves,
}
use vaultwarden_cli.Provider.Changes.{transition-evolves}
use vaultwarden_cli.Provider.Growth.{PlanGrows}

same_evolves : {E : Type 0} (r : RequestRecord) → Sound {E = E} (RequestEvolves false r) (ok r)
same_evolves r = Sound-ok r (RequestEvolves-refl false r)

step_evolves-Sound :
    (io : Io) (n : ℕ) (r : RequestRecord) (next : DirectStatus) (decision : DecisionOutcome)
    → Sound (RequestEvolves false r) (wall_time io n >>= λ at. transition r next decision at)
step_evolves-Sound io n r next decision =
    Sound-bind (wall_time io n) _
      λ at clock. record { holds = λ r' t. transition-evolves r next decision at t }

expire-request :
    (now : ℕ) (deadlines : Deadlines) (io : Io) (n : ℕ) (r : RequestRecord)
    → Sound (RequestEvolves false r) (expire_request now deadlines io n r)
unfolding expire_request
expire-request now deadlines io n r =
    Sound-if (is_due now deadlines r) _ _
      (λ due. step_evolves-Sound io n r DirectStatus.expired DecisionOutcome.expired)
      (λ other. same_evolves r)

expire-requests :
    (now : ℕ) (deadlines : Deadlines) (io : Io) (n : ℕ) (rs : List RequestRecord)
    → Sound (λ ss. Grows false rs ss.0) (expire_requests now deadlines io n rs)
unfolding expire_requests Grows
expire-requests now deadlines io n [] = Sound-ok ([], false) refl
expire-requests now deadlines io n (r ∷ rs) =
    Sound-bind (expire_request now deadlines io n r) _ λ r' here.
      Sound-bind (expire_requests now deadlines io (suc n) rs) _ λ rest later.
        Sound-ok (r' ∷ rest.0, is_due now deadlines r || rest.1)
          (
            (expire-request now deadlines io n r).holds r' here,
            (expire-requests now deadlines io (suc n) rs).holds rest later,
          )

pub expire-grows :
    (now : ℕ) (deadlines : Deadlines) (io : Io) (s : ProviderState)
    → Sound (PlanGrows false s.requests) (expire_plan now deadlines io s)
unfolding expire_plan PlanGrows
expire-grows now deadlines io s =
    Sound-bind (expire_requests now deadlines io 0 s.requests) _ λ rest done.
      elim (Bool-cases rest.1) [
        | inl changed ↦ rw changed (
            Sound-ok (write (record s { requests = rest.0 }) tt)
              ((expire-requests now deadlines io 0 s.requests).holds rest done))
        | inr same ↦ rw same (Sound-ok (keep (record s { requests = rest.0 }) tt) tt)
      ]

-- What `fail_launch` may return over these requests.
unfoldable OptionGrows : List RequestRecord → Option (List RequestRecord) → Type 0
OptionGrows rs none = Unit {0}
OptionGrows rs (some ss) = Grows false rs ss

launch_here :
    (io : Io) (r : RequestRecord) (rs : List RequestRecord)
    → Sound (OptionGrows (r ∷ rs)) (
        wall_time io 0 >>= λ at.
        transition r DirectStatus.expired DecisionOutcome.review_unavailable at >>= λ r'.
        ok (some (r' ∷ rs)))
unfolding OptionGrows Grows
launch_here io r rs = Sound-bind (wall_time io 0) _ λ at clock.
    Sound-bind (transition r DirectStatus.expired DecisionOutcome.review_unavailable at) _
      λ r' step. Sound-ok (some (r' ∷ rs)) (
        transition-evolves r DirectStatus.expired DecisionOutcome.review_unavailable at step,
        Grows-refl false rs,
      )

launch_later :
    (r : RequestRecord) (rs : List RequestRecord)
    (m : Result ProviderDiagnostic (Option (List RequestRecord)))
    → Sound (OptionGrows rs) m
    → Sound
        (OptionGrows (r ∷ rs))
        (m >>= λ o. ok (elim o [ none ↦ none | some ss ↦ some (r ∷ ss) ]))
unfolding OptionGrows Grows
launch_later r rs (err e) k = record { holds = λ a h. cc }
launch_later r rs (ok none) k = Sound-ok none tt
launch_later r rs (ok (some ss)) k =
    Sound-ok (some (r ∷ ss)) (RequestEvolves-refl false r, k.holds (some ss) refl)

launch-requests :
    (id : Text) (io : Io) (rs : List RequestRecord) → Sound (OptionGrows rs) (fail_launch id io rs)
unfolding fail_launch OptionGrows
launch-requests id io [] = Sound-ok none tt
launch-requests id io (r ∷ rs) =
    Sound-if _ _ _ (λ here. launch_here io r rs)
      (λ later. launch_later r rs (fail_launch id io rs) (launch-requests id io rs))

launch_plan :
    {E : Type 0} (s : ProviderState) (o : Option (List RequestRecord))
    → OptionGrows s.requests o
    → Sound {E = E}
        (PlanGrows false s.requests)
        (ok (elim o [ none ↦ keep s tt | some rs ↦ write (record s { requests = rs }) tt ]))
unfolding OptionGrows PlanGrows
launch_plan s none g = Sound-ok (keep s tt) tt
launch_plan s (some rs) g = Sound-ok _ g

pub launch-grows :
    (id : Text) (io : Io) (s : ProviderState)
    → Sound (PlanGrows false s.requests) (fail_launch_plan id io s)
unfolding fail_launch_plan PlanGrows OptionGrows
launch-grows id io s =
    Sound-bind (fail_launch id io s.requests) _
      λ o done. launch_plan s o ((launch-requests id io s.requests).holds o done)

status-Sound :
    {E : Type 0} (r : RequestRecord) (status : RequestLifecycleStatus)
    → Sound {E = E} (RequestEvolves false r) (ok (record r { status = status }))
status-Sound r status = Sound-ok _ (status_evolves false r status)

invalidate-request :
    (recovered : Bool) (io : Io) (n : ℕ) (r : RequestRecord)
    → Sound (RequestEvolves false r) (invalidate_request recovered io n r)
unfolding invalidate_request
invalidate-request recovered io n r =
    search (Sound-if, same_evolves, step_evolves-Sound, status-Sound) depth 8

invalidate-requests :
    (recovered : Bool) (io : Io) (n : ℕ) (rs : List RequestRecord)
    → Sound (Grows false rs) (invalidate_requests recovered io n rs)
unfolding invalidate_requests Grows
invalidate-requests recovered io n [] = Sound-ok [] refl
invalidate-requests recovered io n (r ∷ rs) =
    Sound-bind (invalidate_request recovered io n r) _ λ r' here.
      Sound-bind (invalidate_requests recovered io (suc n) rs) _ λ rs' later. Sound-ok (r' ∷ rs') (
        (invalidate-request recovered io n r).holds r' here,
        (invalidate-requests recovered io (suc n) rs).holds rs' later,
      )

pub invalidate-Grows :
    (recovered : Bool) (io : Io) (s : ProviderState)
    → Sound (λ t. Grows false s.requests t.requests) (invalidated_state recovered io s)
unfolding invalidated_state
invalidate-Grows recovered io s =
    Sound-bind (guard (ltb s.lifecycle_epoch u64_max) ProviderDiagnostic.persistence_failure) _
      λ _ bounded.
        Sound-bind (invalidate_requests recovered io 0 s.requests) _
          λ rs done. Sound-ok _ ((invalidate-requests recovered io 0 s.requests).holds rs done)

revoke-request :
    (id : Text) (now : ℕ) (r : RequestRecord)
    → Sound (RequestEvolves false r) (revoke_request id now r)
unfolding revoke_request
revoke-request id now r =
    Sound-if (is_orphaned id r) _ _
      (λ waits. record {
        holds = λ s t. transition-evolves r DirectStatus.expired DecisionOutcome.invalidated now t;
      })
      (λ other. same_evolves r)

revoke-requests :
    (id : Text) (now : ℕ) (rs : List RequestRecord)
    → Sound (Grows false rs) (revoke_requests id now rs)
unfolding revoke_requests Grows
revoke-requests id now [] = Sound-ok [] refl
revoke-requests id now (r ∷ rs) = Sound-bind (revoke_request id now r) _ λ r' here.
    Sound-bind (revoke_requests id now rs) _ λ rs' later.
      Sound-ok (r' ∷ rs')
        ((revoke-request id now r).holds r' here, (revoke-requests id now rs).holds rs' later)

pub revoke-grows :
    (human : ℕ) (id : Text) (now : ℕ) (s : ProviderState)
    → Sound (PlanGrows false s.requests) (revoke_plan human id now s)
unfolding revoke_plan PlanGrows
revoke-grows human id now s = Sound-option (find (λ x. x.id == id) s.pairings) _ _ λ b found.
    Sound-if (not (b.status == AgentBindingStatus.enabled)) _ _ (λ old. Sound-ok _ tt)
      λ on.
        Sound-map_err unavailable (revoke_requests id now s.requests) _
          λ rs done. Sound-ok _ ((revoke-requests id now s.requests).holds rs done)
