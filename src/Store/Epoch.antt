-- ===== src/Store/Epoch.antt =====
-- What the end of an epoch leaves: a lock, and the recovery at a start.
use vaultwarden_cli.Base.{
  ℕ, suc, ◌+◌, ◌≡◌, refl, subst, sym, Bool, true, false, not, ◌&&◌, ◌||◌, List, [], ◌∷◌, all, arith,
  ok, Sound, Sound-ok, Sound-if, Sound-bind, is_some, &&-intro, if◌then◌else◌, ◌>>=◌, guard, ltb,
}
use vaultwarden_cli.Request.Types.{DirectStatus, DecisionOutcome, DirectFailure}
use vaultwarden_cli.State.Types.{ProviderState, RequestRecord, ProviderDiagnostic, is_unexecuted}
use vaultwarden_cli.State.Transition.{transition, lifecycle_of, advance_request}
use vaultwarden_cli.State.Steps.{transition-ok}
use vaultwarden_cli.Store.{
  Io, wall_time, in_execution, invalidate_request, invalidate_requests, invalidated_state, u64_max,
}

-- Nothing waits: after a recovery no request, after a lock none but those in execution.
unfoldable pub is_settled : Bool → RequestRecord → Bool
is_settled recovered r = not (is_unexecuted r.status) || (not recovered && in_execution r)

moved_settled :
    (recovered : Bool) (io : Io) (n : ℕ) (r : RequestRecord) (next : DirectStatus)
    (decision : DecisionOutcome)
    → is_unexecuted (lifecycle_of next) ≡ false
    → Sound
        (λ s. is_settled recovered s ≡ true)
        (wall_time io n >>= λ now. transition r next decision now)
unfolding is_settled advance_request
moved_settled recovered io n r next decision u = Sound-bind (wall_time io n) _ λ now clock. record {
  holds = λ s t.
      let (d, at, l, done) = transition-ok r next decision now t in
      subst (λ x. is_settled recovered x ≡ true) (sym done) (rw u refl);
}

next_ends :
    (b : Bool)
    → is_unexecuted (
        lifecycle_of
          (if b then DirectStatus.failed DirectFailure.observation_lost else DirectStatus.expired))
      ≡ false
next_ends true = refl
next_ends false = refl

request-settled :
    (recovered : Bool) (io : Io) (n : ℕ) (r : RequestRecord)
    → Sound (λ s. is_settled recovered s ≡ true) (invalidate_request recovered io n r)
unfolding invalidate_request is_settled
request-settled recovered io n r =
    Sound-if (not (is_unexecuted r.status)) _ _ (λ ended. Sound-ok r (rw ended refl))
      λ waits.
        Sound-if (not recovered && in_execution r) _ _ (λ runs. Sound-ok r (ground (arith, runs)))
          λ idle.
            Sound-if (is_some r.direct) _ _
              (λ has. moved_settled recovered io n r _ _ (next_ends (in_execution r)))
              (λ bare. Sound-ok _ refl)

requests-settled :
    (recovered : Bool) (io : Io) (n : ℕ) (rs : List RequestRecord)
    → Sound (λ ss. all (is_settled recovered) ss ≡ true) (invalidate_requests recovered io n rs)
unfolding invalidate_requests
requests-settled recovered io n [] = Sound-ok [] refl
requests-settled recovered io n (r ∷ rs) =
    Sound-bind (invalidate_request recovered io n r) _ λ r' here.
      Sound-bind (invalidate_requests recovered io (suc n) rs) _ λ rs' later. Sound-ok (r' ∷ rs') (
        &&-intro ((request-settled recovered io n r).holds r' here)
          ((requests-settled recovered io (suc n) rs).holds rs' later))

-- The end of an epoch, if it succeeds, takes the next epoch, and then no request is pending,
-- approved or running: none at all after a recovery, and after a lock none that is not in execution.
pub invalidated-settled :
    (recovered : Bool) (io : Io) (s t : ProviderState)
    → invalidated_state recovered io s ≡ ok t
    → (t.lifecycle_epoch ≡ s.lifecycle_epoch + 1) × (all (is_settled recovered) t.requests ≡ true)
unfolding invalidated_state
invalidated-settled recovered io s t e = settled.holds t e
  where
    settled :
        Sound
          (λ u.
            (u.lifecycle_epoch ≡ s.lifecycle_epoch + 1)
            × (all (is_settled recovered) u.requests ≡ true))
          (invalidated_state recovered io s)
    settled =
        Sound-bind (guard (ltb s.lifecycle_epoch u64_max) ProviderDiagnostic.persistence_failure) _
          λ _ bounded.
            Sound-bind (invalidate_requests recovered io 0 s.requests) _ λ rs done.
              Sound-ok _ (refl, (requests-settled recovered io 0 s.requests).holds rs done)
