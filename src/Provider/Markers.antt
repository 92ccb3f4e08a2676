-- ===== src/Provider/Markers.antt =====
-- No write of the provider forgets a marker of a status query.
use vaultwarden_cli.Base.{
  ◌≡◌, refl, subst, sym, Bool, true, false, Option, List, [], ◌∷◌, ◌++◌, Text, text_eq, ok, guard,
  Sound, soundness, Sound-ok, Sound-bind, Sound-if, none, some, if◌then◌else◌, ltb, arith,
}
use vaultwarden_cli.Host.{Host}
use vaultwarden_cli.State.Types.{ProviderState, RequestRecord, ProviderDiagnostic}
use vaultwarden_cli.State.Validate.{mem}
use vaultwarden_cli.Store.{Io, invalidated_state, invalidate_requests, u64_max}
use vaultwarden_cli.Provider.Defs.{Plan, write, keep, answer}
use vaultwarden_cli.Provider.Requests.{create_plan, decide_plan}
use vaultwarden_cli.Provider.Expiry.{expire_plan, fail_launch_plan, fail_launch}
use vaultwarden_cli.Provider.Execution.{cancel_plan, claim_plan, started_plan, finish_plan}
use vaultwarden_cli.Provider.Pairing.{pair_plan, revoke_plan}
use vaultwarden_cli.Provider.Writes.{begin_plan, record_plan, reconcile_plan}
use vaultwarden_cli.Provider.Signed.{query_plan}
use vaultwarden_cli.Provider.Catalogue.{provision_plan, register_plan}
use vaultwarden_cli.Provider.Runs.{Planned}

-- A list that keeps every marker of another.
abbrev pub KeepsMarkers : List Text → List Text → Type 0
KeepsMarkers ms ns = (m : Text) → mem m ms ≡ true → mem m ns ≡ true

unfoldable pub PlanKeeps : {A : Type 0} → List Text → Plan A → Type 0
PlanKeeps ms (write s a) = KeepsMarkers ms s.query_replay_markers
PlanKeeps ms (keep s a) = Unit {0}
PlanKeeps ms (answer a) = Unit {0}

same_markers :
    {E A : Type 0} (ms : List Text) (s : ProviderState) {a : A}
    → s.query_replay_markers ≡ ms
    → Sound {E = E} (PlanKeeps ms) (ok (write s a))
unfolding PlanKeeps
same_markers ms s e = Sound-ok _ (λ m h. subst (λ ns. mem m ns ≡ true) (sym e) h)

no_write : {E A : Type 0} (ms : List Text) (a : A) → Sound {E = E} (PlanKeeps ms) (ok (answer a))
unfolding PlanKeeps
no_write ms a = Sound-ok (answer a) tt

kept_state :
    {E A : Type 0} (ms : List Text) (s : ProviderState) (a : A)
    → Sound {E = E} (PlanKeeps ms) (ok (keep s a))
unfolding PlanKeeps
kept_state ms s a = Sound-ok (keep s a) tt

mem-append : (m : Text) (ms ns : List Text) → mem m ms ≡ true → mem m (ms ++ ns) ≡ true
mem-append m [] ns h = ground arith
mem-append m (x ∷ ms) ns h = ground (arith, mem-append m ms ns)

more_markers :
    {E A : Type 0} (s : ProviderState) (m : Text) {a : A}
    → Sound {E = E}
        (PlanKeeps s.query_replay_markers)
        (ok (write (record s { query_replay_markers = s.query_replay_markers ++ m ∷ [] }) a))
unfolding PlanKeeps
more_markers s m = Sound-ok _ (λ x h. mem-append x s.query_replay_markers (m ∷ []) h)

changed_or_not :
    {E : Type 0} (b : Bool) (ms : List Text) (s : ProviderState)
    → s.query_replay_markers ≡ ms
    → Sound {E = E} (PlanKeeps ms) (ok (if b then write s tt else keep s tt))
changed_or_not true ms s e = same_markers ms s e
changed_or_not false ms s e = kept_state ms s tt

launched_or_not :
    {E : Type 0} (o : Option (List RequestRecord)) (s : ProviderState)
    → Sound {E = E}
        (PlanKeeps s.query_replay_markers)
        (ok (elim o [ none ↦ keep s tt | some rs ↦ write (record s { requests = rs }) tt ]))
launched_or_not none s = kept_state s.query_replay_markers s tt
launched_or_not (some rs) s = same_markers s.query_replay_markers (record s { requests = rs }) refl

ruleset markers = (
  soundness, Sound-if, same_markers, no_write, kept_state, more_markers, changed_or_not,
  launched_or_not, refl,
)

module _ ⦃h : Host⦄ where
  invalidate-markers :
      (recovered : Bool) (io : Io) (s : ProviderState)
      → Sound
          (λ t. KeepsMarkers s.query_replay_markers t.query_replay_markers)
          (invalidated_state recovered io s)
  unfolding invalidated_state
  invalidate-markers recovered io s =
      Sound-bind (guard (ltb s.lifecycle_epoch u64_max) ProviderDiagnostic.persistence_failure) _
        λ _ bounded.
          Sound-bind (invalidate_requests recovered io 0 s.requests) _
            λ rs done. Sound-ok _ (λ m e. e)

  pub planned-KeepsMarkers :
      {s t : ProviderState}
      → Planned s t
      → KeepsMarkers s.query_replay_markers t.query_replay_markers
  unfolding PlanKeeps create_plan decide_plan expire_plan fail_launch_plan cancel_plan claim_plan
      started_plan finish_plan begin_plan record_plan reconcile_plan revoke_plan pair_plan
      query_plan provision_plan register_plan
  planned-KeepsMarkers (Planned.created who input now expires allowed io s t v e) =
      let kept : Sound (PlanKeeps s.query_replay_markers)
          (create_plan who input now expires allowed io s) =
        search markers depth 14 in
      kept.holds (write t v) e
  planned-KeepsMarkers (Planned.decided b approve method now s t v e) =
      let kept : Sound (PlanKeeps s.query_replay_markers) (decide_plan b approve method now s) =
        search markers depth 14 in
      kept.holds (write t v) e
  planned-KeepsMarkers (Planned.expired now deadlines io s t u e) =
      let kept : Sound (PlanKeeps s.query_replay_markers) (expire_plan now deadlines io s) =
        search markers depth 14 in
      kept.holds (write t u) e
  planned-KeepsMarkers (Planned.launch_failed id io s t u e) =
      let kept : Sound (PlanKeeps s.query_replay_markers) (fail_launch_plan id io s) =
        Sound-bind (fail_launch id io s.requests) _ (λ o done. launched_or_not o s) in
      kept.holds (write t u) e
  planned-KeepsMarkers (Planned.cancelled human uid id io s t u e) =
      let kept : Sound (PlanKeeps s.query_replay_markers) (cancel_plan human uid id io s) =
        search markers depth 14 in
      kept.holds (write t u) e
  planned-KeepsMarkers (Planned.claimed human uid id s t b e) =
      let kept : Sound (PlanKeeps s.query_replay_markers) (claim_plan human uid id s) =
        search markers depth 14 in
      kept.holds (write t b) e
  planned-KeepsMarkers (Planned.started b io s t u e) =
      let kept : Sound (PlanKeeps s.query_replay_markers) (started_plan b io s) =
        search markers depth 14 in
      kept.holds (write t u) e
  planned-KeepsMarkers (Planned.finished b status cleanup io s t u e) =
      let kept : Sound (PlanKeeps s.query_replay_markers) (finish_plan b status cleanup io s) =
        search markers depth 14 in
      kept.holds (write t u) e
  planned-KeepsMarkers (Planned.begun b s t u e) =
      let kept : Sound (PlanKeeps s.query_replay_markers) (begin_plan b s) =
        search markers depth 14 in
      kept.holds (write t u) e
  planned-KeepsMarkers (Planned.recorded b item status s t u e) =
      let kept : Sound (PlanKeeps s.query_replay_markers) (record_plan b item status s) =
        search markers depth 14 in
      kept.holds (write t u) e
  planned-KeepsMarkers (Planned.reconciled id item io s t v e) =
      let kept : Sound (PlanKeeps s.query_replay_markers) (reconcile_plan id item io s) =
        search markers depth 14 in
      kept.holds (write t v) e
  planned-KeepsMarkers (Planned.revoked human id now s t v e) =
      let kept : Sound (PlanKeeps s.query_replay_markers) (revoke_plan human id now s) =
        search markers depth 14 in
      kept.holds (write t v) e
  planned-KeepsMarkers (Planned.paired human now b s t v e) =
      let kept : Sound (PlanKeeps s.query_replay_markers) (pair_plan human now b s) =
        search markers depth 14 in
      kept.holds (write t v) e
  planned-KeepsMarkers (Planned.queried owner q s t u e) =
      let kept : Sound (PlanKeeps s.query_replay_markers) (query_plan owner q s) =
        search markers depth 14 in
      kept.holds (write t u) e
  planned-KeepsMarkers (Planned.provisioned uid draft v create_only allowed s t r e) =
      let kept : Sound (PlanKeeps s.query_replay_markers)
          (provision_plan uid draft v create_only allowed s) =
        search markers depth 14 in
      kept.holds (write t r) e
  planned-KeepsMarkers (Planned.registered image check s t i e) =
      let kept : Sound (PlanKeeps s.query_replay_markers) (register_plan image check s) =
        search markers depth 14 in
      kept.holds (write t i) e
  planned-KeepsMarkers (Planned.invalidated recovered io s t e) =
      (invalidate-markers recovered io s).holds t e
