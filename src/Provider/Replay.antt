-- ===== src/Provider/Replay.antt =====
-- A replay marker is used once: by a submission or by a status query, and then never again.
use vaultwarden_cli.Base.{
  ℕ, ◌≡◌, refl, subst, sym, ap, ◌∙◌, Bool, true, false, not, ◌||◌, Option, none, some, List, [],
  ◌∷◌, ◌++◌, Text, text_eq, ◌==◌, beq_refl, any, ok, err, Result, Sound, soundness, Sound-ok,
  is_some_and, arith, ◌⊎◌, inl, inr, Bool-cases,
}
use vaultwarden_cli.Host.{Host}
use vaultwarden_cli.Request.Types.{DirectRecord, DirectReview, AgentOwner}
use vaultwarden_cli.Request.Record.{seal}
use vaultwarden_cli.Protocol.{
  AgentRejection, SignedSubmission, SignedStatusQuery, submission_marker, query_marker,
}
use vaultwarden_cli.State.Types.{
  ProviderState, RequestRecord, RequestLifecycleStatus, ProviderDiagnostic,
}
use vaultwarden_cli.State.Validate.{mem, replay_of}
use vaultwarden_cli.Store.{Io, ProviderStore, read_state}
use vaultwarden_cli.Provider.Defs.{Provider, Plan, keep, answer, write, query}
use vaultwarden_cli.Provider.Requests.{Submitter, DirectSubmission, create_plan, submitted}
use vaultwarden_cli.Provider.Signed.{
  rejected, is_used, unused, fresh_marker, submit_marked, create_signed, query_plan,
}
use vaultwarden_cli.Provider.Runs.{Planned, Runs, stop, run}
use vaultwarden_cli.Provider.Evolution.{Grows, OptionEvolves}
use vaultwarden_cli.Provider.Kept.{planned-Grows, is_begin}
use vaultwarden_cli.Provider.Markers.{planned-KeepsMarkers}

-- A write that uses a marker.
pub data Uses ⦃h : Host⦄ (m : Text) : ProviderState → ProviderState → Type 0 where
  submission :
      (who : Submitter) (input : DirectSubmission) (now expires : ℕ) (allowed : Bool) (io : Io)
      (s s' : ProviderState) (v : DirectReview)
      → who.replay_digest ≡ some m
      → create_plan who input now expires allowed io s ≡ ok (write s' v)
      → Uses m s s'
  status_query :
      (owner : AgentOwner) (q : SignedStatusQuery) (s s' : ProviderState) (u : Unit {0})
      → query_marker q ≡ ok m
      → query_plan owner q s ≡ ok (write s' u)
      → Uses m s s'

abbrev used_by : Text → RequestRecord → Bool
used_by m r = is_some_and (λ x. x == m) (replay_of r)

used_by-evolves :
    (b : Bool) (m : Text) (r r' : RequestRecord)
    → OptionEvolves b r.direct r'.direct
    → used_by m r ≡ true
    → used_by m r' ≡ true
unfolding OptionEvolves
used_by-evolves b m r r' v h = go r.direct r'.direct v h
  where
    go :
        (o o' : Option DirectRecord)
        → OptionEvolves b o o'
        → is_some_and (λ x. x == m) (elim o [ none ↦ none | some d ↦ d.replay_digest ]) ≡ true
        → is_some_and (λ x. x == m) (elim o' [ none ↦ none | some d ↦ d.replay_digest ]) ≡ true
    go none o' v h = absurd (ground arith)
    go (some d) none v h = absurd v
    go (some d) (some d') v h = subst (λ x. is_some_and (λ x. x == m) x ≡ true) (sym v.replay) h

Grows-used :
    (b : Bool) (m : Text) (rs ss : List RequestRecord)
    → Grows b rs ss
    → any (used_by m) rs ≡ true
    → any (used_by m) ss ≡ true
unfolding Grows
Grows-used b m [] ss g h = absurd (ground arith)
Grows-used b m (r ∷ rs) [] g h = absurd g
Grows-used b m (r ∷ rs) (s ∷ ss) (v, g) h = elim (Bool-cases (used_by m r)) [
  | inl here ↦ rw (used_by-evolves b m r s v.record_of here) refl
  | inr other ↦ ground (arith, Grows-used b m rs ss g)
]

any-append :
    (m : Text) (rs : List RequestRecord) (r : RequestRecord)
    → used_by m r ≡ true
    → any (used_by m) (rs ++ r ∷ []) ≡ true
any-append m [] r h = rw h refl
any-append m (x ∷ rs) r h = ground (arith, any-append m rs r h)

mem-last : (m : Text) (ms : List Text) → mem m (ms ++ m ∷ []) ≡ true
mem-last m [] = rw (beq_refl m) refl
mem-last m (x ∷ ms) = ground (arith, mem-last m ms)

or_intro : (a b : Bool) → (a ≡ true) ⊎ (b ≡ true) → (a || b) ≡ true
or_intro a b (inl e) = ground arith
or_intro a b (inr e) = ground arith

or_cases : (a b : Bool) → (a || b) ≡ true → (a ≡ true) ⊎ (b ≡ true)
or_cases true b e = inl refl
or_cases false b e = inr e

-- What never succeeds fails.
always_err : {E A : Type 0} (m : Result E A) → Sound (λ _. ⊥) m → (e : E) × (m ≡ err e)
always_err (ok a) s = absurd (s.holds a refl)
always_err (err e) s = (e, refl)

answers_only :
    {E A : Type 0} (m : Result E A) (x : A)
    → Sound (λ a. a ≡ x) m
    → ((e : E) × (m ≡ err e)) ⊎ (m ≡ ok x)
answers_only (ok a) x s = inr (ap ok (s.holds a refl))
answers_only (err e) x s = inl (e, refl)

read_cases :
    ⦃h : Host⦄ (s : ProviderStore) (failure : Option ProviderDiagnostic)
    → ((e : ProviderDiagnostic) × (read_state s failure ≡ err e))
      ⊎ (read_state s failure ≡ ok s.durable)
unfolding read_state
read_cases s failure =
    answers_only (read_state s failure) s.durable (record { holds = λ t e. ground arith })

module _ ⦃h : Host⦄ where
  planned-used :
      (m : Text) {s t : ProviderState} → Planned s t → is_used m s ≡ true → is_used m t ≡ true
  unfolding is_used
  planned-used m {s} {t} p e =
      or_intro (mem m t.query_replay_markers) _
        (elim (or_cases (mem m s.query_replay_markers) _ e) [
          | inl there ↦ inl (planned-KeepsMarkers p m there)
          | inr there ↦
              inr (Grows-used (is_begin p) m s.requests t.requests (planned-Grows p) there)
        ])

  pub runs-used :
      (uid : ℕ) (m : Text) (s t : ProviderState)
      → Runs uid s t
      → is_used m s ≡ true
      → is_used m t ≡ true
  runs-used uid m s t (stop _) e = e
  runs-used uid m s u (run _ t _ valid p rest) e = runs-used uid m t u rest (planned-used m p e)

  -- What a plan that uses a marker writes.
  unfoldable PlanUses : {A : Type 0} → Text → Plan A → Type 0
  PlanUses m (write s a) = is_used m s ≡ true
  PlanUses m (keep s a) = Unit {0}
  PlanUses m (answer a) = Unit {0}

  appended-Uses :
      {E A : Type 0} (m : Text) (s : ProviderState) (r : RequestRecord) {a : A}
      → used_by m r ≡ true
      → Sound {E = E} (PlanUses m) (ok (write (record s { requests = s.requests ++ r ∷ [] }) a))
  unfolding PlanUses is_used
  appended-Uses m s r e =
      Sound-ok _ (or_intro (mem m s.query_replay_markers) _ (inr (any-append m s.requests r e)))

  submitted-used :
      (m id : Text) (status : RequestLifecycleStatus) (who : Submitter) (now epoch : ℕ)
      (review : DirectReview)
      → who.replay_digest ≡ some m
      → used_by m
          (record { id = id; status = status; direct = some (submitted who now epoch review) })
        ≡ true
  unfolding submitted seal
  submitted-used m id status who now epoch review e =
      subst (λ o. is_some_and (λ x. x == m) o ≡ true) (sym e) (beq_refl m)

  create-Uses :
      (m : Text) (who : Submitter) (input : DirectSubmission) (now expires : ℕ) (allowed : Bool)
      (io : Io) (s : ProviderState)
      → who.replay_digest ≡ some m
      → Sound (PlanUses m) (create_plan who input now expires allowed io s)
  unfolding create_plan
  create-Uses m who input now expires allowed io s e =
      search (soundness, appended-Uses, submitted-used) depth 14

  marked-Uses :
      {E A : Type 0} (m n : Text) (q : SignedStatusQuery) (s : ProviderState) {a : A}
      → query_marker q ≡ ok m
      → query_marker q ≡ ok n
      → Sound {E = E}
          (PlanUses m)
          (ok (write (record s { query_replay_markers = s.query_replay_markers ++ n ∷ [] }) a))
  unfolding PlanUses is_used
  marked-Uses m n q s e f =
      let same : m ≡ n = cc in
      Sound-ok _ (
        or_intro _ _ (
          inl (
            subst (λ x. mem m (s.query_replay_markers ++ x ∷ []) ≡ true) same
              (mem-last m s.query_replay_markers))))

  query-Uses :
      (m : Text) (owner : AgentOwner) (q : SignedStatusQuery) (s : ProviderState)
      → query_marker q ≡ ok m
      → Sound (PlanUses m) (query_plan owner q s)
  unfolding query_plan
  query-Uses m owner q s e = search (soundness, marked-Uses) depth 10

  uses-used : (m : Text) {s s' : ProviderState} → Uses m s s' → is_used m s' ≡ true
  unfolding PlanUses
  uses-used m (Uses.submission who input now expires allowed io s s' v has e) =
      (create-Uses m who input now expires allowed io s has).holds (write s' v) e
  uses-used m (Uses.status_query owner q s s' u has e) =
      (query-Uses m owner q s has).holds (write s' u) e

  used-refused :
      (m : Text) (t : ProviderState) → is_used m t ≡ true → unused m t ≡ err AgentRejection.replay
  unfolding unused
  used-refused m t e = rw e refl

  -- A read answers the durable state or fails.
  read-durable :
      {A : Type 0} (p : Provider) (io : Io) (f : ProviderState → Result AgentRejection A)
      (e : AgentRejection)
      → f p.store.durable ≡ err e
      → (e' : AgentRejection) × (query rejected p io f ≡ err e')
  unfolding query
  read-durable p io f e refused = elim (read_cases p.store (io.reads 0)) [
    | inl (x, gone) ↦ (AgentRejection.unavailable, rw gone refl)
    | inr read ↦ (e, rw read refused)
  ]

  fresh_marker-refused :
      (p : Provider) (owner : AgentOwner) (input : SignedSubmission) (io : Io) (m : Text)
      → submission_marker input ≡ ok m
      → is_used m p.store.durable ≡ true
      → (e : AgentRejection) × (fresh_marker p owner input io ≡ err e)
  unfolding fresh_marker
  fresh_marker-refused p owner input io m em used =
      elim (Bool-cases (input.binding_id == owner.binding_id)) [
        | inl same ↦
            let (e, refused) =
              read-durable p io (unused m) AgentRejection.replay
                (used-refused m p.store.durable used) in
            (e, rw (same, em) refused)
        | inr other ↦ (AgentRejection.unauthorized, rw other refl)
      ]

  -- Once a submission or a status query has used a marker, and whatever the provider then does, a
  -- signed submission with the same marker is refused and changes nothing.
  pub submission-once :
      (uid : ℕ) (m : Text) (s s' : ProviderState) (p : Provider) (owner : AgentOwner)
      (input : SignedSubmission) (now expires : ℕ) (allowed : Bool) (first io : Io)
      → Uses m s s'
      → Runs uid s' p.store.durable
      → submission_marker input ≡ ok m
      → (e : AgentRejection) × (create_signed p owner input now expires allowed first io
          ≡ (err e, p))
  unfolding create_signed
  submission-once uid m s s' p owner input now expires allowed first io u r em =
      let (e, refused) =
        fresh_marker-refused p owner input first m em
          (runs-used uid m s' p.store.durable r (uses-used m u)) in
      (e, ap (submit_marked p owner input now expires allowed io) refused)

  no_fresh :
      {E A : Type 0} (m n : Text) (q : SignedStatusQuery) (t : ProviderState) (k : Result E A)
      → query_marker q ≡ ok m
      → query_marker q ≡ ok n
      → is_used m t ≡ true
      → not (is_used n t) ≡ true
      → Sound (λ _. ⊥) k
  no_fresh m n q t k em en used fresh = let same : ok m ≡ ok n = sym em ∙ en in absurd (clash same)
    where
      clash : ◌≡◌ {A = Result AgentRejection Text} (ok m) (ok n) → ⊥
      clash same = let x : m ≡ n = cc in absurd (ground arith)

  query-refused :
      (m : Text) (owner : AgentOwner) (q : SignedStatusQuery) (t : ProviderState)
      → query_marker q ≡ ok m
      → is_used m t ≡ true
      → Sound (λ _. ⊥) (query_plan owner q t)
  unfolding query_plan
  query-refused m owner q t em used = search (soundness, no_fresh) depth 12

  -- Once a submission or a status query has used a marker, and whatever the provider then does, a
  -- status query with the same marker plans no write.
  pub query-once :
      (uid : ℕ) (m : Text) (s s' t : ProviderState) (owner : AgentOwner) (q : SignedStatusQuery)
      → Uses m s s'
      → Runs uid s' t
      → query_marker q ≡ ok m
      → (e : AgentRejection) × (query_plan owner q t ≡ err e)
  query-once uid m s s' t owner q u r em =
      always_err (query_plan owner q t)
        (query-refused m owner q t em (runs-used uid m s' t r (uses-used m u)))
