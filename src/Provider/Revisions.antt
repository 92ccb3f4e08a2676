-- ===== src/Provider/Revisions.antt =====
-- The policy of an operation over a run: it keeps another revision than one that is not provisioned.
use vaultwarden_cli.Base.{
  ◌≡◌, refl, ap, ◌∙◌, subst, ℕ, Bool, true, false, ◌&&◌, ◌||◌, some, ◌∷◌, ◌==◌, text_eq, Text, ok,
  inl, inr, Bool-cases, arith, suc, length,
}
use vaultwarden_cli.Host.{Host}
use vaultwarden_cli.Policy.Types.{OperationPolicy, OperationPolicyDraft}
use vaultwarden_cli.State.Types.{ProviderState}
use vaultwarden_cli.Provider.Defs.{write, find_operation}
use vaultwarden_cli.Provider.Catalogue.{Eligibility, provision_plan}
use vaultwarden_cli.Provider.Runs.{Planned, Runs, stop, run}
use vaultwarden_cli.Provider.Upsert.{provision-Provisioned}
use vaultwarden_cli.Provider.Policies.{
  PlanSame, create-same, decide-same, expire-same, launch-same, cancel-same, claim-same,
  started-same, finish-same, begin-same, record-same, reconcile-same, revoke-same, pair-same,
  query-same, register-same, invalidate-same,
}

longer-differs : (t : Text) (b : ℕ) → (t == b ∷ t) ≡ false
longer-differs t b = elim (Bool-cases (t == b ∷ t)) [
  | inl same ↦ absurd (shorter (ap length ((text_eq.eq_iff t (b ∷ t)).0 same)))
  | inr other ↦ other
]
  where
    shorter : length t ≡ suc (length t) → ⊥
    shorter h = omega arith

-- The operation has a policy of another revision.
pub record Differs (id revision : Text) (s : ProviderState) : Type 0 where
  pub policy : OperationPolicy
  pub found : find_operation id s.operations ≡ some policy
  pub other : (policy.revision == revision) ≡ false

same-Differs :
    (id revision : Text) (s t : ProviderState)
    → t.operations ≡ s.operations
    → Differs id revision s
    → Differs id revision t
same-Differs id revision s t e x = record {
  policy = x.policy;
  found = ap (find_operation id) e ∙ x.found;
  other = x.other;
}

module _ ⦃h : Host⦄ where
  -- A write that provisions this revision for this operation.
  unfoldable pub restores : Text → Text → {s t : ProviderState} → Planned s t → Bool
  restores id revision (Planned.begun _ _ _ _ _) = false
  restores id revision (Planned.created _ _ _ _ _ _ _ _ _ _) = false
  restores id revision (Planned.decided _ _ _ _ _ _ _ _) = false
  restores id revision (Planned.expired _ _ _ _ _ _ _) = false
  restores id revision (Planned.launch_failed _ _ _ _ _ _) = false
  restores id revision (Planned.cancelled _ _ _ _ _ _ _ _) = false
  restores id revision (Planned.claimed _ _ _ _ _ _ _) = false
  restores id revision (Planned.started _ _ _ _ _ _) = false
  restores id revision (Planned.finished _ _ _ _ _ _ _ _) = false
  restores id revision (Planned.recorded _ _ _ _ _ _ _) = false
  restores id revision (Planned.reconciled _ _ _ _ _ _ _) = false
  restores id revision (Planned.revoked _ _ _ _ _ _ _) = false
  restores id revision (Planned.paired _ _ _ _ _ _ _) = false
  restores id revision (Planned.queried _ _ _ _ _ _) = false
  restores id revision (Planned.provisioned _ draft _ _ _ _ _ given _) =
      draft.id == id && given == revision
  restores id revision (Planned.registered _ _ _ _ _ _) = false
  restores id revision (Planned.invalidated _ _ _ _ _) = false

  -- A run in which this revision is provisioned for this operation.
  unfoldable pub restored : Text → Text → {uid : ℕ} {s t : ProviderState} → Runs uid s t → Bool
  unfolding restores
  restored id revision (stop _) = false
  restored id revision (run _ _ _ _ p rest) = restores id revision p || restored id revision rest

  pub written-Differs :
      (uid : ℕ) (d : OperationPolicyDraft) (v : Eligibility) (create_only allowed : Bool)
      (s t : ProviderState) (given revision : Text)
      → provision_plan uid d v create_only allowed s ≡ ok (write t given)
      → (given == revision) ≡ false
      → Differs d.id revision t
  written-Differs uid d v create_only allowed s t given revision e other =
      let made =
        provision-Provisioned uid d (0 ∷ d.id) v create_only allowed s t given
          (longer-differs d.id 0) e in
      record {
        policy = made.policy;
        found = made.found;
        other = ap (λ r. r == revision) made.revised ∙ other;
      }

  provisioned-Differs :
      (id revision : Text) (uid : ℕ) (d : OperationPolicyDraft) (v : Eligibility)
      (create_only allowed : Bool) (s t : ProviderState) (given : Text)
      → provision_plan uid d v create_only allowed s ≡ ok (write t given)
      → (d.id == id && given == revision) ≡ false
      → Differs id revision s
      → Differs id revision t
  provisioned-Differs id revision uid d v create_only allowed s t given e f x =
      elim (Bool-cases (d.id == id)) [
        | inl same ↦
            subst (λ k. Differs k revision t) ((text_eq.eq_iff d.id id).0 same)
              (written-Differs uid d v create_only allowed s t given revision e
                (ground (arith, f, same)))
        | inr differs ↦
            let made = provision-Provisioned uid d id v create_only allowed s t given differs e in
            record { policy = x.policy; found = made.unchanged ∙ x.found; other = x.other }
      ]

  planned-Differs :
      (id revision : Text) {s t : ProviderState} (p : Planned s t)
      → restores id revision p ≡ false
      → Differs id revision s
      → Differs id revision t
  unfolding restores PlanSame
  planned-Differs id revision (Planned.created who input now expires allowed io s t v e) f x =
      same-Differs id revision s t
        ((create-same who input now expires allowed io s).holds (write t v) e) x
  planned-Differs id revision (Planned.decided b approve method now s t v e) f x =
      same-Differs id revision s t ((decide-same b approve method now s).holds (write t v) e) x
  planned-Differs id revision (Planned.expired now deadlines io s t u e) f x =
      same-Differs id revision s t ((expire-same now deadlines io s).holds (write t u) e) x
  planned-Differs id revision (Planned.launch_failed request io s t u e) f x =
      same-Differs id revision s t ((launch-same request io s).holds (write t u) e) x
  planned-Differs id revision (Planned.cancelled human uid request io s t u e) f x =
      same-Differs id revision s t ((cancel-same human uid request io s).holds (write t u) e) x
  planned-Differs id revision (Planned.claimed human uid request s t b e) f x =
      same-Differs id revision s t ((claim-same human uid request s).holds (write t b) e) x
  planned-Differs id revision (Planned.started b io s t u e) f x =
      same-Differs id revision s t ((started-same b io s).holds (write t u) e) x
  planned-Differs id revision (Planned.finished b status cleanup io s t u e) f x =
      same-Differs id revision s t ((finish-same b status cleanup io s).holds (write t u) e) x
  planned-Differs id revision (Planned.begun b s t u e) f x =
      same-Differs id revision s t ((begin-same b s).holds (write t u) e) x
  planned-Differs id revision (Planned.recorded b item status s t u e) f x =
      same-Differs id revision s t ((record-same b item status s).holds (write t u) e) x
  planned-Differs id revision (Planned.reconciled request item io s t v e) f x =
      same-Differs id revision s t ((reconcile-same request item io s).holds (write t v) e) x
  planned-Differs id revision (Planned.revoked human request now s t v e) f x =
      same-Differs id revision s t ((revoke-same human request now s).holds (write t v) e) x
  planned-Differs id revision (Planned.paired human now b s t v e) f x =
      same-Differs id revision s t ((pair-same human now b s).holds (write t v) e) x
  planned-Differs id revision (Planned.queried owner q s t u e) f x =
      same-Differs id revision s t ((query-same owner q s).holds (write t u) e) x
  planned-Differs id revision (Planned.provisioned uid d v create_only allowed s t given e) f x =
      provisioned-Differs id revision uid d v create_only allowed s t given e f x
  planned-Differs id revision (Planned.registered image check s t i e) f x =
      same-Differs id revision s t ((register-same image check s).holds (write t i) e) x
  planned-Differs id revision (Planned.invalidated recovered io s t e) f x =
      same-Differs id revision s t ((invalidate-same recovered io s).holds t e) x

  either : (a b : Bool) → (a || b) ≡ false → (a ≡ false) × (b ≡ false)
  either false b e = (refl, e)
  either true b e = cc

  -- Another revision stays, until this one is provisioned.
  pub runs-Differs :
      (id revision : Text) (uid : ℕ) (s t : ProviderState) (r : Runs uid s t)
      → restored id revision r ≡ false
      → Differs id revision s
      → Differs id revision t
  unfolding restored
  runs-Differs id revision uid s t (stop _) f x = x
  runs-Differs id revision uid s u (run _ t _ valid p rest) f x =
      let (first, later) = either (restores id revision p) (restored id revision rest) f in
      runs-Differs id revision uid t u rest later (planned-Differs id revision p first x)
