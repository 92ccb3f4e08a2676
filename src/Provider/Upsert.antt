-- ===== src/Provider/Upsert.antt =====
-- What provisioning leaves: the policy under its identifier, and every other policy as it was.
use vaultwarden_cli.Base.{
  ℕ, ◌≡◌, refl, sym, ap, ◌∙◌, subst, Bool, true, false, none, some, List, [], ◌∷◌, ◌++◌, ◌==◌,
  text_eq, if◌then◌else◌, Text, any, update_first, ok, Sound, soundness, Sound-ok, Bool-cases, inl,
  inr, arith, beq_refl,
}
use vaultwarden_cli.Host.{Host}
use vaultwarden_cli.Policy.Types.{ApprovedImage, OperationPolicy, OperationPolicyDraft}
use vaultwarden_cli.Policy.Draft.{from_draft, canonicalize_draft}
use vaultwarden_cli.State.Types.{ProviderState}
use vaultwarden_cli.State.Validate.{state_valid}
use vaultwarden_cli.Provider.Defs.{Plan, write, keep, answer, find_operation}
use vaultwarden_cli.Provider.Evolution.{some-injective}
use vaultwarden_cli.Provider.Catalogue.{
  Eligibility, upsert, upserted, policy_eligible, provision_plan,
}

abbrev named : Text → OperationPolicy → Bool
named id q = q.id == id

found-same :
    (id : Text) (p : OperationPolicy) (ps : List OperationPolicy)
    → named id p ≡ true
    → find_operation id (p ∷ ps) ≡ some p
unfolding find_operation
found-same id p ps h = rw h refl

found-other :
    (id : Text) (p : OperationPolicy) (ps : List OperationPolicy)
    → named id p ≡ false
    → find_operation id (p ∷ ps) ≡ find_operation id ps
unfolding find_operation
found-other id p ps h = rw h refl

update-found :
    (p : OperationPolicy) (ps : List OperationPolicy)
    → any (named p.id) ps ≡ true
    → find_operation p.id (update_first (named p.id) p ps) ≡ some p
update-found p [] h = absurd (ground arith)
update-found p (q ∷ ps) h = elim (Bool-cases (named p.id q)) [
  | inl here ↦ rw here (found-same p.id p ps (beq_refl p.id))
  | inr there ↦ rw there (found-other p.id q _ there ∙ update-found p ps (ground arith))
]

append-found :
    (p : OperationPolicy) (ps : List OperationPolicy)
    → any (named p.id) ps ≡ false
    → find_operation p.id (ps ++ p ∷ []) ≡ some p
append-found p [] h = found-same p.id p [] (beq_refl p.id)
append-found p (q ∷ ps) h =
    found-other p.id q (ps ++ p ∷ []) (ground arith) ∙ append-found p ps (ground arith)

update-others :
    (id : Text) (p : OperationPolicy) (ps : List OperationPolicy)
    → named id p ≡ false
    → find_operation id (update_first (named p.id) p ps) ≡ find_operation id ps
update-others id p [] h = refl
update-others id p (q ∷ ps) h = elim (Bool-cases (named p.id q)) [
  | inl here ↦ rw here (found-other id p ps h ∙ sym (found-other id q ps (differs here)))
  | inr there ↦ rw there (elim (Bool-cases (named id q)) [
    | inl first ↦ found-same id q _ first ∙ sym (found-same id q ps first)
    | inr later ↦
        found-other id q _ later ∙ update-others id p ps h ∙ sym (found-other id q ps later)
  ])
]
  where
    differs : named p.id q ≡ true → named id q ≡ false
    differs here = subst (λ i. (i == id) ≡ false) (sym ((text_eq.eq_iff q.id p.id).0 here)) h

append-others :
    (id : Text) (p : OperationPolicy) (ps : List OperationPolicy)
    → named id p ≡ false
    → find_operation id (ps ++ p ∷ []) ≡ find_operation id ps
append-others id p [] h = found-other id p [] h
append-others id p (q ∷ ps) h = elim (Bool-cases (named id q)) [
  | inl first ↦ found-same id q _ first ∙ sym (found-same id q ps first)
  | inr later ↦ found-other id q _ later ∙ append-others id p ps h ∙ sym (found-other id q ps later)
]

upsert-found :
    (p : OperationPolicy) (ps : List OperationPolicy) → find_operation p.id (upsert p ps) ≡ some p
unfolding upsert
upsert-found p ps = elim (Bool-cases (any (named p.id) ps)) [
  | inl there ↦ rw there (update-found p ps there)
  | inr new ↦ rw new (append-found p ps new)
]

upsert-others :
    (id : Text) (p : OperationPolicy) (ps : List OperationPolicy)
    → named id p ≡ false
    → find_operation id (upsert p ps) ≡ find_operation id ps
unfolding upsert
upsert-others id p ps h = elim (Bool-cases (any (named p.id) ps)) [
  | inl there ↦ rw there (update-others id p ps h)
  | inr new ↦ rw new (append-others id p ps h)
]

if_some : {A : Type 0} (b : Bool) (x : A) {y : A} → (if b then some x else none) ≡ some y → x ≡ y
if_some true x e = some-injective e
if_some false x e = cc

module _ ⦃h : Host⦄ where
  from_draft-id :
      (d : OperationPolicyDraft) (i : ApprovedImage) {p : OperationPolicy}
      → from_draft d i ≡ some p
      → p.id ≡ d.id
  unfolding from_draft canonicalize_draft
  from_draft-id d i e = sym (ap (λ q. q.id) (if_some _ _ e))

  -- What the state holds once a policy is provisioned, beside another identifier.
  pub record Provisioned (uid : ℕ) (id other : Text) (v : Eligibility) (s t : ProviderState)
      (revision : Text) : Type 0 where
    pub policy : OperationPolicy
    pub found : find_operation id t.operations ≡ some policy
    pub revised : policy.revision ≡ revision
    pub eligible : policy_eligible v policy ≡ true
    pub valid : state_valid t uid ≡ true
    pub unchanged : find_operation other t.operations ≡ find_operation other s.operations

  unfoldable PlanProvisions : ℕ → Text → Text → Eligibility → ProviderState → Plan Text → Type 0
  PlanProvisions uid id other v s (write t r) = Provisioned uid id other v s t r
  PlanProvisions uid id other v s (keep t r) = Unit {0}
  PlanProvisions uid id other v s (answer r) = Unit {0}

  upsert-Provisioned :
      (uid : ℕ) (d : OperationPolicyDraft) (other : Text) (v : Eligibility) (s : ProviderState)
      (i : ApprovedImage) (p : OperationPolicy)
      → (d.id == other) ≡ false
      → from_draft d i ≡ some p
      → policy_eligible v p ≡ true
      → state_valid (record s { operations = upsert p s.operations }) uid ≡ true
      → Provisioned uid d.id other v s (record s { operations = upsert p s.operations }) p.revision
  upsert-Provisioned uid d other v s i p differs e fit valid = record {
    policy = p;
    found =
        subst (λ id. find_operation id (upsert p s.operations) ≡ some p) same
          (upsert-found p s.operations);
    revised = refl;
    eligible = fit;
    valid = valid;
    unchanged =
        upsert-others other p s.operations (subst (λ id. (id == other) ≡ false) (sym same) differs);
  }
    where
      same : p.id ≡ d.id
      same = from_draft-id d i e

  written-Provisions :
      {E : Type 0} (uid : ℕ) (d : OperationPolicyDraft) (other : Text) (v : Eligibility)
      (s : ProviderState) (i : ApprovedImage) (p : OperationPolicy)
      → (d.id == other) ≡ false
      → from_draft d i ≡ some p
      → policy_eligible v p ≡ true
      → state_valid (record s { operations = upsert p s.operations }) uid ≡ true
      → Sound {E = E}
          (PlanProvisions uid d.id other v s)
          (ok (write (record s { operations = upsert p s.operations }) p.revision))
  unfolding PlanProvisions
  written-Provisions uid d other v s i p differs e fit valid =
      Sound-ok (write (record s { operations = upsert p s.operations }) p.revision)
        (upsert-Provisioned uid d other v s i p differs e fit valid)

  upserted-Provisions :
      (uid : ℕ) (d : OperationPolicyDraft) (other : Text) (v : Eligibility) (s : ProviderState)
      (i : ApprovedImage) (p : OperationPolicy)
      → (d.id == other) ≡ false
      → from_draft d i ≡ some p
      → policy_eligible v p ≡ true
      → Sound (PlanProvisions uid d.id other v s) (upserted uid p s)
  unfolding upserted
  upserted-Provisions uid d other v s i p differs e fit =
      search (soundness, written-Provisions) depth 8

  provision-Provisions :
      (uid : ℕ) (d : OperationPolicyDraft) (other : Text) (v : Eligibility)
      (create_only allowed : Bool) (s : ProviderState)
      → (d.id == other) ≡ false
      → Sound (PlanProvisions uid d.id other v s) (provision_plan uid d v create_only allowed s)
  unfolding provision_plan
  provision-Provisions uid d other v create_only allowed s differs =
      search (soundness, upserted-Provisions) depth 12

  -- A provisioning that plans a write leaves, under the draft's identifier, a policy of the revision
  -- that it answers, whose credentials the backend found eligible; the state is valid, and what any
  -- other identifier names is as before.
  pub provision-Provisioned :
      (uid : ℕ) (d : OperationPolicyDraft) (other : Text) (v : Eligibility)
      (create_only allowed : Bool) (s t : ProviderState) (revision : Text)
      → (d.id == other) ≡ false
      → provision_plan uid d v create_only allowed s ≡ ok (write t revision)
      → Provisioned uid d.id other v s t revision
  unfolding PlanProvisions
  provision-Provisioned uid d other v create_only allowed s t revision differs e =
      (provision-Provisions uid d other v create_only allowed s differs).holds (write t revision) e
