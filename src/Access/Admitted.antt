-- ===== src/Access/Admitted.antt =====
-- What a request that passes the preflight must be.
use vaultwarden_cli.Base.{
  ℕ, ◌≡◌, sym, ap, ◌∙◌, true, false, not, Option, some, ◌==◌, text_eq, ok, Sound, Sound-ok,
  Sound-bind, Sound-guard, Sound-option, Sound-map_err, arith,
}
use vaultwarden_cli.Host.{Host}
use vaultwarden_cli.Policy.Types.{OperationPolicy}
use vaultwarden_cli.Policy.Arguments.{validates_args}
use vaultwarden_cli.State.Types.{ProviderState, ProviderDiagnostic}
use vaultwarden_cli.State.Validate.{state_valid}
use vaultwarden_cli.Store.{ProviderStore, read_state}
use vaultwarden_cli.Provider.Defs.{find_operation}
use vaultwarden_cli.Provider.Transact.{read-durable}
use vaultwarden_cli.Access.Types.{AccessRequest, validate_access, is_expired_at}
use vaultwarden_cli.Access.Preflight.{preflight_request}

module _ ⦃h : Host⦄ where
  -- What an agent's request must be for it to pass.
  pub record Admitted (store : ProviderStore) (r : AccessRequest) (clock : Option ℕ) : Type 0 where
    pub valid : validate_access r ≡ ok tt
    pub now : ℕ
    pub told : clock ≡ some now
    pub alive : is_expired_at r now ≡ false
    pub policy : OperationPolicy
    pub found : find_operation r.operation_id store.durable.operations ≡ some policy
    pub current : (policy.revision == r.operation_revision) ≡ true
    pub accepted : validates_args policy r.args ≡ true
    pub consistent : state_valid store.durable store.owner_uid ≡ true

  Admitted-Sound :
      {E : Type 0} (store : ProviderStore) (r : AccessRequest) (clock : Option ℕ) (u : Unit {0})
      (now : ℕ) (failure : Option ProviderDiagnostic) (s : ProviderState) (p : OperationPolicy)
      → validate_access r ≡ ok u
      → clock ≡ some now
      → not (is_expired_at r now) ≡ true
      → read_state store failure ≡ ok s
      → find_operation r.operation_id s.operations ≡ some p
      → (p.revision == r.operation_revision) ≡ true
      → validates_args p r.args ≡ true
      → Sound {E = E} {A = Unit {0}} (λ _. Admitted store r clock) (ok tt)
  Admitted-Sound store r clock u now failure s p e1 e2 e3 e4 e5 e6 e7 =
      let (same, v, _) = (read-durable store failure).holds s e4 in
      Sound-ok tt record {
        valid = e1;
        now = now;
        told = e2;
        alive = ground arith;
        policy = p;
        found = ap (λ t. find_operation r.operation_id t.operations) (sym same) ∙ e5;
        current = e6;
        accepted = e7;
        consistent = ap (λ t. state_valid t store.owner_uid) (sym same) ∙ v;
      }

  preflight-Sound :
      (store : ProviderStore) (r : AccessRequest) (clock : Option ℕ)
      (failure : Option ProviderDiagnostic)
      → Sound (λ _. Admitted store r clock) (preflight_request store r clock failure)
  unfolding preflight_request
  preflight-Sound store r clock failure = Sound-map_err _ (validate_access r) _ λ u e1.
      Sound-option clock _ _ λ now e2. Sound-guard _ _ _ λ e3.
        Sound-bind (read_state store failure) _ λ s e4. Sound-option _ _ _ λ p e5.
          Sound-guard _ _ _ λ e6.
            Sound-guard _ _ _
              λ e7. Admitted-Sound store r clock u now failure s p e1 e2 e3 e4 e5 e6 e7

  -- A request that passes the preflight is valid and not expired, and the durable state, which is
  -- valid, holds under its operation's identifier a policy of its revision that takes its arguments.
  pub preflight-Admitted :
      (store : ProviderStore) (r : AccessRequest) (clock : Option ℕ)
      (failure : Option ProviderDiagnostic)
      → preflight_request store r clock failure ≡ ok tt
      → Admitted store r clock
  preflight-Admitted store r clock failure e = (preflight-Sound store r clock failure).holds tt e
