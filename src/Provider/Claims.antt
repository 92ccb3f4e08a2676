-- ===== src/Provider/Claims.antt =====
-- A claim is made once.
use vaultwarden_cli.Base.{
  ℕ, ◌≡◌, refl, ap, sym, ◌∙◌, Bool, true, false, not, ◌&&◌, some, text_eq, Text, arith, Result, ok,
  err, is_ok, Sound, soundness, Sound-ok,
}
use vaultwarden_cli.Host.{Host}
use vaultwarden_cli.Request.Types.{DirectRecord, ApprovalBinding, RequestError}
use vaultwarden_cli.State.Types.{ProviderState, RequestRecord}
use vaultwarden_cli.Provider.Defs.{
  Plan, write, keep, answer, find_request, find_direct, with_request, visible,
}
use vaultwarden_cli.Provider.Execution.{claim_plan}
use vaultwarden_cli.Provider.Runs.{Runs}
use vaultwarden_cli.Provider.Evolution.{some-injective}
use vaultwarden_cli.Provider.Growth.{visible-some}
use vaultwarden_cli.Provider.Lookup.{find_direct-replace, found_direct}
use vaultwarden_cli.Provider.Kept.{runs_find}

unclaimed :
    (d c : DirectRecord) (p q : Bool)
    → c ≡ d
    → d.execution_claimed ≡ true
    → (p && q && not c.execution_claimed) ≡ true
    → ⊥
unclaimed d c p q e l t = ground (arith, ap (λ x. x.execution_claimed) e)

-- A plan that claims writes the request, claimed.
unfoldable Claims : Text → Plan ApprovalBinding → Type 0
Claims id (write t b) =
    (d : DirectRecord) × (find_direct id t.requests ≡ some d) × (d.execution_claimed ≡ true)
Claims id (keep t b) = Unit {0}
Claims id (answer b) = Unit {0}

never_ok : {E A : Type 0} (m : Result E A) → ((a : A) → m ≡ ok a → ⊥) → is_ok m ≡ false
never_ok (ok a) k = absurd (k a refl)
never_ok (err e) k = refl

module _ ⦃h : Host⦄ where
  claimed-found :
      (id : Text) (s : ProviderState) (r : RequestRecord) (d : DirectRecord) (b : ApprovalBinding)
      → find_request id s.requests ≡ some r
      → Sound {E = RequestError} (Claims id) (
          ok (
            write
              (with_request s id
                (record r { direct = some (record d { execution_claimed = true }) }))
              b))
  unfolding Claims
  claimed-found id s r d b e = Sound-ok _ (
    record d { execution_claimed = true },
    find_direct-replace id s.requests r
        (record r { direct = some (record d { execution_claimed = true }) }) e refl,
    refl,
  )

  claim-found :
      (human provider_uid : ℕ) (id : Text) (s : ProviderState)
      → Sound (Claims id) (claim_plan human provider_uid id s)
  unfolding claim_plan
  claim-found human provider_uid id s = search (soundness, claimed-found) depth 10

  spent :
      {A : Type 0} (human provider_uid : ℕ) (id : Text) (s : ProviderState) (r : RequestRecord)
      (d c : DirectRecord) (p q : Bool) (m : Result RequestError A)
      → find_direct id s.requests ≡ some d
      → d.execution_claimed ≡ true
      → find_request id s.requests ≡ some r
      → visible human provider_uid r.direct ≡ some c
      → (p && q && not c.execution_claimed) ≡ true
      → Sound (λ _. ⊥) m
  unfolding find_direct
  spent human provider_uid id s r d c p q m e l f g t = absurd (
      unclaimed d c p q
        (some-injective (
          sym (visible-some human provider_uid r.direct g)
          ∙ sym (found_direct id s.requests r f)
          ∙ e))
        l t)

  claim-refused :
      (human provider_uid : ℕ) (id : Text) (s : ProviderState) (d : DirectRecord)
      → find_direct id s.requests ≡ some d
      → d.execution_claimed ≡ true
      → Sound (λ _. ⊥) (claim_plan human provider_uid id s)
  unfolding claim_plan
  claim-refused human provider_uid id s d e c = search (soundness, spent) depth 10

  -- A request is claimed once: after a claim, whatever the provider then does, no claim of the same
  -- request succeeds, whoever makes it.
  pub claim-once :
      (uid human provider_uid : ℕ) (id : Text) (s t u : ProviderState) (b : ApprovalBinding)
      → claim_plan human provider_uid id s ≡ ok (write t b)
      → Runs uid t u
      → (human' provider_uid' : ℕ) → is_ok (claim_plan human' provider_uid' id u) ≡ false
  unfolding Claims
  claim-once uid human provider_uid id s t u b e r human' provider_uid' =
      let (d, at, c) = (claim-found human provider_uid id s).holds (write t b) e in
      let (d', at', v) = runs_find uid id t u r at in
      never_ok (claim_plan human' provider_uid' id u)
        (claim-refused human' provider_uid' id u d' at' (v.claimed c)).holds
