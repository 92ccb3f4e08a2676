-- ===== src/Provider/Refines.antt =====
-- The provider as its requesters see it: every run takes a request along its lifecycle.
use vaultwarden_cli.Base.{ℕ, ◌≡◌, some, Text}
use vaultwarden_cli.Host.{Host}
use vaultwarden_cli.Request.Types.{DirectRecord}
use vaultwarden_cli.State.Types.{ProviderState}
use vaultwarden_cli.State.Lifecycle.{Reaches}
use vaultwarden_cli.Provider.Defs.{find_direct}
use vaultwarden_cli.Provider.Runs.{Runs}
use vaultwarden_cli.Provider.Kept.{runs_find}

module _ ⦃h : Host⦄ where
  -- Whatever the provider does, a request that it holds is held after it, and its status and claim
  -- have taken steps of the lifecycle only.
  pub runs-Reaches :
      (uid : ℕ) (id : Text) (s t : ProviderState) (d : DirectRecord)
      → Runs uid s t
      → find_direct id s.requests ≡ some d
      → (d' : DirectRecord) × (find_direct id t.requests ≡ some d')
        × Reaches d.review.status d.execution_claimed d'.review.status d'.execution_claimed
  runs-Reaches uid id s t d r e = let (d', at, v) = runs_find uid id s t r e in (d', at, v.path)
