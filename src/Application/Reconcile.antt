-- ===== src/Application/Reconcile.antt =====
-- `reconcile_write` of src/access/application.rs: a human names the item of an uncertain write.
use vaultwarden_cli.Base.{ℕ, ◌==◌, text_eq, Text, is_none_or}
use vaultwarden_cli.Host.{Host}
use vaultwarden_cli.Storage.{WriteReceipt, valid_id}
use vaultwarden_cli.Request.Types.{RequestError}
use vaultwarden_cli.Provider.Writes
use vaultwarden_cli.Provider.Writes.{write_reconciliation}
use vaultwarden_cli.Provider.Calls.{reconcile_write-Moves}
use vaultwarden_cli.Application.Types.{Settings}
use vaultwarden_cli.Application.Action.{Action, ◌>>=◌, ◌>>◌, check, unless, ask, call, read}
use vaultwarden_cli.Application.Authority.{admit, check_owner}
use vaultwarden_cli.Application.Decision.{session}
use vaultwarden_cli.Application.Follows.{Hold, Keeps, keeping, call-Keeps}
use vaultwarden_cli.Application.Kept.{admit-Keeps}

module _ ⦃h : Host⦄ where
  -- The session is asked for before the receipt is read, and after each answer of the backend.
  unfoldable pub reconcile_write : Settings → ℕ → Text → Text → Action RequestError WriteReceipt
  reconcile_write c owner id item = do
    check_owner c owner
    check (valid_id item) RequestError.invalid_request
    session admit
    found ← read (λ p io. write_reconciliation p id io)
    check (is_none_or (λ old. old == item) found.1.item_id) RequestError.invalid_request
    probe ← ask (λ o n. o.probe_compatibility n)
    session (unless probe)
    session admit
    verdict ← ask (λ o n. o.reconcile_secret n found.0 item)
    session (unless verdict)
    session admit
    call (λ p io. Writes.reconcile_write p id item io)

  pub reconcile_write-Keeps :
      (c : Settings) (owner : ℕ) (id item : Text)
      → Keeps Hold.kept (reconcile_write c owner id item)
  unfolding reconcile_write
  reconcile_write-Keeps c owner id item =
      search (keeping, admit-Keeps, call-Keeps, reconcile_write-Moves) depth 30
