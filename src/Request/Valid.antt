-- ===== src/Request/Valid.antt =====
-- The parts of `DirectRecord::validate`, each with its name.
use vaultwarden_cli.Base.{
  ℕ, ◌≡◌, true, not, ◌&&◌, ◌||◌, Text, ◌==◌, text_eq, is_none_or, is_some, arith,
}
use vaultwarden_cli.Host.{Host}
use vaultwarden_cli.Ident.{valid_sha256}
use vaultwarden_cli.Request.Types.{DirectRecord, binding_eq}
use vaultwarden_cli.Request.Status.{exit_in_range}
use vaultwarden_cli.Request.Record.{
  validate, validate_history, receipt_valid, approval_binding, shape_valid, digest, is_live,
  legacy_one_time_text,
}

pub record IsValid ⦃h : Host⦄ (d : DirectRecord) (id : Text) (epoch : ℕ) : Type 0 where
  pub receipt : is_none_or (receipt_valid d.review d.execution_claimed) d.write_receipt ≡ true
  pub sealed : (d.binding_digest == digest d) ≡ true
  pub replay : is_none_or (λ m. is_some d.agent_owner && valid_sha256 m) d.replay_digest ≡ true
  pub approval : is_none_or (λ b. b == approval_binding d) d.approval ≡ true
  pub live :
      (not (is_live d.review.status)
        || is_some d.approval
        || d.review.one_time == legacy_one_time_text)
      ≡ true
  pub history : validate_history d ≡ true
  pub shape : shape_valid d id epoch ≡ true
  pub exit : exit_in_range d.review.status ≡ true

module _ ⦃h : Host⦄ (d : DirectRecord) (id : Text) (epoch : ℕ) where
  pub validate-parts : validate d id epoch ≡ true → IsValid d id epoch
  unfolding validate
  validate-parts v = ground arith

  pub validate-intro : IsValid d id epoch → validate d id epoch ≡ true
  unfolding validate
  validate-intro p = ground arith
