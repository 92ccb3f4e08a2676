-- ===== src/Host.antt =====
-- What the source calls outside this repository: the base64, sha2 and ed25519-dalek crates, the
-- bytes that serde_json writes, the parser of IP addresses, and the check of an image file.
use vaultwarden_cli.Base.{Bool, Option, List, Text}
use vaultwarden_cli.Policy.Types.{PolicyProjection}
use vaultwarden_cli.Request.Types.{RecordProjection}

pub record Host : Type 0 where
  -- `URL_SAFE_NO_PAD`, `STANDARD_NO_PAD` and `STANDARD` of base64
  pub url_decode : Text → Option Text
  pub url_encode : Text → Text
  pub std_decode : Text → Option Text
  pub std_encode : Text → Text
  pub pad_decode : Text → Option Text
  -- `Sha256::digest`
  pub sha256 : Text → Text
  -- `serde_json::to_vec` of the policy and record projections, and of `(1u8, values)`
  pub policy_bytes : PolicyProjection → Text
  pub record_bytes : RecordProjection → Text
  pub arguments_bytes : List Text → Text
  -- `VerifyingKey::from_bytes`, `is_weak`, the recompressed point, and `verify_strict`
  pub key_accepts : Text → Bool
  pub key_is_weak : Text → Bool
  pub key_recompressed : Text → Text
  pub verify_strict : Text → Text → Text → Bool
  -- `parse::<IpAddr>()` followed by `to_string()`
  pub canonical_ip : Text → Option Text
  -- `executable_identity_matches`: the file at a path has a digest and is a regular image
  pub image_matches : Text → Text → Bool
