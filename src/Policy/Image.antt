-- ===== src/Policy/Image.antt =====
-- Approved images of src/access/policy.rs.
use vaultwarden_cli.Base.{Bool, false, not, ◌&&◌, List, [], ◌∷◌, ◌==◌, text_eq, Text, is_empty}
use vaultwarden_cli.Host.{Host}
use vaultwarden_cli.Ident.{valid_operation_id, valid_sha256}
use vaultwarden_cli.Policy.Types.{
  ApprovedImage, ResolvedImage, OperationPolicy, execution_profile_eq,
}
use vaultwarden_cli.Policy.Ssh.{valid_image_path, components}

-- `strip_prefix` of a path leaves something: the prefix's components, then at least one more.
unfoldable pub below : List Text → List Text → Bool
below [] ps = not (is_empty ps)
below (r ∷ rs) [] = false
below (r ∷ rs) (p ∷ ps) = r == p && below rs ps

module _ ⦃h : Host⦄ where
  -- `ApprovedImage::new` succeeds; so also `validate_integrity`.
  unfoldable pub image_valid : ApprovedImage → Bool
  unfolding below
  image_valid i =
      valid_operation_id i.id
      && valid_image_path i.execution_root
      && valid_image_path i.path
      && below (components i.execution_root) (components i.path)
      && valid_sha256 i.sha256
      && h.image_matches i.path i.sha256

unfoldable pub resolve_image : ApprovedImage → ResolvedImage
resolve_image i = record {
  image_id = i.id;
  execution_root = i.execution_root;
  path = i.path;
  sha256 = i.sha256;
  profile = i.profile;
}

-- The registry entry that a stored policy is rebuilt from.
unfoldable pub approved_of : ResolvedImage → ApprovedImage
approved_of i = record {
  id = i.image_id;
  execution_root = i.execution_root;
  path = i.path;
  sha256 = i.sha256;
  profile = i.profile;
}

-- `OperationPolicy::image_matches`
unfoldable pub policy_image_matches : OperationPolicy → ApprovedImage → Bool
policy_image_matches p i =
    p.image.image_id == i.id
    && p.image.execution_root == i.execution_root
    && p.image.profile == i.profile
    && p.image.path == i.path
    && p.image.sha256 == i.sha256
