-- ===== src/Policy/Ssh.antt =====
-- Hosts, fingerprints and paths of the SSH profile of src/access/policy.rs.
use vaultwarden_cli.Base.{
  Bool, not, ◌&&◌, ◌||◌, Option, none, some, List, [], ◌∷◌, ◌++◌, map, leb, ltb, ◌==◌, nat_eq,
  text_eq, option_text_eq, if◌then◌else◌, Text, all, is_empty, is_some, length, last, is_some_and,
  and_then, drop, codes, print_digits,
}
use vaultwarden_cli.Strings.{
  is_alphanumeric, is_digit, is_hexdigit, to_lower, contains, ends_with, first, strip_prefix, split,
}
use vaultwarden_cli.Host.{Host}
use vaultwarden_cli.Policy.Types.{SshDestination, SshOperation, SshReview}

or_else : Option Text → Option Text → Option Text
or_else none y = y
or_else (some x) y = some x

-- A label that an address parser may read as a number.
numeric_label : Text → Bool
unfolding or_else
numeric_label p =
    all is_digit p
    || is_some_and (λ hex. not (is_empty hex) && all is_hexdigit hex)
        (or_else (strip_prefix (codes "0x") p) (strip_prefix (codes "0X") p))

host_label : Text → Bool
host_label l =
    not (is_empty l)
    && leb (length l) 63
    && is_some_and is_alphanumeric (first l)
    && is_some_and is_alphanumeric (last l)
    && all (λ b. is_alphanumeric b || b == b'-') l

-- `value.strip_suffix('.').unwrap_or(value)`
without_dot : Text → Text
without_dot [] = []
without_dot (b ∷ []) = if b == b'.' then [] else b ∷ []
without_dot (b ∷ c ∷ r) = b ∷ without_dot (c ∷ r)

normalize_name : Text → Option Text
unfolding numeric_label host_label
normalize_name host =
    if is_empty host
      || ltb 253 (length host)
      || all numeric_label (split b'.' host)
      || not (all host_label (split b'.' host))
    then none
    else some (map to_lower host)

-- `Path::components` of an absolute path: no empty part, no `.`.
abbrev pub components : Text → List Text
components v = drop_dots (split b'/' v)
  where
    drop_dots : List Text → List Text
    drop_dots [] = []
    drop_dots (p ∷ ps) =
        let rest = drop_dots ps in if is_empty p || p == codes "." then rest else p ∷ rest

unfoldable pub valid_image_path : Text → Bool
valid_image_path v =
    is_some_and (λ b. b == b'/') (first v)
    && leb (length v) 256
    && not (ends_with b'/' v)
    && all (λ p. not (is_empty p) && not (p == codes ".") && not (p == codes ".."))
        (drop 1 (split b'/' v))
    && all (λ p. not (p == codes "..")) (split b'/' v)

unfoldable pub valid_ssh_path : Text → Bool
valid_ssh_path v =
    (v == codes "/" || valid_image_path v)
    && all (λ b. is_alphanumeric b || contains b (codes "/._-")) v

module _ ⦃h : Host⦄ where
  unfoldable pub normalize_host : Text → Option Text
  unfolding normalize_name without_dot
  normalize_host v = elim (h.canonical_ip v) [
    | none ↦ normalize_name (without_dot v)
    | some ip ↦ some ip
  ]

  unfoldable pub normalize_fingerprint : Text → Option Text
  unfolding or_else
  normalize_fingerprint v = and_then (strip_prefix (codes "SHA256:") v) λ encoded.
      and_then (or_else (h.std_decode encoded) (h.pad_decode encoded))
        λ bytes. if length bytes == 32 then some (codes "SHA256:" ++ h.std_encode bytes) else none

  unfoldable pub valid_ssh_review : Text → SshDestination → Bool
  valid_ssh_review working_directory d =
      valid_ssh_path working_directory
      && valid_ssh_path d.resource_path
      && is_some (normalize_host d.host)
      && not (d.port == 0)
      && not (is_empty d.user)
      && leb (length d.user) 64
      && is_some_and is_alphanumeric (first d.user)
      && all (λ b. is_alphanumeric b || contains b (codes "_.-")) d.user
      && is_some (normalize_fingerprint d.host_fingerprint)

  -- `SshReview::valid`
  unfoldable pub ssh_valid : SshReview → Bool
  ssh_valid r =
      valid_ssh_review r.working_directory r.destination
      && normalize_host r.destination.host == some r.destination.host
      && normalize_fingerprint r.destination.host_fingerprint == some r.destination.host_fingerprint

-- `SshReview::target`
unfoldable pub ssh_target : SshReview → Text
ssh_target r =
    let d = r.destination in
    let host = if contains b':' d.host then codes "[" ++ d.host ++ codes "]" else d.host in
    d.user ++ codes "@" ++ host ++ codes ":" ++ print_digits 20 d.port ++ d.resource_path

-- `SshOperation::review`
unfoldable pub ssh_review : SshOperation → SshReview
ssh_review o = record { working_directory = o.working_directory; destination = o.destination }
