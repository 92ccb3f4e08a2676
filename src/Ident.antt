-- ===== src/Ident.antt =====
-- The identifiers of src/access.rs and the decoded texts of src/access/direct_request.rs.
pub mod Laws
use vaultwarden_cli.Base.{
  ℕ, ◌+◌, ◌-◌, ◌/◌, ◌%◌, ◌≡◌, Bool, true, false, not, ◌&&◌, ◌||◌, Option, none, some, List, [], ◌∷◌,
  ◌++◌, leb, ltb, ◌==◌, nat_eq, text_eq, if◌then◌else◌, Text, all, is_empty, length, is_some_and,
}
use vaultwarden_cli.Strings.{is_lower, is_digit, is_hex, is_graphic, ends_with}
use vaultwarden_cli.Host.{Host}

-- Each byte after the first, with the byte before it.
op_tail : ℕ → Text → Bool
op_tail p [] = true
op_tail p (b ∷ bs) = (is_lower b || is_digit b || (b == b'-' && not (p == b'-'))) && op_tail b bs

op_bytes : Text → Bool
unfolding op_tail
op_bytes [] = true
op_bytes (b ∷ bs) = is_lower b && op_tail b bs

unfoldable pub valid_operation_id : Text → Bool
unfolding op_bytes
valid_operation_id v = not (is_empty v) && leb (length v) 64 && op_bytes v && not (ends_with b'-' v)

unfoldable pub valid_sha256 : Text → Bool
valid_sha256 v = length v == 64 && all is_hex v

unfoldable pub valid_agent_id : Text → Bool
valid_agent_id v = not (is_empty v) && leb (length v) 128 && all is_graphic v

-- One digit of `{byte:02x}`.
hex_digit : ℕ → ℕ
hex_digit n = if ltb n 10 then b'0' + n else b'a' + (n - 10)

hex_bytes : Text → Text
hex_bytes [] = []
hex_bytes (b ∷ bs) = hex_digit (b / 16) ∷ hex_digit (b % 16) ∷ hex_bytes bs

module _ ⦃h : Host⦄ where
  unfoldable pub hex_sha256 : Text → Text
  unfolding hex_digit hex_bytes
  hex_sha256 t = hex_bytes (h.sha256 t)

  -- The text decodes to `n` bytes and is their canonical encoding.
  unfoldable pub decodes_to : ℕ → Text → Bool
  decodes_to n v = is_some_and (λ bs. length bs == n && h.url_encode bs == v) (h.url_decode v)

  unfoldable pub valid_request_id : Text → Bool
  unfolding decodes_to
  valid_request_id v = decodes_to 32 v

  -- `decode_public_key`: the bytes of the key.
  unfoldable pub decode_public_key : Text → Option Text
  decode_public_key v = elim (h.url_decode v) [
    | none ↦ none
    | some bs ↦
        if length bs == 32
          && h.key_accepts bs
          && not (h.key_is_weak bs)
          && h.key_recompressed bs == bs
          && h.url_encode bs == v
        then some bs
        else none
  ]
