-- ===== src/Storage.antt =====
-- Identifiers, destinations and write receipts of src/secret_storage.rs.
use vaultwarden_cli.Base.{
  ℕ, suc, Bool, true, not, ◌&&◌, ◌||◌, Option, none, some, [], ◌∷◌, leb, ◌==◌, nat_eq, text_eq,
  ℕ_discrete, PartialEq, of_discrete, if◌then◌else◌, Text, all, is_empty, length, last, is_some_and,
  and_then, codes,
}
use vaultwarden_cli.Strings.{
  is_lower, is_digit, is_alphanumeric, is_hex, contains, first, strip_prefix, split,
}

pub data WriteStatus : Type 0 where
  failed uncertain created_unverified verified : WriteStatus

pub record WriteReceipt : Type 0 where
  pub attempt_id : Text
  pub item_id : Option Text
  pub status : WriteStatus

pub record Destination : Type 0 where
  pub account_id : Text
  pub folder : Text
  pub folder_id : Text
  pub reference : Text

unfoldable pub WriteStatus-discrete : Discrete WriteStatus
WriteStatus-discrete = hlevel

unfoldable pub WriteReceipt-discrete : Discrete WriteReceipt
WriteReceipt-discrete = hlevel ℕ_discrete

unfoldable pub OptionReceipt-discrete : Discrete (Option WriteReceipt)
OptionReceipt-discrete = hlevel ℕ_discrete

unfoldable pub Destination-discrete : Discrete Destination
Destination-discrete = hlevel ℕ_discrete

instance abbrev pub write_status_eq : PartialEq WriteStatus
write_status_eq = of_discrete WriteStatus-discrete

instance abbrev pub option_receipt_eq : PartialEq (Option WriteReceipt)
option_receipt_eq = of_discrete OptionReceipt-discrete

instance abbrev pub destination_eq : PartialEq Destination
destination_eq = of_discrete Destination-discrete

unfoldable pub valid_field_name : Text → Bool
valid_field_name v =
    not (is_empty v)
    && leb (length v) 128
    && all (λ b. is_alphanumeric b || contains b (codes "-_.")) v

canonical_segment : Text → Bool
canonical_segment s =
    not (is_empty s)
    && leb (length s) 64
    && all (λ b. is_lower b || is_digit b || b == b'-') s
    && is_some_and is_alphanumeric (first s)
    && is_some_and is_alphanumeric (last s)

unfoldable pub canonical_path : Text → Bool
unfolding canonical_segment
canonical_path v = not (is_empty v) && leb (length v) 256 && all canonical_segment (split b'/' v)

-- The bytes from index `i` on: hyphens at 8, 13, 18 and 23, hexadecimal digits elsewhere.
id_bytes : ℕ → Text → Bool
id_bytes i [] = true
id_bytes i (b ∷ bs) =
    (if i == 8 || i == 13 || i == 18 || i == 23 then b == b'-' else is_hex b) && id_bytes (suc i) bs

unfoldable pub valid_id : Text → Bool
unfolding id_bytes
valid_id v = length v == 36 && id_bytes 0 v

-- `Destination::item_name`, with its errors as `none`.
unfoldable pub item_name : Destination → Option Text
item_name d =
    let name = and_then (strip_prefix d.folder d.reference) (strip_prefix (codes "/")) in
    if valid_id d.account_id
      && valid_id d.folder_id
      && canonical_path d.folder
      && canonical_path d.reference
    then (elim name [ none ↦ none | some n ↦ if is_empty n then none else some n ])
    else none
