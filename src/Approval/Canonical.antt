-- ===== src/Approval/Canonical.antt =====
-- The canonical JSON of src/access/approval_v2.rs: `canonical` on the values of serde_json.
use vaultwarden_cli.Base.{
  Bool, true, false, Option, none, some, List, map, [], ◌∷◌, ◌++◌, Text, codes, print_i64, ℤ,
  map_option, and_then,
}
use vaultwarden_cli.Policy.Checks.{text_leb, sort}

-- `serde_json::Value`; an object lists its members.
mutual
  pub data Value : Type 0 where
    null : Value
    boolean : Bool → Value
    integer : ℤ → Value
    float : Text → Value
    string : Text → Value
    array : Values → Value
    object : Members → Value

  pub data Values : Type 0 where
    nil : Values
    cons : Value → Values → Values

  pub data Members : Type 0 where
    none_left : Members
    member : Text → Value → Members → Members

-- `serde_json::to_string` of a text.
pub record Json : Type 0 where
  pub quoted : Text → Option Text

abbrev pub key_leb : Text × Text → Text × Text → Bool
key_leb a b = text_leb a.0 b.0

abbrev pub joined : List Text → Text
joined [] = []
joined (t ∷ []) = t
joined (t ∷ u ∷ ts) = t ++ b',' ∷ joined (u ∷ ts)

-- The members' texts, in the order of their keys.
abbrev pub member_text : Text × Text → Text
member_text m = m.1

unfoldable pub object_text : List (Text × Text) → Text
object_text ms = b'{' ∷ joined (map member_text (sort key_leb ms)) ++ b'}' ∷ []

-- One member before the others: its key as it is quoted, and its value's text.
abbrev pub with_member :
    Text → Option Text → Option Text → Option (List (Text × Text)) → Option (List (Text × Text))
with_member key quoted value rest =
    and_then quoted (λ k. and_then value (λ t. map_option (λ ts. (key, k ++ b':' ∷ t) ∷ ts) rest))

module _ ⦃j : Json⦄ where
  unfoldable mutual
    unfolding object_text

    pub canonical : Value → Option Text
    canonical null = some (codes "null")
    canonical (boolean true) = some (codes "true")
    canonical (boolean false) = some (codes "false")
    canonical (integer n) = some (print_i64 n)
    canonical (float t) = none
    canonical (string s) = j.quoted s
    canonical (array vs) = map_option (λ ts. b'[' ∷ joined ts ++ b']' ∷ []) (elements vs)
    canonical (object ms) = map_option object_text (members ms)

    pub elements : Values → Option (List Text)
    elements nil = some []
    elements (cons v vs) = and_then (canonical v) (λ t. map_option (λ ts. t ∷ ts) (elements vs))

    pub members : Members → Option (List (Text × Text))
    members none_left = some []
    members (member key v ms) = with_member key (j.quoted key) (canonical v) (members ms)
