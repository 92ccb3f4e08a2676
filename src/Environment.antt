-- ===== src/Environment.antt =====
-- `ChildEnvironment` of src/access/ports.rs: the variables that an executed program gets.
pub mod Entries
use vaultwarden_cli.Base.{
  ℕ, ◌+◌, ◌≡◌, Bool, true, not, ◌&&◌, ◌||◌, Option, none, some, List, [], ◌∷◌, ◌++◌, leb, ltb, ◌==◌,
  nat_eq, text_eq, Text, codes, all, any, is_empty, length, if◌then◌else◌,
}
use vaultwarden_cli.Strings.{is_upper, is_digit, contains, starts_with}

-- A name and its value.
pub record Mapping : Type 0 where
  pub name : Text
  pub value : Text

name_first : ℕ → Bool
name_first b = b == b'_' || is_upper b

name_rest : ℕ → Bool
name_rest b = b == b'_' || is_upper b || is_digit b

name_bytes : Text → Bool
unfolding name_first name_rest
name_bytes [] = true
name_bytes (b ∷ bs) = name_first b && all name_rest bs

abbrev reserved_names : List Text
reserved_names =
    codes "LANG"
    ∷ codes "LC_ALL"
    ∷ codes "PATH"
    ∷ codes "IFS"
    ∷ codes "SHELL"
    ∷ codes "LD_PRELOAD"
    ∷ codes "LD_LIBRARY_PATH"
    ∷ []

unfoldable pub valid_environment_name : Text → Bool
unfolding name_bytes
valid_environment_name n =
    not (is_empty n)
    && leb (length n) 128
    && name_bytes n
    && not (any (λ r. r == n) reserved_names)
    && not (starts_with (codes "DYLD_") n)
    && not (starts_with (codes "LD_") n)
    && not (starts_with (codes "VAULTWARDEN_") n)
    && not (starts_with (codes "BITWARDEN_") n)

-- The two variables that every program gets.
abbrev pub baseline_name : Text → Bool
baseline_name n = n == codes "LANG" || n == codes "LC_ALL"

abbrev pub baseline : List Mapping
baseline =
    record { name = codes "LANG"; value = codes "C" }
    ∷ record { name = codes "LC_ALL"; value = codes "C" }
    ∷ []

abbrev pub entry : Mapping → Text
entry m = m.name ++ b'=' ∷ m.value ++ 0 ∷ []

abbrev pub total : List Text → ℕ
total [] = 0
total (e ∷ es) = length e + total es

-- A name that `HashSet::insert` finds.
abbrev pub inserted : Text → List Text → Bool
inserted n = any λ x. x == n

abbrev pub rejected_mapping : List Text → Mapping → Bool
rejected_mapping names m =
    (not (baseline_name m.name) && not (valid_environment_name m.name))
    || inserted m.name names
    || contains 0 m.value

abbrev pub oversized : List Text → Bool
oversized es = ltb 32 (length es) || ltb 32768 (total es)

-- The loop, with the names and the entries so far; none is `InvalidArguments`.
unfoldable pub collect : List Mapping → List Text → List Text → Option (List Text)
collect [] names entries = some entries
collect (m ∷ ms) names entries =
    let entries' = entries ++ entry m ∷ [] in
    let rest = collect ms (m.name ∷ names) entries' in
    if rejected_mapping names m || oversized entries' then none else rest

unfoldable pub from_mappings : List Mapping → Option (List Text)
unfolding collect
from_mappings ms = collect (baseline ++ ms) [] []
