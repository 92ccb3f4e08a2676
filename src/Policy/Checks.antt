-- ===== src/Policy/Checks.antt =====
-- The component checks of `validate_draft`: values, credentials, arguments and the create effect.
use Prim.Native.Nat.{compare, Ordering}
use vaultwarden_cli.Base.{
  ℕ, Bool, true, false, not, ◌&&◌, ◌||◌, List, [], ◌∷◌, ◌++◌, map, leb, ◌==◌, nat_eq, text_eq,
  if◌then◌else◌, Text, all, any, is_empty, is_none, is_some, length, filter, is_some_and, codes,
  leb_ℤ,
}
use vaultwarden_cli.Strings.{
  is_upper, is_digit, is_graphic, contains, has_control, starts_with, strip_prefix,
}
use vaultwarden_cli.Storage.{valid_id, valid_field_name, item_name}
use vaultwarden_cli.Ident.{valid_operation_id}
use vaultwarden_cli.Policy.Types.{
  CreateEffect, ArgumentSpec, LoginField, LoginFieldMapping, LoginCredentialDraft,
  credential_use_eq, CredentialUse,
}

-- The order of `str`, byte by byte.
abbrev pub text_leb : Text → Text → Bool
text_leb [] bs = true
text_leb (a ∷ as_) [] = false
text_leb (a ∷ as_) (b ∷ bs) =
    let rest = text_leb as_ bs in
    elim (compare a b) [ Ordering.lt ↦ true | Ordering.eq ↦ rest | Ordering.gt ↦ false ]

-- `sort` by an order, as insertion.
module _ {A : Type 0} (le : A → A → Bool) where
  unfoldable pub insert_sorted : A → List A → List A
  insert_sorted a [] = a ∷ []
  insert_sorted a (b ∷ bs) =
      let rest = insert_sorted a bs in if le a b then a ∷ b ∷ bs else b ∷ rest

  unfoldable pub sort : List A → List A
  unfolding insert_sorted
  sort [] = []
  sort (a ∷ as_) = insert_sorted a (sort as_)

-- `windows(2).any(|pair| pair[0] == pair[1])`
unfoldable pub adjacent_equal : List Text → Bool
adjacent_equal [] = false
adjacent_equal (a ∷ []) = false
adjacent_equal (a ∷ b ∷ r) = a == b || adjacent_equal (b ∷ r)

unfoldable pub has_duplicates : List Text → Bool
unfolding sort adjacent_equal
has_duplicates vs = adjacent_equal (sort text_leb vs)

unfoldable pub valid_display_text : Text → ℕ → Bool
valid_display_text v maximum =
    not (is_empty v) && leb (length v) maximum && not (contains 0 v) && not (has_control v)

unfoldable pub valid_value : Text → ℕ → Bool
valid_value v maximum = not (is_empty v) && leb (length v) maximum && all is_graphic v

custom_prefix : Text
custom_prefix = codes "custom:"

valid_create_field : Text → Bool
unfolding custom_prefix
valid_create_field f =
    f == codes "password"
    || f == codes "notes"
    || is_some_and (λ n. valid_field_name n && not (n == codes "vw-access"))
        (strip_prefix custom_prefix f)

-- `CreateEffect::valid`
unfoldable pub create_valid : CreateEffect → Bool
unfolding valid_create_field custom_prefix
create_valid c =
    is_some (item_name c.destination)
    && starts_with (codes "https://") c.server
    && leb (length c.server) 512
    && not (has_control c.server)
    && valid_operation_id c.eligibility_marker
    && not (is_empty c.fields)
    && leb (length c.fields) 34
    && leb (length (filter (starts_with custom_prefix) c.fields)) 32
    && any (λ f. f == codes "password" || starts_with custom_prefix f) c.fields
    && all valid_create_field c.fields
    && not (has_duplicates c.fields)

abbrev is_target : ArgumentSpec → Bool
is_target ArgumentSpec.target = true
is_target (ArgumentSpec.choice _) = false
is_target (ArgumentSpec.integer _ _) = false

abbrev valid_argument : ArgumentSpec → Bool
valid_argument ArgumentSpec.target = true
valid_argument (ArgumentSpec.choice choices) =
    not (is_empty choices)
    && leb (length choices) 64
    && all (λ c. valid_value c 256) choices
    && not (has_duplicates choices)
valid_argument (ArgumentSpec.integer minimum maximum) = leb_ℤ minimum maximum

unfoldable pub valid_arguments : List ArgumentSpec → Bool
valid_arguments specs = length (filter is_target specs) == 1 && all valid_argument specs

abbrev valid_login_field : LoginField → Bool
valid_login_field LoginField.username = true
valid_login_field LoginField.password = true
valid_login_field LoginField.notes = true
valid_login_field (LoginField.custom name) =
    valid_display_text name 256 && not (name == codes "vw-access")

env_tail : Text → Bool
env_tail = all λ b. b == b'_' || is_upper b || is_digit b

env_bytes : Text → Bool
env_bytes [] = true
env_bytes (b ∷ bs) = (b == b'_' || is_upper b) && env_tail bs

loader_names : List Text
loader_names = map codes (
    "PATH" ∷ "LANG" ∷ "LC_ALL" ∷ "IFS" ∷ "ENV" ∷ "BASH_ENV" ∷ "SHELLOPTS" ∷ "GLIBC_TUNABLES"
    ∷ "GCONV_PATH" ∷ "LOCPATH" ∷ "LIBPATH" ∷ "SHLIB_PATH" ∷ "RUNPATH" ∷ [])

unfoldable pub valid_environment : Text → Bool
unfolding env_bytes env_tail loader_names
valid_environment v =
    not (is_empty v)
    && leb (length v) 64
    && env_bytes v
    && not (starts_with (codes "LD_") v)
    && not (starts_with (codes "DYLD_") v)
    && not (starts_with (codes "VAULTWARDEN_") v)
    && not (starts_with (codes "BITWARDEN_") v)
    && not (any (λ n. v == n) loader_names)

-- A login field as a text, one for each field, for `unique_fields`.
field_key : LoginField → Text
field_key LoginField.notes = 0 ∷ []
field_key LoginField.username = 1 ∷ []
field_key LoginField.password = 2 ∷ []
field_key (LoginField.custom name) = 3 ∷ name

environments : List LoginFieldMapping → List Text
environments = map λ m. m.environment

all_environments : List LoginCredentialDraft → List Text
unfolding environments
all_environments [] = []
all_environments (c ∷ cs) = environments c.field_mappings ++ all_environments cs

valid_credential : LoginCredentialDraft → Bool
unfolding field_key environments
valid_credential c =
    c.use_type == CredentialUse.login
    && valid_id c.item_id
    && valid_display_text c.label 256
    && not (is_empty c.field_mappings)
    && leb (length c.field_mappings) 8
    && all (λ m. valid_login_field m.field && valid_environment m.environment) c.field_mappings
    && not (has_duplicates (map (λ m. field_key m.field) c.field_mappings))
    && not (has_duplicates (environments c.field_mappings))

unfoldable pub valid_credentials : List LoginCredentialDraft → Bool
unfolding valid_credential all_environments
valid_credentials cs =
    not (any (λ c. is_some_and (λ d. is_none (item_name d)) c.namespace) cs)
    && not (has_duplicates (map (λ c. c.item_id) cs))
    && not (has_duplicates (all_environments cs))
    && all valid_credential cs
