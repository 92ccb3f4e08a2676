-- ===== src/Policy/Arguments.antt =====
-- `OperationPolicy::validates_args` and `normalize_args`.
use vaultwarden_cli.Base.{
  Bool, true, not, ◌&&◌, ◌||◌, Option, none, some, List, [], ◌∷◌, ltb, ◌==◌, nat_eq, text_eq,
  if◌then◌else◌, Text, any, is_empty, length, is_some_and, map_option, parse_i64, print_i64, leb_ℤ,
  ℤ,
}
use vaultwarden_cli.Policy.Types.{ArgumentSpec, OperationPolicy}

-- `slice::binary_search` finds a value of a sorted slice if it is there.
abbrev pub listed : Text → List Text → Bool
listed v = any λ t. t == v

in_range : ℤ → ℤ → Option ℤ → Bool
in_range minimum maximum = is_some_and λ n. leb_ℤ minimum n && leb_ℤ n maximum

unfoldable pub spec_accepts : List Text → ArgumentSpec → Text → Bool
unfolding in_range
spec_accepts targets ArgumentSpec.target v = listed v targets
spec_accepts targets (ArgumentSpec.choice choices) v = listed v choices
spec_accepts targets (ArgumentSpec.integer minimum maximum) v =
    in_range minimum maximum (parse_i64 v)

-- `zip` of the specifications with the values; the lengths are compared before.
unfoldable pub all_accepted : List Text → List ArgumentSpec → List Text → Bool
unfolding spec_accepts
all_accepted targets [] vs = true
all_accepted targets (s ∷ ss) [] = true
all_accepted targets (s ∷ ss) (v ∷ vs) = spec_accepts targets s v && all_accepted targets ss vs

unfoldable pub validates_args : OperationPolicy → List Text → Bool
unfolding all_accepted
validates_args p vs = elim p.ssh [
  | some s ↦ is_empty vs
  | none ↦ length vs == length p.arguments && all_accepted p.targets p.arguments vs
]

unfoldable pub normalize_value : ArgumentSpec → Text → Option Text
normalize_value ArgumentSpec.target v = some v
normalize_value (ArgumentSpec.choice choices) v = some v
normalize_value (ArgumentSpec.integer minimum maximum) v = map_option print_i64 (parse_i64 v)

cons_option : Option Text → Option (List Text) → Option (List Text)
cons_option none r = none
cons_option (some v) none = none
cons_option (some v) (some r) = some (v ∷ r)

unfoldable pub normalize_values : List ArgumentSpec → List Text → Option (List Text)
unfolding normalize_value cons_option
normalize_values [] vs = some []
normalize_values (s ∷ ss) [] = some []
normalize_values (s ∷ ss) (v ∷ vs) = cons_option (normalize_value s v) (normalize_values ss vs)

unfoldable pub normalize_args : OperationPolicy → List Text → Option (List Text)
unfolding normalize_values
normalize_args p vs =
    if any (λ v. ltb 256 (length v)) vs || not (validates_args p vs)
    then none
    else normalize_values p.arguments vs
