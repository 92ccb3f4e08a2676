-- ===== src/Examples/Environments.antt =====
-- The environment of a program with one credential.
use vaultwarden_cli.Base.{
  Text-discrete, ℕ_discrete, ◌≡◌, refl, some, [], ◌∷◌, ◌++◌, Text, List, codes, nat_eq, text_eq,
}
use mathlib.Core.Bool.{decide}
use vaultwarden_cli.Environment.{Mapping, baseline, valid_environment_name, collect, from_mappings}
use vaultwarden_cli.Environment.Entries.{entries_of, Holds, from_mappings-Holds}

abbrev token : List Mapping
token = record { name = codes "API_TOKEN_1"; value = codes "a=b" } ∷ []

abbrev variables : List Text
variables = entries_of (baseline ++ token)

collected : from_mappings token ≡ some variables
unfolding from_mappings collect valid_environment_name Text-discrete ℕ_discrete decide
collected = refl

from_mappings-Holds_example : Holds token variables
from_mappings-Holds_example = from_mappings-Holds token variables collected
