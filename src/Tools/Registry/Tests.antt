-- ===== src/Tools/Registry/Tests.antt =====
-- tools/registry.go: runs of the registry, and its theorems at concrete inputs.
use openharness.Prelude.{String, ◌≡◌, ◌≢◌, refl, none, some, List, [], ◌∷◌, arith, eq_iff}
use openharness.Prelude.GoMap
use openharness.Tools.Definitions.{ToolEffect, read, mutate, ToolDefinition, Tool}
use openharness.Tools.Registry
use openharness.Tools.Registry.{
  Registry, collision, new_registry, check_effects, register, effects_for, tools_by_names,
  seen_before,
}
use openharness.Tools.Registry.Validity.{IsValid, IsValid-new_registry, register-IsValid}
use openharness.Tools.Registry.Registration.{register_not_undone}

abbrev definition : String → ToolEffect → ToolDefinition
definition name effects = record {
  name = name;
  description = "";
  parameters = "";
  effects = effects;
}

abbrev files : Tool
files = record {
  identity = 1;
  definitions = definition "read_file" read ∷ definition "write_file" mutate ∷ [];
}

abbrev clashing : Tool
clashing = record {
  identity = 2;
  definitions = definition "stat" read ∷ definition "read_file" read ∷ [];
}

abbrev with_files : Registry
with_files = (register "fs" files new_registry).1

with_files-IsValid : IsValid with_files
with_files-IsValid = register-IsValid "fs" files new_registry IsValid-new_registry

stat_free : GoMap.get with_files.tools "stat" ≡ none
unfolding register new_registry GoMap.get GoMap.put
stat_free = refl

read_file_taken : GoMap.get with_files.tools "read_file" ≡ some files
unfolding register new_registry GoMap.get GoMap.put
read_file_taken = refl

clashing_classified : check_effects clashing.definitions ≡ none
unfolding check_effects
clashing_classified = refl

other_name : ◌≢◌ {A = String} "stat" "read_file"
other_name = ground (arith, eq_iff "stat" "read_file")

register_not_undone_example :
    ((register "fs" clashing with_files).0 ≡ some (collision "read_file"))
    × (Registry.get "stat" (register "fs" clashing with_files).1 ≡ some clashing)
    × (effects_for "stat" (register "fs" clashing with_files).1 ≡ read)
register_not_undone_example =
    register_not_undone "fs" clashing files with_files (definition "stat" read)
      (definition "read_file" read) [] refl clashing_classified stat_free other_name read_file_taken

-- Two names of one tool give it once.
tools_by_names_run :
    tools_by_names ("read_file" ∷ "absent" ∷ "write_file" ∷ []) with_files ≡ files ∷ []
unfolding tools_by_names register new_registry GoMap.get GoMap.put
tools_by_names_run = refl

abbrev asked : List String
asked = "read_file" ∷ "write_file" ∷ []
