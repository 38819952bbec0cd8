-- ===== src/Tools/Composite/Tests.antt =====
-- tools/composite.go: two tools with a name in common.
use openharness.Prelude.{String, ◌≡◌, ◌⊎◌, refl, none, some, [], ◌∷◌}
use openharness.Tools.Definitions.{ToolDefinition, Tool, read}
use openharness.Tools.Composite.{Composite, new_composite, definitions, owns, owner}
use openharness.Tools.Composite.Dispatch.{Publishes, IsOwner, owner_outcome}

abbrev definition : String → ToolDefinition
definition name = record { name = name; description = ""; parameters = ""; effects = read }

abbrev first : Tool
first = record { identity = 1; definitions = definition "a" ∷ definition "b" ∷ [] }

abbrev second : Tool
second = record { identity = 2; definitions = definition "b" ∷ definition "c" ∷ [] }

abbrev both : Composite
both = new_composite (first ∷ second ∷ [])

owner_of_b : owner "b" both.tools ≡ some first
unfolding owner owns
owner_of_b = refl

owner_outcome_example :
    ((owner "c" both.tools ≡ none) × (Publishes "c" (definitions both) → ⊥))
    ⊎ ((t : Tool) × (owner "c" both.tools ≡ some t)
        × Publishes "c" (definitions both)
        × IsOwner "c" both.tools t)
owner_outcome_example = owner_outcome both "c"
