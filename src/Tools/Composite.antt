-- ===== src/Tools/Composite.antt =====
-- tools/composite.go: several tools as one. What a tool does on `Execute` is a parameter.
pub mod Dispatch
mod Tests
use openharness.Prelude.{
  String, Bool, true, false, Option, none, some, List, [], ◌∷◌, ◌++◌, ◌==◌, if◌then◌else◌,
}
use openharness.Prelude.Result.{Result, ok, err}
use openharness.Tools.Definitions.{ToolDefinition, Tool}

-- the tools in order
pub record Composite : Type 0 where
  pub tools : List Tool

abbrev pub new_composite : List Tool → Composite
new_composite tools = record { tools = tools }

-- the loop of `Definitions`
unfoldable pub merged : List Tool → List ToolDefinition
merged [] = []
merged (t ∷ tools) = t.definitions ++ merged tools

unfoldable pub definitions : Composite → List ToolDefinition
unfolding merged
definitions c = merged c.tools

-- the inner loop of `Execute`: whether a tool has a definition of the name
unfoldable pub owns : String → List ToolDefinition → Bool
owns name [] = false
owns name (d ∷ defs) = let rest = owns name defs in if d.name == name then true else rest

-- the outer loop
unfoldable pub owner : String → List Tool → Option Tool
unfolding owns
owner name [] = none
owner name (t ∷ tools) =
    let rest = owner name tools in if owns name t.definitions then some t else rest

pub data CompositeError (E : Type 0) : Type 0 where
  tool_not_found : String → CompositeError E
  of_tool : E → CompositeError E

unfoldable pub execute :
    {E Args Reply : Type 0}
    → (Tool → String → Args → Result E Reply)
    → Composite
    → String
    → Args
    → Result (CompositeError E) Reply
unfolding owner
execute run c name args = elim (owner name c.tools) [
  | none ↦ err (tool_not_found name)
  | some t ↦ elim (run t name args) [ ok reply ↦ ok reply | err e ↦ err (of_tool e) ]
]
