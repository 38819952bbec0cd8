-- ===== src/Tools/Registry.antt =====
-- tools/registry.go: tools by the names of their definitions, with categories and effects.
pub mod Validity
pub mod Registration
pub mod Lookup
mod Tests
use openharness.Prelude.{
  String, Bool, true, false, not, ◌&&◌, ◌||◌, Option, none, some, List, [], ◌∷◌, if◌then◌else◌,
}
use openharness.Prelude.GoMap
use openharness.Prelude.GoMap.{GoMap}
use openharness.Tools.Definitions.{
  ToolEffect, unspecified, ToolDefinition, Tool, is_unspecified, same_tool,
}

pub record Registry : Type 0 where
  pub tools : GoMap Tool
  pub categories : GoMap String
  pub effects : GoMap ToolEffect

-- the errors of `Register`, with the name that each cites
pub data RegisterError : Type 0 where
  unclassified : String → RegisterError
  collision : String → RegisterError

-- `NewRegistry`
unfoldable pub new_registry : Registry
unfolding GoMap.empty
new_registry = record { tools = GoMap.empty; categories = GoMap.empty; effects = GoMap.empty }

-- the first loop of `Register`
unfoldable pub check_effects : List ToolDefinition → Option RegisterError
check_effects [] = none
check_effects (def ∷ defs) =
    if is_unspecified def.effects then some (unclassified def.name) else check_effects defs

-- the three writes in the second loop of `Register`
unfoldable pub add_definition : String → Tool → ToolDefinition → Registry → Registry
add_definition category t def r = record {
  tools = GoMap.put r.tools def.name t;
  categories = GoMap.put r.categories def.name category;
  effects = GoMap.put r.effects def.name def.effects;
}

-- the second loop of `Register`
unfoldable pub add_definitions :
    String → Tool → List ToolDefinition → Registry → Option RegisterError × Registry
unfolding add_definition
add_definitions category t [] r = (none, r)
add_definitions category t (def ∷ defs) r =
    let rest = add_definitions category t defs (add_definition category t def r) in
    elim (GoMap.get r.tools def.name) [ some _ ↦ (some (collision def.name), r) | none ↦ rest ]

-- `none` is the nil error
unfoldable pub register : String → Tool → Registry → Option RegisterError × Registry
unfolding check_effects add_definitions
register category t r = elim (check_effects t.definitions) [
  | some e ↦ (some e, r)
  | none ↦ add_definitions category t t.definitions r
]

-- `Get`: `none` is the nil tool
unfoldable pub get : String → Registry → Option Tool
get name r = GoMap.get r.tools name

-- `EffectsFor`: a missing entry reads as the zero value
unfoldable pub effects_for : String → Registry → ToolEffect
effects_for name r = elim (GoMap.get r.effects name) [ none ↦ unspecified | some e ↦ e ]

unfoldable pub unregister : String → Registry → Registry
unregister name r = record {
  tools = GoMap.delete r.tools name;
  categories = GoMap.delete r.categories name;
  effects = GoMap.delete r.effects name;
}

-- membership in the local map `seen`
unfoldable pub seen_before : Tool → List Tool → Bool
seen_before t [] = false
seen_before t (u ∷ seen) = same_tool t u || seen_before t seen

-- the loop of `ToolsByNames`; `seen` holds the tools found so far
unfoldable pub tools_by_names_from : List Tool → List String → Registry → List Tool
unfolding seen_before
tools_by_names_from seen [] r = []
tools_by_names_from seen (name ∷ names) r = elim (GoMap.get r.tools name) [
  | none ↦ tools_by_names_from seen names r
  | some t ↦ elim (seen_before t seen) [
    | true ↦ tools_by_names_from seen names r
    | false ↦ t ∷ tools_by_names_from (t ∷ seen) names r
  ]
]

unfoldable pub tools_by_names : List String → Registry → List Tool
unfolding tools_by_names_from
tools_by_names names r = tools_by_names_from [] names r
