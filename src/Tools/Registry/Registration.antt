-- ===== src/Tools/Registry/Registration.antt =====
-- tools/registry.go: what `Register` leaves behind, on every branch.
use openharness.Prelude.{
  String, ◌≡◌, ◌≢◌, refl, ap, ◌∙◌, Option, none, some, List, [], ◌∷◌, ◌++◌, Has,
}
use openharness.Prelude.GoMap
use openharness.Prelude.GoMap.{GoMap, get-put, get-put_self, get-put_ne}
use openharness.Tools.Definitions.{unspecified, ToolDefinition, Tool}
use openharness.Tools.Registry
use openharness.Tools.Registry.{
  Registry, RegisterError, unclassified, collision, check_effects, add_definition, add_definitions,
  register, effects_for,
}

-- The definitions were added one by one, each under a name that was then free.
pub data Added (category : String) (t : Tool)
    : Registry → List ToolDefinition → Registry → Type 0 where
  done : {r : Registry} → Added category t r [] r
  more :
      {r : Registry} {def : ToolDefinition} {defs : List ToolDefinition} {after : Registry}
      → GoMap.get r.tools def.name ≡ none
      → Added category t (add_definition category t def r) defs after
      → Added category t r (def ∷ defs) after

-- The definitions before the first whose name was taken were added.
pub record Broken (category : String) (t : Tool) (r : Registry) (defs : List ToolDefinition)
    (name : String) (after : Registry) : Type 0 where
  pub before : List ToolDefinition
  pub def : ToolDefinition
  pub rest : List ToolDefinition
  pub split : defs ≡ before ++ def ∷ rest
  pub cited : def.name ≡ name
  pub added : Added category t r before after
  pub holder : Tool
  pub taken : GoMap.get after.tools def.name ≡ some holder

abbrev pub RegisterOutcome :
    String → Tool → Registry → List ToolDefinition → Option RegisterError × Registry → Type 0
RegisterOutcome category t r defs (none, after) = Added category t r defs after
RegisterOutcome category t r defs (some (unclassified name), after) =
    (after ≡ r)
    × ((def : ToolDefinition) × Has def defs × (def.name ≡ name) × (def.effects ≡ unspecified))
RegisterOutcome category t r defs (some (collision name), after) =
    Broken category t r defs name after

module _ (category : String) (t : Tool) where
  register_classified :
      (r : Registry)
      → check_effects t.definitions ≡ none
      → register category t r ≡ add_definitions category t t.definitions r
  unfolding register
  register_classified r classified = rw (classified, register)

  add_definitions_free :
      (def : ToolDefinition) (defs : List ToolDefinition) (r : Registry)
      → GoMap.get r.tools def.name ≡ none
      → add_definitions category t (def ∷ defs) r
        ≡ add_definitions category t defs (add_definition category t def r)
  unfolding add_definitions
  add_definitions_free def defs r free = rw (free, add_definitions)

  add_definitions_taken :
      (def : ToolDefinition) (defs : List ToolDefinition) (r : Registry) (u : Tool)
      → GoMap.get r.tools def.name ≡ some u
      → add_definitions category t (def ∷ defs) r ≡ (some (collision def.name), r)
  unfolding add_definitions
  add_definitions_taken def defs r u taken = rw (taken, add_definitions)

-- A registration is not undone when a later definition collides: where all definitions are classified,
-- the first has a free name and the second another one that is taken, `Register` reports the
-- collision and the first definition is registered all the same.
pub register_not_undone :
    (category : String) (t u : Tool) (r : Registry) (first second : ToolDefinition)
    (rest : List ToolDefinition)
    → t.definitions ≡ first ∷ second ∷ rest
    → check_effects t.definitions ≡ none
    → GoMap.get r.tools first.name ≡ none
    → first.name ≢ second.name
    → GoMap.get r.tools second.name ≡ some u
    → ((register category t r).0 ≡ some (collision second.name))
      × (Registry.get first.name (register category t r).1 ≡ some t)
      × (effects_for first.name (register category t r).1 ≡ first.effects)
unfolding Registry.get effects_for add_definition
register_not_undone category t u r first second rest defs classified free ne taken =
    let added = add_definition category t first r in
    let outcome : register category t r ≡ (some (collision second.name), added) =
      register_classified category t r classified
      ∙ (ap (λ (x : List ToolDefinition). add_definitions category t x r) defs
          ∙ (add_definitions_free category t first (second ∷ rest) r free
              ∙ add_definitions_taken category t second rest added u
                  (get-put_ne r.tools first.name second.name t ne ∙ taken))) in
    rw outcome (
      refl,
      get-put_self r.tools first.name t,
      rw (effects_for, get-put_self r.effects first.name first.effects),
    )
