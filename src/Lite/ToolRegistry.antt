-- ===== src/Lite/ToolRegistry.antt =====
-- harness/lite/registry.go: the in-memory tool registry, a global catalog under one overlay for each
-- tenant. The clock and what a `range` visits are arguments.
pub mod Resolution
pub mod Tenants
pub mod Ids
pub mod Replacement
pub mod Deletion
mod Tests
use Prim.Native.String.{◌++◌ as append}
use openharness.Prelude.{
  ℕ, String, Bool, true, false, Option, none, some, List, [], ◌∷◌, ◌++◌, map, ◌==◌, if◌then◌else◌,
}
use openharness.Prelude.Result.{Result, ok, err, ◌>>=◌}
use openharness.Prelude.GoMap
use openharness.Prelude.GoMap.{GoMap}
use openharness.Prelude.Decimal.{decimal64}
use openharness.Harness.Errors.{HarnessError, not_found}
use openharness.Harness.Types.{Time, ToolDefinition, VerifyResult}

pub record LiteToolRegistry : Type 0 where
  pub globals : GoMap ToolDefinition
  pub tenants : GoMap (GoMap ToolDefinition)

-- `NewLiteToolRegistry`
unfoldable pub new_lite_tool_registry : LiteToolRegistry
unfolding GoMap.empty
new_lite_tool_registry = record { globals = GoMap.empty; tenants = GoMap.empty }

unfoldable pub add_global_tool : ToolDefinition → LiteToolRegistry → LiteToolRegistry
add_global_tool def r = record r { globals = GoMap.put r.globals def.name def }

-- `r.tenants[tenantID]`: a tenant without a map reads as one with an empty map
unfoldable pub overlay : LiteToolRegistry → String → GoMap ToolDefinition
unfolding GoMap.empty
overlay r tenant_id = elim (GoMap.get r.tenants tenant_id) [ none ↦ GoMap.empty | some tm ↦ tm ]

abbrev definitions : List (String × ToolDefinition) → List ToolDefinition
definitions = map (λ e. e.1)

-- `ListGlobal`, over a range of the global map
unfoldable pub list_global :
    List (String × ToolDefinition) → Result HarnessError (List ToolDefinition)
list_global visit = ok (definitions visit)

-- `ListTenant`, over a range of the tenant's map
unfoldable pub list_tenant :
    List (String × ToolDefinition) → Result HarnessError (List ToolDefinition)
list_tenant visit = ok (definitions visit)

-- one round of the loop in `Resolve`: the tenant's definition, else the global one
unfoldable pub resolve_one :
    GoMap ToolDefinition → LiteToolRegistry → String → Result HarnessError ToolDefinition
resolve_one tm r name = elim (GoMap.get tm name) [
  | some def ↦ ok def
  | none ↦ elim (GoMap.get r.globals name) [ some def ↦ ok def | none ↦ err not_found ]
]

unfoldable pub resolve_all :
    GoMap ToolDefinition
    → LiteToolRegistry
    → List String
    → Result HarnessError (List ToolDefinition)
unfolding resolve_one
resolve_all tm r [] = ok []
resolve_all tm r (name ∷ names) = do
  def ← resolve_one tm r name
  defs ← resolve_all tm r names
  ok (def ∷ defs)

unfoldable pub resolve :
    String → List String → LiteToolRegistry → Result HarnessError (List ToolDefinition)
unfolding resolve_all overlay
resolve tenant_id tool_names r = resolve_all (overlay r tenant_id) r tool_names

-- `r.tenants[tenantID] = tm`
abbrev pub set_overlay : LiteToolRegistry → String → GoMap ToolDefinition → LiteToolRegistry
set_overlay r tenant_id tm = record r { tenants = GoMap.put r.tenants tenant_id tm }

-- the definition that `RegisterTool` stores
unfoldable pub registered : Time → String → ToolDefinition → ToolDefinition
unfolding decimal64
registered now tenant_id def = record def {
  id = if def.id == "" then append "tool_" (decimal64 now) else def.id;
  tenant_id = tenant_id;
}

-- `RegisterTool`, which never fails
unfoldable pub register_tool : Time → String → ToolDefinition → LiteToolRegistry → LiteToolRegistry
unfolding registered overlay
register_tool now tenant_id def r =
    set_overlay r tenant_id
      (GoMap.put (overlay r tenant_id) def.name (registered now tenant_id def))

-- the search in the loops of `UpdateTool` and `DeleteTool`: the key of the first entry visited that
-- has the id
unfoldable pub name_of_id : String → List (String × ToolDefinition) → Option String
name_of_id tool_id [] = none
name_of_id tool_id ((name, existing) ∷ visit) =
    if existing.id == tool_id then some name else name_of_id tool_id visit

-- what `UpdateTool` does to the tenant's map once it has found the key
unfoldable pub replace_tool :
    String → String → ToolDefinition → String → GoMap ToolDefinition → GoMap ToolDefinition
replace_tool tenant_id tool_id def name tm =
    GoMap.put (if def.name == name then tm else GoMap.delete tm name) def.name
      (record def { id = tool_id; tenant_id = tenant_id })

abbrev pub Reply : Type 0
Reply = Result HarnessError (Unit {0}) × LiteToolRegistry

unfoldable pub update_tool :
    List (String × ToolDefinition) → String → String → ToolDefinition → LiteToolRegistry → Reply
unfolding name_of_id replace_tool
update_tool visit tenant_id tool_id def r = elim (GoMap.get r.tenants tenant_id) [
  | none ↦ (err not_found, r)
  | some tm ↦ elim (name_of_id tool_id visit) [
    | none ↦ (err not_found, r)
    | some name ↦ (ok tt, set_overlay r tenant_id (replace_tool tenant_id tool_id def name tm))
  ]
]

unfoldable pub delete_tool :
    List (String × ToolDefinition) → String → String → LiteToolRegistry → Reply
unfolding name_of_id
delete_tool visit tenant_id tool_id r = elim (GoMap.get r.tenants tenant_id) [
  | none ↦ (err not_found, r)
  | some tm ↦ elim (name_of_id tool_id visit) [
    | none ↦ (err not_found, r)
    | some name ↦ (ok tt, set_overlay r tenant_id (GoMap.delete tm name))
  ]
]

-- `if s == "" { errs = append(errs, message) }`
abbrev require : String → String → List String
require s message = if s == "" then message ∷ [] else []

-- the errors that `VerifyTool` collects
unfoldable pub verify_errors : ToolDefinition → List String
verify_errors def =
    require def.name "name is required"
    ++ (require def.description "description is required"
        ++ require def.category "category is required")

unfoldable pub verify_tool : ToolDefinition → VerifyResult
unfolding verify_errors
verify_tool def = elim (verify_errors def) [
  | [] ↦ record { valid = true; errors = []; warnings = [] }
  | e ∷ errs ↦ record { valid = false; errors = e ∷ errs; warnings = [] }
]
