-- ===== src/Lite/ToolRegistry/Tests.antt =====
-- harness/lite/registry.go: runs of the tool registry, and its theorems at concrete inputs.
use openharness.Prelude.{String, ◌≡◌, ◌≢◌, refl, none, List, [], ◌∷◌, arith, eq_iff, false}
use openharness.Prelude.Result.{ok, err}
use openharness.Prelude.GoMap
use openharness.Prelude.GoMap.{GoMap, IsRange, get-empty}
use openharness.Harness.Errors.{not_found}
use openharness.Harness.Types.{ToolDefinition}
use openharness.Lite.ToolRegistry.{
  LiteToolRegistry, new_lite_tool_registry, add_global_tool, overlay, register_tool, resolve,
  delete_tool,
}
use openharness.Lite.ToolRegistry.Resolution.{view}
use openharness.Lite.ToolRegistry.Ids.{Lacks, UniqueIds}
use openharness.Lite.ToolRegistry.Tenants.{Op, apply, tenant_isolation}
use openharness.Lite.ToolRegistry.Deletion.{delete-register_tool}

abbrev tool : String → String → ToolDefinition
tool id name = record {
  id = id;
  tenant_id = "";
  name = name;
  category = "text";
  description = "finds lines";
  parameters = "";
  endpoint = "";
  credential_ref = "";
  built_in = false;
  verified = false;
  verified_at = none;
  created_at = 0;
}

-- a global "grep", over which tenant "t" has its own
abbrev base : LiteToolRegistry
base = add_global_tool (tool "g" "grep") new_lite_tool_registry

abbrev shadowed : LiteToolRegistry
shadowed = register_tool 7 "t" (tool "x" "grep") base

abbrev own : ToolDefinition
own = record (tool "x" "grep") { tenant_id = "t" }

abbrev own_visit : List (String × ToolDefinition)
own_visit = ("grep", own) ∷ []

shadowed-IsRange : IsRange (overlay shadowed "t") own_visit
unfolding register_tool new_lite_tool_registry add_global_tool GoMap.get GoMap.put GoMap.find
shadowed-IsRange = record { same = λ k. refl; distinct = (refl, tt) }

base-Lacks : Lacks (overlay base "t") "x"
unfolding overlay new_lite_tool_registry add_global_tool GoMap.get
base-Lacks name d h = absurd (ground arith)

base_free : GoMap.get (overlay base "t") "grep" ≡ none
unfolding overlay new_lite_tool_registry add_global_tool GoMap.get
base_free = refl

shadowed-UniqueIds : UniqueIds (overlay shadowed "t")
unfolding register_tool new_lite_tool_registry add_global_tool GoMap.get GoMap.put
shadowed-UniqueIds m n d e at_m at_n same = ground (arith, eq_iff "grep" m, eq_iff "grep" n)

x_given : ◌≢◌ {A = String} "x" ""
x_given = ground (arith, eq_iff "x" "")

t_not_u : ◌≢◌ {A = String} "t" "u"
t_not_u = ground (arith, eq_iff "t" "u")

-- The tenant gets its own tool, another tenant the global one, and an unknown name is an error.
resolve_runs :
    (resolve "t" ("grep" ∷ []) shadowed ≡ ok (own ∷ []))
    × (resolve "u" ("grep" ∷ []) shadowed ≡ ok (tool "g" "grep" ∷ []))
    × (resolve "t" ("grep" ∷ "sed" ∷ []) shadowed ≡ err not_found)
unfolding resolve register_tool new_lite_tool_registry add_global_tool GoMap.get GoMap.put
resolve_runs = (refl, refl, refl)

tenant_isolation_example :
    view (apply (Op.register 7 "t" (tool "x" "grep")) base) "u" "grep" ≡ view base "u" "grep"
tenant_isolation_example =
    tenant_isolation (Op.register 7 "t" (tool "x" "grep")) base "u" "grep" t_not_u

delete-register_tool_example :
    ((delete_tool own_visit "t" "x" shadowed).0 ≡ ok tt)
    × ((k : String) → view (delete_tool own_visit "t" "x" shadowed).1 "t" k ≡ view base "t" k)
delete-register_tool_example =
    delete-register_tool 7 "t" (tool "x" "grep") base own_visit x_given base-Lacks base_free
      shadowed-IsRange
