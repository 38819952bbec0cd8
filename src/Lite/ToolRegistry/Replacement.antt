-- ===== src/Lite/ToolRegistry/Replacement.antt =====
-- harness/lite/registry.go: an update by id.
use openharness.Prelude.{
  String, ◌≡◌, ◌≢◌, refl, none, some, List, arith, eq_iff, eq_refl, Bool-cases, Option-cases, inl,
  inr, ◌==◌, if◌then◌else◌, eq-false_of_ne,
}
use openharness.Prelude.Result.{ok, err}
use openharness.Prelude.GoMap
use openharness.Prelude.GoMap.{
  GoMap, IsRange, get-put, get-delete, get-put_cases, get-put_self, get-put_ne, get-empty,
}
use openharness.Harness.Errors.{not_found}
use openharness.Harness.Types.{ToolDefinition}
use openharness.Lite.ToolRegistry.{
  LiteToolRegistry, Reply, overlay, set_overlay, name_of_id, replace_tool, update_tool,
}
use openharness.Lite.ToolRegistry.Ids.{Found, Lacks, name_of_id-Found, name_of_id-Lacks}
use openharness.Lite.ToolRegistry.Tenants.{
  overlay-set_overlay, update_missing, update_lacking, update_found,
}

-- How an update by id ended: the tool with the id now stands under the new name and no more under
-- the old one, and every other name is as it was; or no tool of the tenant has the id.
pub record Replaced (r after : LiteToolRegistry) (t id : String) (def : ToolDefinition)
    : Type 0 where
  pub name : String
  pub found : Found (overlay r t) id name
  pub now_there :
      GoMap.get (overlay after t) def.name ≡ some (record def { id = id; tenant_id = t })
  pub renamed : def.name ≢ name → GoMap.get (overlay after t) name ≡ none
  pub others :
      (n : String)
      → n ≢ name
      → n ≢ def.name
      → GoMap.get (overlay after t) n ≡ GoMap.get (overlay r t) n

abbrev pub UpdateOutcome : LiteToolRegistry → String → String → ToolDefinition → Reply → Type 0
UpdateOutcome r t id def (ok _, after) = Replaced r after t id def
UpdateOutcome r t id def (err e, after) = (e ≡ not_found) × (after ≡ r) × Lacks (overlay r t) id

pub overlay_of_found :
    (r : LiteToolRegistry) (t : String) (tm : GoMap ToolDefinition)
    → GoMap.get r.tenants t ≡ some tm
    → overlay r t ≡ tm
unfolding overlay
overlay_of_found r t tm at_t = ground arith

pub overlay-set_overlay_self :
    (r : LiteToolRegistry) (t : String) (tm : GoMap ToolDefinition)
    → overlay (set_overlay r t tm) t ≡ tm
overlay-set_overlay_self r t tm = simp (overlay-set_overlay, eq_refl)

pub Lacks-of_missing :
    (r : LiteToolRegistry) (t id : String) → GoMap.get r.tenants t ≡ none → Lacks (overlay r t) id
unfolding overlay
Lacks-of_missing r t id missing name d h =
    absurd (ground (arith, get-empty {V = ToolDefinition} name))

get-replace_tool :
    (t id : String) (def : ToolDefinition) (n : String) (tm : GoMap ToolDefinition) (k : String)
    → GoMap.get (replace_tool t id def n tm) k ≡ (
        if def.name == k
        then some (record def { id = id; tenant_id = t })
        else if n == k
        then none
        else GoMap.get tm k)
unfolding replace_tool
get-replace_tool t id def n tm k = elim (Bool-cases (def.name == n)) [
  | inl same ↦
      rw (same, replace_tool)
        (rw get-put (ground (arith, eq_iff def.name n, eq_iff def.name k, eq_iff n k)))
  | inr other ↦ rw (other, replace_tool) (rw get-put (rw get-delete refl))
]

replace_tool-Replaced :
    (r : LiteToolRegistry) (t id : String) (def : ToolDefinition) (n : String)
    (tm : GoMap ToolDefinition)
    → overlay r t ≡ tm
    → Found (overlay r t) id n
    → Replaced r (set_overlay r t (replace_tool t id def n tm)) t id def
replace_tool-Replaced r t id def n tm at_t f = record {
  name = n;
  found = f;
  now_there = rw (overlay-set_overlay_self r t _) (rw get-replace_tool (simp eq_refl));
  renamed = λ ne.
      rw (overlay-set_overlay_self r t _)
        (rw (get-replace_tool, eq-false_of_ne def.name n ne) (simp eq_refl));
  others = λ k old new.
      rw (overlay-set_overlay_self r t _, get-replace_tool, at_t)
        (ground (arith, eq_iff def.name k, eq_iff n k));
}

-- An update by id, over any range of the tenant's map, either moves the tool with the id to the name
-- of the new definition and changes no other name, or finds no tool of the tenant with the id and
-- changes nothing.
pub update_tool_outcome :
    (visit : List (String × ToolDefinition)) (t id : String) (def : ToolDefinition)
    (r : LiteToolRegistry)
    → IsRange (overlay r t) visit
    → UpdateOutcome r t id def (update_tool visit t id def r)
update_tool_outcome visit t id def r range = elim (Option-cases (GoMap.get r.tenants t)) [
  | inl missing ↦
      rw (update_missing visit t id def r missing) (refl, refl, Lacks-of_missing r t id missing)
  | inr (tm, at_t) ↦ elim (Option-cases (name_of_id id visit)) [
    | inl lacking ↦
        rw (update_lacking visit t id def r lacking)
          (refl, refl, name_of_id-Lacks (overlay r t) range id lacking)
    | inr (n, found) ↦ rw (update_found visit t id def r tm n at_t found) (
        replace_tool-Replaced r t id def n tm (overlay_of_found r t tm at_t)
          (name_of_id-Found (overlay r t) range id n found))
  ]
]
