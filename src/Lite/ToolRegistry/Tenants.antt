-- ===== src/Lite/ToolRegistry/Tenants.antt =====
-- harness/lite/registry.go: what the writing operations do to the views of the tenants.
use openharness.Prelude.{
  String, ◌≡◌, ◌≢◌, refl, ap, ◌∙◌, none, some, List, arith, eq_iff, Option-cases, ◌⊎◌, inl, inr,
  ◌==◌, if◌then◌else◌,
}
use openharness.Prelude.Result.{ok, err}
use openharness.Prelude.GoMap
use openharness.Prelude.GoMap.{
  GoMap, IsRange, get-put, get-delete, get-put_cases, get-put_self, get-put_ne, get-empty,
}
use openharness.Harness.Errors.{not_found}
use openharness.Harness.Types.{Time, ToolDefinition}
use openharness.Lite.ToolRegistry.{
  LiteToolRegistry, Reply, overlay, set_overlay, register_tool, name_of_id, replace_tool,
  update_tool, delete_tool,
}
use openharness.Lite.ToolRegistry.Resolution.{view, view_in}

-- A write to one tenant's map is seen by that tenant alone.
pub overlay-set_overlay :
    (r : LiteToolRegistry) (t : String) (tm : GoMap ToolDefinition) (u : String)
    → overlay (set_overlay r t tm) u ≡ (if t == u then tm else overlay r u)
unfolding overlay
overlay-set_overlay r t tm u = ground (arith, get-put r.tenants t u tm)

-- An operation that writes to a tenant's map, with the range that it visits.
pub data Op : Type 0 where
  register : Time → String → ToolDefinition → Op
  update : List (String × ToolDefinition) → String → String → ToolDefinition → Op
  delete : List (String × ToolDefinition) → String → String → Op

abbrev pub tenant_of : Op → String
tenant_of (register now t def) = t
tenant_of (update visit t id def) = t
tenant_of (delete visit t id) = t

abbrev pub apply : Op → LiteToolRegistry → LiteToolRegistry
apply (register now t def) r = register_tool now t def r
apply (update visit t id def) r = (update_tool visit t id def r).1
apply (delete visit t id) r = (delete_tool visit t id r).1

module _ (visit : List (String × ToolDefinition)) (t id : String) (def : ToolDefinition)
    (r : LiteToolRegistry) where
  pub update_missing :
      GoMap.get r.tenants t ≡ none → update_tool visit t id def r ≡ (err not_found, r)
  unfolding update_tool
  update_missing none_there = ground arith

  pub update_lacking :
      name_of_id id visit ≡ none → update_tool visit t id def r ≡ (err not_found, r)
  unfolding update_tool
  update_lacking lacking = ground arith

  pub update_found :
      (tm : GoMap ToolDefinition) (n : String)
      → GoMap.get r.tenants t ≡ some tm
      → name_of_id id visit ≡ some n
      → update_tool visit t id def r ≡ (ok tt, set_overlay r t (replace_tool t id def n tm))
  unfolding update_tool
  update_found tm n at_t found = ground arith

module _ (visit : List (String × ToolDefinition)) (t id : String) (r : LiteToolRegistry) where
  pub delete_missing : GoMap.get r.tenants t ≡ none → delete_tool visit t id r ≡ (err not_found, r)
  unfolding delete_tool
  delete_missing none_there = ground arith

  pub delete_lacking : name_of_id id visit ≡ none → delete_tool visit t id r ≡ (err not_found, r)
  unfolding delete_tool
  delete_lacking lacking = ground arith

  pub delete_found :
      (tm : GoMap ToolDefinition) (n : String)
      → GoMap.get r.tenants t ≡ some tm
      → name_of_id id visit ≡ some n
      → delete_tool visit t id r ≡ (ok tt, set_overlay r t (GoMap.delete tm n))
  unfolding delete_tool
  delete_found tm n at_t found = ground arith

abbrev second : Reply → LiteToolRegistry
second = λ p. p.1

-- Every operation sets the overlay of its tenant, or changes nothing.
abbrev Writes : String → LiteToolRegistry → LiteToolRegistry → Type 0
Writes t r after = ((tm : GoMap ToolDefinition) × (after ≡ set_overlay r t tm)) ⊎ (after ≡ r)

apply-Writes : (op : Op) (r : LiteToolRegistry) → Writes (tenant_of op) r (apply op r)
unfolding register_tool
apply-Writes (register now t def) r = inl (_, refl)
apply-Writes (update visit t id def) r = elim (Option-cases (GoMap.get r.tenants t)) [
  | inl missing ↦ inr (ap second (update_missing visit t id def r missing))
  | inr (tm, at_t) ↦ elim (Option-cases (name_of_id id visit)) [
    | inl lacking ↦ inr (ap second (update_lacking visit t id def r lacking))
    | inr (n, found) ↦
        inl (replace_tool t id def n tm, ap second (update_found visit t id def r tm n at_t found))
  ]
]
apply-Writes (delete visit t id) r = elim (Option-cases (GoMap.get r.tenants t)) [
  | inl missing ↦ inr (ap second (delete_missing visit t id r missing))
  | inr (tm, at_t) ↦ elim (Option-cases (name_of_id id visit)) [
    | inl lacking ↦ inr (ap second (delete_lacking visit t id r lacking))
    | inr (n, found) ↦
        inl (GoMap.delete tm n, ap second (delete_found visit t id r tm n at_t found))
  ]
]

view-set_overlay_ne :
    (r : LiteToolRegistry) (t : String) (tm : GoMap ToolDefinition) (u name : String)
    → t ≢ u
    → view (set_overlay r t tm) u name ≡ view r u name
unfolding view
view-set_overlay_ne r t tm u name other =
    let same : overlay (set_overlay r t tm) u ≡ overlay r u =
      ground (arith, overlay-set_overlay r t tm u, eq_iff t u, other) in
    ap (λ (x : GoMap ToolDefinition). view_in x r.globals name) same

Writes-view :
    (t : String) (r after : LiteToolRegistry) (u name : String)
    → Writes t r after
    → t ≢ u
    → view after u name ≡ view r u name
Writes-view t r after u name (inl (tm, e)) other =
    ap (λ (x : LiteToolRegistry). view x u name) e ∙ view-set_overlay_ne r t tm u name other
Writes-view t r after u name (inr e) other = ap (λ (x : LiteToolRegistry). view x u name) e

-- Tenants are isolated: an operation of one tenant, successful or not, changes no definition that
-- another tenant sees.
pub tenant_isolation :
    (op : Op) (r : LiteToolRegistry) (t name : String)
    → tenant_of op ≢ t
    → view (apply op r) t name ≡ view r t name
tenant_isolation op r t name other =
    Writes-view (tenant_of op) r (apply op r) t name (apply-Writes op r) other
