-- ===== src/Lite/ToolRegistry/Deletion.antt =====
-- harness/lite/registry.go: registering a tool, and deleting it again.
use openharness.Prelude.{
  String, ◌≡◌, ◌≢◌, refl, ap, sym, ◌∙◌, none, some, List, arith, eq_iff, eq_refl, Bool-cases,
  Option-cases, inl, inr, ◌==◌, if◌then◌else◌,
}
use openharness.Prelude.Result.{ok, err}
use openharness.Prelude.GoMap
use openharness.Prelude.GoMap.{
  GoMap, IsRange, get-put, get-delete, get-put_cases, get-put_self, get-put_ne, get-empty,
}
use openharness.Harness.Errors.{not_found}
use openharness.Harness.Types.{Time, ToolDefinition}
use openharness.Lite.ToolRegistry.{
  LiteToolRegistry, Reply, overlay, set_overlay, registered, register_tool, name_of_id, delete_tool,
}
use openharness.Lite.ToolRegistry.Resolution.{view, view_in}
use openharness.Lite.ToolRegistry.Ids.{Found, Lacks, name_of_id-Found, name_of_id-Lacks}
use openharness.Lite.ToolRegistry.Tenants.{delete_missing, delete_lacking, delete_found}
use openharness.Lite.ToolRegistry.Replacement.{
  overlay_of_found, overlay-set_overlay_self, Lacks-of_missing,
}

module _ (tm globals : GoMap ToolDefinition) (n k : String) where
  view_in-put :
      (def : ToolDefinition)
      → view_in (GoMap.put tm n def) globals k ≡ (if n == k then some def else view_in tm globals k)
  unfolding view_in
  view_in-put def = ground (arith, get-put tm n k def)

  view_in-delete :
      view_in (GoMap.delete tm n) globals k
      ≡ (if n == k then GoMap.get globals k else view_in tm globals k)
  unfolding view_in
  view_in-delete = ground (arith, get-delete tm n k)

view-set_overlay_self :
    (r : LiteToolRegistry) (t : String) (tm : GoMap ToolDefinition) (k : String)
    → view (set_overlay r t tm) t k ≡ view_in tm r.globals k
unfolding view
view-set_overlay_self r t tm k =
    ap (λ (x : GoMap ToolDefinition). view_in x r.globals k) (overlay-set_overlay_self r t tm)

-- A registered tool shadows the global one of its name for its tenant, and nothing else changes for
-- that tenant.
pub view-register_tool :
    (now : Time) (t : String) (def : ToolDefinition) (r : LiteToolRegistry) (k : String)
    → view (register_tool now t def r) t k
      ≡ (if def.name == k then some (registered now t def) else view r t k)
unfolding register_tool view
view-register_tool now t def r k =
    view-set_overlay_self r t (GoMap.put (overlay r t) def.name (registered now t def)) k
    ∙ view_in-put (overlay r t) r.globals def.name k (registered now t def)

-- How a deletion by id ended: the tool with the id is gone, so that the tenant sees the global one of
-- its name, and every other name is as it was; or no tool of the tenant has the id.
pub record Deleted (r after : LiteToolRegistry) (t id : String) : Type 0 where
  pub name : String
  pub found : Found (overlay r t) id name
  pub uncovered : view after t name ≡ GoMap.get r.globals name
  pub others : (k : String) → name ≢ k → view after t k ≡ view r t k

abbrev pub DeleteOutcome : LiteToolRegistry → String → String → Reply → Type 0
DeleteOutcome r t id (ok _, after) = Deleted r after t id
DeleteOutcome r t id (err e, after) = (e ≡ not_found) × (after ≡ r) × Lacks (overlay r t) id

delete-Deleted :
    (r : LiteToolRegistry) (t id n : String) (tm : GoMap ToolDefinition)
    → overlay r t ≡ tm
    → Found (overlay r t) id n
    → Deleted r (set_overlay r t (GoMap.delete tm n)) t id
unfolding view
delete-Deleted r t id n tm at_t f = record {
  name = n;
  found = f;
  uncovered =
      view-set_overlay_self r t (GoMap.delete tm n) n
      ∙ (view_in-delete tm r.globals n n ∙ simp eq_refl);
  others = λ k ne.
      view-set_overlay_self r t (GoMap.delete tm n) k
      ∙ ground (arith, view_in-delete tm r.globals n k, at_t, eq_iff n k, ne);
}

-- A deletion by id, over any range of the tenant's map, removes the tool with the id and nothing
-- else, or finds no tool of the tenant with the id and changes nothing.
pub delete_tool_outcome :
    (visit : List (String × ToolDefinition)) (t id : String) (r : LiteToolRegistry)
    → IsRange (overlay r t) visit
    → DeleteOutcome r t id (delete_tool visit t id r)
delete_tool_outcome visit t id r range = elim (Option-cases (GoMap.get r.tenants t)) [
  | inl missing ↦
      rw (delete_missing visit t id r missing) (refl, refl, Lacks-of_missing r t id missing)
  | inr (tm, at_t) ↦ elim (Option-cases (name_of_id id visit)) [
    | inl lacking ↦
        rw (delete_lacking visit t id r lacking)
          (refl, refl, name_of_id-Lacks (overlay r t) range id lacking)
    | inr (n, found) ↦ rw (delete_found visit t id r tm n at_t found) (
        delete-Deleted r t id n tm (overlay_of_found r t tm at_t)
          (name_of_id-Found (overlay r t) range id n found))
  ]
]

overlay-register_tool :
    (now : Time) (t : String) (def : ToolDefinition) (r : LiteToolRegistry)
    → overlay (register_tool now t def r) t
      ≡ GoMap.put (overlay r t) def.name (registered now t def)
unfolding register_tool
overlay-register_tool now t def r =
    overlay-set_overlay_self r t (GoMap.put (overlay r t) def.name (registered now t def))

registered-id :
    (now : Time) (t : String) (def : ToolDefinition)
    → def.id ≢ ""
    → (registered now t def).id ≡ def.id
unfolding registered
registered-id now t def given = ground (arith, eq_iff def.id "", given)

view_of_free :
    (r : LiteToolRegistry) (t k : String)
    → GoMap.get (overlay r t) k ≡ none
    → view r t k ≡ GoMap.get r.globals k
unfolding view view_in
view_of_free r t k free = ground (arith, free)

globals-register_tool :
    (now : Time) (t : String) (def : ToolDefinition) (r : LiteToolRegistry)
    → (register_tool now t def r).globals ≡ r.globals
unfolding register_tool
globals-register_tool now t def r = refl

module _ (now : Time) (t : String) (def : ToolDefinition) (r : LiteToolRegistry)
    (given : def.id ≢ "") (lacks : Lacks (overlay r t) def.id)
    (free : GoMap.get (overlay r t) def.name ≡ none) where
  abbrev added : LiteToolRegistry
  added = register_tool now t def r

  -- the only tool with the id is the one just registered
  Found-there : {n : String} → Found (overlay added t) def.id n → def.name ≡ n
  Found-there {n} f =
      elim (get-put_cases (overlay r t) def.name n (registered now t def)
        (rw (overlay-register_tool now t def r) at f.stored)) [
          | inl (e, _) ↦ e
          | inr (_, old) ↦ absurd (lacks n f.tool old f.has_id)
        ]

  restored :
      (reply : Reply)
      → DeleteOutcome added t def.id reply
      → (reply.0 ≡ ok tt) × ((k : String) → view reply.1 t k ≡ view r t k)
  restored (ok _, after) d = (
    refl,
    λ k. elim (Bool-cases (def.name == k)) [
      | inl same ↦
          let e : d.name ≡ k = sym (Found-there d.found) ∙ (eq_iff def.name k).0 same in
          let free_k : GoMap.get (overlay r t) k ≡ none =
            ap (GoMap.get (overlay r t)) (sym ((eq_iff def.name k).0 same)) ∙ free in
          cc (e, d.uncovered, view_of_free r t k free_k, globals-register_tool now t def r)
      | inr other ↦
          d.others k (λ e. ground (arith, eq_iff def.name k, Found-there d.found, e))
          ∙ ground (arith, view-register_tool now t def r k, other)
    ],
  )
  restored (err e, after) (_, _, none_there) = absurd (
      none_there def.name (registered now t def)
        (rw (overlay-register_tool now t def r) (get-put_self (overlay r t) def.name _))
        (registered-id now t def given))

-- Registering a tool under a free name and with an id that no tool of the tenant has, and then
-- deleting by that id, over any range, succeeds and restores every name that the tenant sees.
pub delete-register_tool :
    (now : Time) (t : String) (def : ToolDefinition) (r : LiteToolRegistry)
    (visit : List (String × ToolDefinition))
    → def.id ≢ ""
    → Lacks (overlay r t) def.id
    → GoMap.get (overlay r t) def.name ≡ none
    → IsRange (overlay (register_tool now t def r) t) visit
    → ((delete_tool visit t def.id (register_tool now t def r)).0 ≡ ok tt)
      × ((k : String)
          → view (delete_tool visit t def.id (register_tool now t def r)).1 t k ≡ view r t k)
delete-register_tool now t def r visit given lacks free range =
    restored now t def r given lacks free (delete_tool visit t def.id (register_tool now t def r))
      (delete_tool_outcome visit t def.id (register_tool now t def r) range)
