-- ===== src/Lite/ToolRegistry/Resolution.antt =====
-- harness/lite/registry.go: `Resolve` against the view of a registry, and `VerifyTool`.
use openharness.Prelude.{
  String, ◌≡◌, ◌≢◌, refl, true, Option, none, some, List, [], ◌∷◌, map, arith, Has, ◌↔◌, inl, inr,
  eq_iff,
}
use openharness.Prelude.Result.{Result, ok, err, ◌>>=◌}
use openharness.Prelude.GoMap
use openharness.Prelude.GoMap.{GoMap}
use openharness.Harness.Errors.{HarnessError, not_found}
use openharness.Harness.Types.{ToolDefinition}
use openharness.Lite.ToolRegistry.{
  LiteToolRegistry, overlay, resolve_one, resolve_all, resolve, verify_tool,
}

-- The definition under a name in a map that lies over another.
unfoldable pub view_in :
    GoMap ToolDefinition → GoMap ToolDefinition → String → Option ToolDefinition
view_in tm globals name = elim (GoMap.get tm name) [
  | some def ↦ some def
  | none ↦ GoMap.get globals name
]

-- The definition that a tenant sees under a name: its own, or else the global one.
unfoldable pub view : LiteToolRegistry → String → String → Option ToolDefinition
view r tenant_id name = view_in (overlay r tenant_id) r.globals name

abbrev of_view : Option ToolDefinition → Result HarnessError ToolDefinition
of_view none = err not_found
of_view (some def) = ok def

resolve_one-view :
    (r : LiteToolRegistry) (tenant_id name : String)
    → resolve_one (overlay r tenant_id) r name ≡ of_view (view r tenant_id name)
unfolding resolve_one view view_in
resolve_one-view r tenant_id name = ground arith

-- How a resolution ended: every name had a definition, in the order of the names, or one had none.
abbrev pub Resolved :
    LiteToolRegistry → String → List String → Result HarnessError (List ToolDefinition) → Type 0
Resolved r tenant_id names (ok defs) = map (view r tenant_id) names ≡ map some defs
Resolved r tenant_id names (err e) =
    (e ≡ not_found) × (name : String) × Has name names × (view r tenant_id name ≡ none)

module _ (r : LiteToolRegistry) (tenant_id : String) where
  Resolved-cons :
      (name : String) (names : List String) (o : Option ToolDefinition)
      (rest : Result HarnessError (List ToolDefinition))
      → view r tenant_id name ≡ o
      → Resolved r tenant_id names rest
      → Resolved r tenant_id (name ∷ names) (of_view o >>= λ def. rest >>= λ defs. ok (def ∷ defs))
  Resolved-cons name names none rest seen h = (refl, name, inl refl, seen)
  Resolved-cons name names (some def) (ok defs) seen h = cc
  Resolved-cons name names (some def) (err e) seen h = (h.0, h.1, inr h.2, h.3)

  resolve_all-Resolved :
      (names : List String) → Resolved r tenant_id names (resolve_all (overlay r tenant_id) r names)
  unfolding resolve_all
  resolve_all-Resolved [] = refl
  resolve_all-Resolved (name ∷ names) =
      rw (resolve_one-view r tenant_id name)
        (Resolved-cons name names (view r tenant_id name) _ refl (resolve_all-Resolved names))

-- A resolution returns the definition that the tenant sees for each of the names, in their order,
-- or `ErrNotFound` when the tenant sees none for one of them.
pub resolve-Resolved :
    (r : LiteToolRegistry) (tenant_id : String) (names : List String)
    → Resolved r tenant_id names (resolve tenant_id names r)
unfolding resolve
resolve-Resolved r tenant_id names = resolve_all-Resolved r tenant_id names

-- A definition passes verification exactly when its name, description and category are given, and
-- exactly then there are no errors.
pub verify_tool_iff :
    (def : ToolDefinition)
    → ((verify_tool def).valid ≡ true
        ↔ ((def.name ≢ "") × (def.description ≢ "") × (def.category ≢ "")))
      × ((verify_tool def).valid ≡ true ↔ ((verify_tool def).errors ≡ []))
unfolding verify_tool
verify_tool_iff def = (
  (
    λ h. (
      λ e. ground (arith, eq_iff def.name ""),
      λ e. ground (arith, eq_iff def.name "", eq_iff def.description ""),
      λ e. ground (arith, eq_iff def.name "", eq_iff def.description "", eq_iff def.category ""),
    ),
    λ h. ground (
      arith,
      h.0,
      h.1,
      h.2,
      eq_iff def.name "",
      eq_iff def.description "",
      eq_iff def.category "",
    ),
  ),
  (λ h. ground arith, λ h. ground arith),
)
