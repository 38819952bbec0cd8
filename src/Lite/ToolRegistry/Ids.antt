-- ===== src/Lite/ToolRegistry/Ids.antt =====
-- harness/lite/registry.go: tools found by id. The search meets the entries in the order of a range.
use openharness.Prelude.{
  String, ◌≡◌, ◌≢◌, ap, sym, ◌∙◌, none, some, List, [], ◌∷◌, arith, Has, eq_iff, Bool-cases,
  Option-cases, inl, inr, ◌==◌,
}
use openharness.Prelude.GoMap
use openharness.Prelude.GoMap.{GoMap, IsRange, Has-of_find, find_of_Has}
use openharness.Harness.Types.{ToolDefinition}
use openharness.Lite.ToolRegistry.{LiteToolRegistry, overlay, name_of_id, update_tool, delete_tool}

name_of_id_sound :
    (id name : String) (visit : List (String × ToolDefinition))
    → name_of_id id visit ≡ some name
    → (d : ToolDefinition) × Has (name, d) visit × (d.id ≡ id)
unfolding name_of_id
name_of_id_sound id name [] h = absurd (cc)
name_of_id_sound id name ((n, d) ∷ visit) h = elim (Bool-cases (d.id == id)) [
  | inl same ↦ (d, inl (ground arith), (eq_iff d.id id).0 same)
  | inr other ↦
      let (e, at_e, is) = name_of_id_sound id name visit (ground arith) in (e, inr at_e, is)
]

name_of_id-none :
    (id : String) (visit : List (String × ToolDefinition))
    → name_of_id id visit ≡ none
    → (name : String) (d : ToolDefinition) → Has (name, d) visit
    → d.id ≢ id
unfolding name_of_id
name_of_id-none id [] h name d m = absurd m
name_of_id-none id ((n, e) ∷ visit) h name d (inl same) =
    λ is. ground (arith, eq_iff e.id id, ap (λ (x : String × ToolDefinition). x.1) same)
name_of_id-none id ((n, e) ∷ visit) h name d (inr more) =
    name_of_id-none id visit (ground arith) name d more

-- What the search says of a map, whatever the range.
pub record Found (tm : GoMap ToolDefinition) (id name : String) : Type 0 where
  pub tool : ToolDefinition
  pub stored : GoMap.get tm name ≡ some tool
  pub has_id : tool.id ≡ id

abbrev pub Lacks : GoMap ToolDefinition → String → Type 0
Lacks tm id = (name : String) (d : ToolDefinition) → GoMap.get tm name ≡ some d → d.id ≢ id

module _ (tm : GoMap ToolDefinition) {visit : List (String × ToolDefinition)}
    (range : IsRange tm visit) (id : String) where
  pub name_of_id-Found : (name : String) → name_of_id id visit ≡ some name → Found tm id name
  name_of_id-Found name h =
      let (d, at_d, is) = name_of_id_sound id name visit h in
      record {
        tool = d;
        stored = sym (range.same name) ∙ find_of_Has name d visit range.distinct at_d;
        has_id = is;
      }

  pub name_of_id-Lacks : name_of_id id visit ≡ none → Lacks tm id
  name_of_id-Lacks h name d at_d =
      name_of_id-none id visit h name d (Has-of_find name d visit (range.same name ∙ at_d))

-- No two tools of the map have one id.
abbrev pub UniqueIds : GoMap ToolDefinition → Type 0
UniqueIds tm =
    (m n : String) (d e : ToolDefinition)
    → GoMap.get tm m ≡ some d
    → GoMap.get tm n ≡ some e
    → d.id ≡ e.id
    → m ≡ n

name_of_id_unique :
    (tm : GoMap ToolDefinition) {v w : List (String × ToolDefinition)}
    → IsRange tm v
    → IsRange tm w
    → UniqueIds tm
    → (id : String) → name_of_id id v ≡ name_of_id id w
name_of_id_unique tm {v} {w} rv rw_ unique id = elim (Option-cases (name_of_id id v)) [
  | inl no_v ↦ elim (Option-cases (name_of_id id w)) [
    | inl no_w ↦ no_v ∙ sym no_w
    | inr (n, in_w) ↦
        let f = name_of_id-Found tm rw_ id n in_w in
        absurd (name_of_id-Lacks tm rv id no_v n f.tool f.stored f.has_id)
  ]
  | inr (m, in_v) ↦ elim (Option-cases (name_of_id id w)) [
    | inl no_w ↦
        let f = name_of_id-Found tm rv id m in_v in
        absurd (name_of_id-Lacks tm rw_ id no_w m f.tool f.stored f.has_id)
    | inr (n, in_w) ↦
        let f = name_of_id-Found tm rv id m in_v in
        let g = name_of_id-Found tm rw_ id n in_w in
        in_v
        ∙ (ap (λ (x : String). some x)
              (unique m n f.tool g.tool f.stored g.stored (f.has_id ∙ sym g.has_id))
            ∙ sym in_w)
  ]
]

-- While no two tools of a tenant have one id, the order of the range does not matter: an update or a
-- deletion by id has the same result and the same effect for every range of the tenant's map.
pub by_id_order :
    (r : LiteToolRegistry) (tenant_id tool_id : String) (def : ToolDefinition)
    (v w : List (String × ToolDefinition))
    → IsRange (overlay r tenant_id) v
    → IsRange (overlay r tenant_id) w
    → UniqueIds (overlay r tenant_id)
    → (update_tool v tenant_id tool_id def r ≡ update_tool w tenant_id tool_id def r)
      × (delete_tool v tenant_id tool_id r ≡ delete_tool w tenant_id tool_id r)
unfolding update_tool delete_tool
by_id_order r tenant_id tool_id def v w rv rw_ unique =
    let same = name_of_id_unique (overlay r tenant_id) rv rw_ unique tool_id in
    (ground (arith, same), ground (arith, same))
