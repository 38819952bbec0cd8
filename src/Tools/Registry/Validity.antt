-- ===== src/Tools/Registry/Validity.antt =====
-- tools/registry.go: the three maps agree, and every registered name is classified.
use openharness.Prelude.{
  String, ◌≡◌, ◌≢◌, refl, Bool, true, false, Option, none, some, List, [], ◌∷◌, arith, eq_iff, Has,
  ◌==◌, if◌then◌else◌, Option-cases, inl, inr, ◌↔◌,
}
use openharness.Prelude.GoMap
use openharness.Prelude.GoMap.{GoMap, get-put, get-delete, get-empty}
use openharness.Tools.Definitions.{ToolEffect, unspecified, ToolDefinition, Tool}
use openharness.Tools.Registry
use openharness.Tools.Registry.{
  Registry, new_registry, check_effects, add_definition, add_definitions, register, effects_for,
  unregister,
}

-- What the registry holds under one name: nothing at all, or a tool that publishes a classified
-- definition of that name, with its category and its effects.
abbrev pub Slot : String → Option Tool → Option String → Option ToolEffect → Type 0
Slot name none none none = Unit
Slot name (some t) (some category) (some e) =
    (def : ToolDefinition) × Has def t.definitions
    × (def.name ≡ name)
    × (def.effects ≡ e)
    × (e ≢ unspecified)
Slot name _ _ _ = ⊥

pub record IsValid (r : Registry) : Type 0 where
  pub slot :
      (name : String)
      → Slot name (GoMap.get r.tools name) (GoMap.get r.categories name) (GoMap.get r.effects name)

pub IsValid-new_registry : IsValid new_registry
unfolding new_registry GoMap.get
IsValid-new_registry = record { slot = λ name. tt }

-- Every definition in the list is classified.
abbrev pub Classified : List ToolDefinition → Type 0
Classified [] = Unit
Classified (def ∷ defs) = (def.effects ≢ unspecified) × Classified defs

pub check_effects-Classified :
    (defs : List ToolDefinition) → check_effects defs ≡ none → Classified defs
unfolding check_effects
check_effects-Classified [] h = tt
check_effects-Classified (def ∷ defs) h =
    (λ e. ground arith, check_effects-Classified defs (ground arith))

Slot-if :
    (name : String) (b : Bool) (t u : Option Tool) (c d : Option String) (e f : Option ToolEffect)
    → (b ≡ true → Slot name t c e)
    → Slot name u d f
    → Slot name (if b then t else u) (if b then c else d) (if b then e else f)
Slot-if name true t u c d e f new old = new refl
Slot-if name false t u c d e f new old = old

pub add_definition-IsValid :
    (category : String) (t : Tool) (def : ToolDefinition) (r : Registry)
    → Has def t.definitions
    → def.effects ≢ unspecified
    → IsValid r
    → IsValid (add_definition category t def r)
unfolding add_definition
add_definition-IsValid category t def r published classified v = record {
  slot = λ name.
      rw
        (
          get-put r.tools def.name name t,
          get-put r.categories def.name name category,
          get-put r.effects def.name name def.effects,
        )
        (Slot-if name (def.name == name) _ _ _ _ _ _
          (λ same. (def, published, (eq_iff def.name name).0 same, refl, classified))
          (v.slot name));
}

add_definitions-IsValid :
    (category : String) (t : Tool) (defs : List ToolDefinition) (r : Registry)
    → ((def : ToolDefinition) → Has def defs → Has def t.definitions)
    → Classified defs
    → IsValid r
    → IsValid (add_definitions category t defs r).1
unfolding add_definitions
add_definitions-IsValid category t [] r published classified v = v
add_definitions-IsValid category t (def ∷ defs) r published classified v =
    elim (Option-cases (GoMap.get r.tools def.name)) [
      | inl free ↦
          rw (free, add_definitions)
            (add_definitions-IsValid category t defs (add_definition category t def r)
              (λ d m. published d (inr m)) classified.1
              (add_definition-IsValid category t def r (published def (inl refl)) classified.0 v))
      | inr (u, taken) ↦ rw (taken, add_definitions) v
    ]

-- A registration, whether it succeeds or fails half way, keeps the registry valid.
pub register-IsValid :
    (category : String) (t : Tool) (r : Registry) → IsValid r → IsValid (register category t r).1
unfolding register
register-IsValid category t r v = elim (Option-cases (check_effects t.definitions)) [
  | inl classified ↦
      rw (classified, register)
        (add_definitions-IsValid category t t.definitions r (λ d m. m)
          (check_effects-Classified t.definitions classified) v)
  | inr (e, refused) ↦ rw (refused, register) v
]

-- Taking a name out keeps the registry valid.
pub unregister-IsValid : (name : String) (r : Registry) → IsValid r → IsValid (unregister name r)
unfolding unregister
unregister-IsValid name r v = record {
  slot = λ k.
      rw (get-delete r.tools name k, get-delete r.categories name k, get-delete r.effects name k)
        (Slot-if k (name == k) none _ none _ none _ (λ _. tt) (v.slot k));
}

Slot-effects :
    (name : String) (t : Option Tool) (c : Option String) (e : Option ToolEffect)
    → Slot name t c e
    → (elim e [ none ↦ unspecified | some x ↦ x ] ≡ unspecified) ↔ (t ≡ none)
Slot-effects name none none none s = (λ h. refl, λ h. refl)
Slot-effects name (some t) (some c) (some e) s = (λ h. absurd (s.4 h), λ h. absurd (cc))
Slot-effects name none (some c) e s = absurd s
Slot-effects name none none (some e) s = absurd s
Slot-effects name (some t) none e s = absurd s
Slot-effects name (some t) (some c) none s = absurd s

-- In a valid registry a name has unspecified effects exactly when no tool has it.
pub effects_for-unspecified_iff :
    (name : String) (r : Registry)
    → IsValid r
    → (effects_for name r ≡ unspecified) ↔ (Registry.get name r ≡ none)
unfolding effects_for Registry.get
effects_for-unspecified_iff name r v = Slot-effects name _ _ _ (v.slot name)
