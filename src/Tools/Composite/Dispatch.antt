-- ===== src/Tools/Composite/Dispatch.antt =====
-- tools/composite.go: the names that are dispatched are those that are published.
use openharness.Prelude.{
  String, true, false, ◌≡◌, refl, ap, sym, ◌⊎◌, inl, inr, none, some, Option-cases, List, [], ◌∷◌,
  ◌++◌, ◌==◌, eq_iff, Bool-cases, Has, arith,
}
use openharness.Tools.Definitions.{ToolDefinition, Tool}
use openharness.Tools.Composite.{Composite, merged, definitions, owns, owner}
use mathlib.Core.Path.{subst}

-- There is a definition of the name.
abbrev pub Publishes : String → List ToolDefinition → Type 0
Publishes name defs = (d : ToolDefinition) × Has d defs × (d.name ≡ name)

owns-Publishes :
    (name : String) (defs : List ToolDefinition) → owns name defs ≡ true → Publishes name defs
unfolding owns
owns-Publishes name [] h = absurd (ground (arith, h))
owns-Publishes name (d ∷ defs) h = elim (Bool-cases (d.name == name)) [
  | inl e ↦ (d, inl refl, (eq_iff d.name name).0 e)
  | inr e ↦
      let (found, there, named) = owns-Publishes name defs (rw e at h) in (found, inr there, named)
]

owns-false :
    (name : String) (defs : List ToolDefinition) → owns name defs ≡ false → Publishes name defs → ⊥
unfolding owns
owns-false name [] h (d, there, named) = there
owns-false name (first ∷ defs) h (d, there, named) = elim (Bool-cases (first.name == name)) [
  | inl e ↦ absurd (ground (arith, h, e))
  | inr e ↦ elim there [
    | inr later ↦ owns-false name defs (rw e at h) (d, later, named)
    | inl here ↦
        let same : first.name ≡ name = subst (λ (x : ToolDefinition). x.name ≡ name) here named in
        ground (arith, e, eq_iff first.name name, same)
  ]
]

Has-left : (d : ToolDefinition) (a b : List ToolDefinition) → Has d a → Has d (a ++ b)
Has-left d [] b there = absurd there
Has-left d (x ∷ a) b (inl here) = inl here
Has-left d (x ∷ a) b (inr later) = inr (Has-left d a b later)

Has-right : (d : ToolDefinition) (a b : List ToolDefinition) → Has d b → Has d (a ++ b)
Has-right d [] b there = there
Has-right d (x ∷ a) b there = inr (Has-right d a b there)

Has-split : (d : ToolDefinition) (a b : List ToolDefinition) → Has d (a ++ b) → Has d a ⊎ Has d b
Has-split d [] b there = inr there
Has-split d (x ∷ a) b (inl here) = inl (inl here)
Has-split d (x ∷ a) b (inr later) = elim (Has-split d a b later) [
  | inl left ↦ inl (inr left)
  | inr right ↦ inr right
]

-- the tool has a definition of the name, and no tool before it in the list has one
pub record IsOwner (name : String) (tools : List Tool) (t : Tool) : Type 0 where
  pub before : List Tool
  pub after : List Tool
  pub split : tools ≡ before ++ t ∷ after
  pub owned : Publishes name t.definitions
  pub earlier : (u : Tool) → Has u before → Publishes name u.definitions → ⊥

some_eq : {t u : Tool} → some u ≡ some t → u ≡ t
some_eq h = ground (arith, h)

owner-IsOwner :
    (name : String) (tools : List Tool) (t : Tool)
    → owner name tools ≡ some t
    → IsOwner name tools t
unfolding owner
owner-IsOwner name [] t = λ h. absurd (ground (arith, h))
owner-IsOwner name (u ∷ tools) t = elim (Bool-cases (owns name u.definitions)) [
  | inl e ↦
      rw (e, owner)
        (λ h. record {
          before = [];
          after = tools;
          split = ap (λ (x : Tool). x ∷ tools) (some_eq h);
          owned =
              subst (λ (x : Tool). Publishes name x.definitions) (some_eq h)
                (owns-Publishes name u.definitions e);
          earlier = λ x there. absurd there;
        })
  | inr e ↦
      rw (e, owner)
        (λ h.
          let rest = owner-IsOwner name tools t h in
          record {
            before = u ∷ rest.before;
            after = rest.after;
            split = ap (◌∷◌ u) rest.split;
            owned = rest.owned;
            earlier = λ x there. elim there [
              | inl here ↦ λ p.
                  owns-false name u.definitions e
                    (subst (λ (y : Tool). Publishes name y.definitions) here p)
              | inr later ↦ rest.earlier x later
            ];
          })
]

owner-none :
    (name : String) (tools : List Tool)
    → owner name tools ≡ none
    → Publishes name (merged tools)
    → ⊥
unfolding owner merged
owner-none name [] h (d, there, named) = there
owner-none name (u ∷ tools) h (d, there, named) = elim (Bool-cases (owns name u.definitions)) [
  | inl e ↦ absurd (ground (arith, h, e))
  | inr e ↦ elim (Has-split d u.definitions (merged tools) there) [
    | inl here ↦ owns-false name u.definitions e (d, here, named)
    | inr later ↦ owner-none name tools (rw e at h) (d, later, named)
  ]
]

merged-append :
    (before after : List Tool) (t : Tool) (d : ToolDefinition)
    → Has d t.definitions
    → Has d (merged (before ++ t ∷ after))
unfolding merged
merged-append [] after t d there = Has-left d t.definitions (merged after) there
merged-append (u ∷ before) after t d there =
    Has-right d u.definitions _ (merged-append before after t d there)

-- A name has no owner where the composite publishes no definition of it. Otherwise its owner is the
-- first of the tools, in order, that has a definition of it, which the composite publishes.
pub owner_outcome :
    (c : Composite) (name : String)
    → ((owner name c.tools ≡ none) × (Publishes name (definitions c) → ⊥))
      ⊎ ((t : Tool) × (owner name c.tools ≡ some t)
          × Publishes name (definitions c)
          × IsOwner name c.tools t)
unfolding definitions
owner_outcome c name = elim (Option-cases (owner name c.tools)) [
  | inl e ↦ inl (e, owner-none name c.tools e)
  | inr (t, e) ↦
      let found = owner-IsOwner name c.tools t e in
      let (d, there, named) = found.owned in
      let published = merged-append found.before found.after t d there in
      inr
        (t, e, (d, subst (λ tools. Has d (merged tools)) (sym found.split) published, named), found)
]
