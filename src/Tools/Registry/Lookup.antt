-- ===== src/Tools/Registry/Lookup.antt =====
-- tools/registry.go: `ToolsByNames` returns each of the named tools once.
use openharness.Prelude.{
  String, ◌≡◌, refl, ap, sym, ◌∙◌, true, false, none, some, List, [], ◌∷◌, arith, Has, Bool-cases,
  Option-cases, ◌⊎◌, inl, inr,
}
use openharness.Prelude.GoMap
use openharness.Tools.Definitions.{Tool, same_tool}
use openharness.Tools.Registry.{Registry, seen_before, tools_by_names_from, tools_by_names}

-- No two tools of the list are the same.
abbrev pub IsDistinct : List Tool → Type 0
IsDistinct [] = Unit
IsDistinct (t ∷ l) = (seen_before t l ≡ false) × IsDistinct l

seen_before-false :
    (t : Tool) (l : List Tool)
    → ((u : Tool) → Has u l → same_tool t u ≡ false)
    → seen_before t l ≡ false
unfolding seen_before
seen_before-false t [] h = refl
seen_before-false t (u ∷ l) h =
    ground (arith, h u (inl refl), seen_before-false t l (λ w m. h w (inr m)))

module _ (r : Registry) (seen : List Tool) (name : String) (names : List String) where
  step_missing :
      GoMap.get r.tools name ≡ none
      → tools_by_names_from seen (name ∷ names) r ≡ tools_by_names_from seen names r
  unfolding tools_by_names_from
  step_missing missing = rw (missing, tools_by_names_from)

  step_seen :
      (t : Tool)
      → GoMap.get r.tools name ≡ some t
      → seen_before t seen ≡ true
      → tools_by_names_from seen (name ∷ names) r ≡ tools_by_names_from seen names r
  unfolding tools_by_names_from
  step_seen t at_t old = rw (at_t, tools_by_names_from) (rw old)

  step_new :
      (t : Tool)
      → GoMap.get r.tools name ≡ some t
      → seen_before t seen ≡ false
      → tools_by_names_from seen (name ∷ names) r ≡ (t ∷ tools_by_names_from (t ∷ seen) names r)
  unfolding tools_by_names_from
  step_new t at_t new = rw (at_t, tools_by_names_from) (rw new)

-- A tool that is new to those seen, and that one of the names has.
record Named (r : Registry) (seen : List Tool) (names : List String) (u : Tool) : Type 0 where
  new : seen_before u seen ≡ false
  name : String
  asked : Has name names
  held : GoMap.get r.tools name ≡ some u

module _ (r : Registry) where
  Named-skip :
      (seen : List Tool) (name : String) (names : List String) (u : Tool)
      → Named r seen names u
      → Named r seen (name ∷ names) u
  Named-skip seen name names u n = record {
    new = n.new;
    name = n.name;
    asked = inr n.asked;
    held = n.held;
  }

  seen_before-tail :
      (u t : Tool) (seen : List Tool)
      → seen_before u (t ∷ seen) ≡ false
      → seen_before u seen ≡ false
  unfolding seen_before
  seen_before-tail u t seen h = ground arith

  seen_before-head :
      (u t : Tool) (seen : List Tool) → seen_before u (t ∷ seen) ≡ false → same_tool t u ≡ false
  unfolding seen_before
  seen_before-head u t seen h = ground arith

  Named-head :
      (seen : List Tool) (name : String) (names : List String) (t u : Tool)
      → GoMap.get r.tools name ≡ some t
      → seen_before t seen ≡ false
      → (u ≡ t) ⊎ Named r (t ∷ seen) names u
      → Named r seen (name ∷ names) u
  Named-head seen name names t u at_t new (inl e) = record {
    new = ap (λ (x : Tool). seen_before x seen) e ∙ new;
    name = name;
    asked = inl refl;
    held = at_t ∙ ap (λ (x : Tool). some x) (sym e);
  }
  Named-head seen name names t u at_t new (inr n) = record {
    new = seen_before-tail u t seen n.new;
    name = n.name;
    asked = inr n.asked;
    held = n.held;
  }

  result-Named :
      (seen : List Tool) (names : List String) (u : Tool)
      → Has u (tools_by_names_from seen names r)
      → Named r seen names u
  unfolding tools_by_names_from
  result-Named seen [] u h = absurd h
  result-Named seen (name ∷ names) u h = elim (Option-cases (GoMap.get r.tools name)) [
    | inl missing ↦
        Named-skip seen name names u
          (result-Named seen names u (rw (step_missing r seen name names missing) at h))
    | inr (t, at_t) ↦ elim (Bool-cases (seen_before t seen)) [
      | inl old ↦
          Named-skip seen name names u
            (result-Named seen names u (rw (step_seen r seen name names t at_t old) at h))
      | inr new ↦
          Named-head seen name names t u at_t new
            (elim (rw (step_new r seen name names t at_t new) at h) [
              | inl e ↦ inl e
              | inr m ↦ inr (result-Named (t ∷ seen) names u m)
            ])
    ]
  ]

  result-IsDistinct :
      (seen : List Tool) (names : List String) → IsDistinct (tools_by_names_from seen names r)
  result-IsDistinct seen [] = unfold tools_by_names_from in tt
  result-IsDistinct seen (name ∷ names) = elim (Option-cases (GoMap.get r.tools name)) [
    | inl missing ↦ rw (step_missing r seen name names missing) (result-IsDistinct seen names)
    | inr (t, at_t) ↦ elim (Bool-cases (seen_before t seen)) [
      | inl old ↦ rw (step_seen r seen name names t at_t old) (result-IsDistinct seen names)
      | inr new ↦ rw (step_new r seen name names t at_t new) (
        seen_before-false t _
            (λ u m. seen_before-head u t seen (result-Named (t ∷ seen) names u m).new),
        result-IsDistinct (t ∷ seen) names,
      )
    ]
  ]

  -- what the scan has seen or returns
  abbrev Covered : Tool → List Tool → List Tool → Type 0
  Covered t seen l = (seen_before t seen ≡ true) ⊎ (seen_before t l ≡ true)

  Covered-cons : (t u : Tool) (seen l : List Tool) → Covered t (u ∷ seen) l → Covered t seen (u ∷ l)
  unfolding seen_before
  Covered-cons t u seen l (inl h) = elim (Bool-cases (same_tool t u)) [
    | inl same ↦ inr (ground arith)
    | inr other ↦ inl (ground arith)
  ]
  Covered-cons t u seen l (inr h) = inr (ground arith)

  seen_before_self : (t : Tool) (l : List Tool) → seen_before t (t ∷ l) ≡ true
  unfolding seen_before
  seen_before_self t l = ground arith

  result-Covered :
      (seen : List Tool) (names : List String) (name : String) (t : Tool)
      → Has name names
      → GoMap.get r.tools name ≡ some t
      → Covered t seen (tools_by_names_from seen names r)
  result-Covered seen [] name t m at_t = absurd m
  result-Covered seen (first ∷ names) name t (inl e) at_t =
      let at_first : GoMap.get r.tools first ≡ some t = ap (GoMap.get r.tools) (sym e) ∙ at_t in
      elim (Bool-cases (seen_before t seen)) [
        | inl old ↦ inl old
        | inr new ↦ inr (rw (step_new r seen first names t at_first new) (seen_before_self t _))
      ]
  result-Covered seen (first ∷ names) name t (inr m) at_t =
      elim (Option-cases (GoMap.get r.tools first)) [
        | inl missing ↦
            rw (step_missing r seen first names missing) (result-Covered seen names name t m at_t)
        | inr (u, at_u) ↦ elim (Bool-cases (seen_before u seen)) [
          | inl old ↦
              rw (step_seen r seen first names u at_u old) (result-Covered seen names name t m at_t)
          | inr new ↦ rw (step_new r seen first names u at_u new) (
              Covered-cons t u seen (tools_by_names_from (u ∷ seen) names r)
                (result-Covered (u ∷ seen) names name t m at_t))
        ]
      ]

-- Each tool that one of the names has is returned once, compared by identity, and no other is
-- returned.
pub tools_by_names_lem :
    (names : List String) (r : Registry)
    → IsDistinct (tools_by_names names r)
      × ((u : Tool)
          → Has u (tools_by_names names r)
          → (name : String) × Has name names × (GoMap.get r.tools name ≡ some u))
      × ((name : String) (t : Tool)
          → Has name names
          → GoMap.get r.tools name ≡ some t
          → seen_before t (tools_by_names names r) ≡ true)
unfolding tools_by_names seen_before
tools_by_names_lem names r = (
  result-IsDistinct r [] names,
  λ u m. let n = result-Named r [] names u m in (n.name, n.asked, n.held),
  λ name t m at_t. covered t (result-Covered r [] names name t m at_t),
)
  where
    covered :
        (t : Tool)
        → Covered r t [] (tools_by_names_from [] names r)
        → seen_before t (tools_by_names_from [] names r) ≡ true
    covered t (inl h) = absurd (ground arith)
    covered t (inr h) = h
