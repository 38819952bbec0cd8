-- ===== src/Tools/Core/KnowledgeGraph/Grouping.antt =====
-- tools/core/knowledge_graph.go: the blocks of a search, grouped by page.
use openharness.Prelude.{
  String, ◌≡◌, refl, ap, sym, ◌∙◌, ◌⊎◌, inl, inr, Option, none, some, Option-cases, List, [], ◌∷◌,
  ◌++◌, ◌==◌, eq_iff, Has, Has-push, Has-last, Bool-cases, if◌then◌else◌, arith,
}
use openharness.Prelude.GoMap
use openharness.Prelude.GoMap.{GoMap, get-put, get-put_self, get-put_ne, get-put_cases, get-empty}
use openharness.Tools.Core.KnowledgeGraph.{KgBlock, Groups, group}
use mathlib.Core.List.{append_assoc, append-nil}
use mathlib.Core.Path.{subst}

-- the blocks of a page, in order
abbrev pub of_page : String → List KgBlock → List KgBlock
of_page pid [] = []
of_page pid (b ∷ blocks) = if b.page_id == pid then b ∷ of_page pid blocks else of_page pid blocks

-- the group of a page after some more of its blocks
abbrev pub extended : Option (List KgBlock) → List KgBlock → Option (List KgBlock)
extended none [] = none
extended none (b ∷ blocks) = some (b ∷ blocks)
extended (some old) blocks = some (old ++ blocks)

-- the pages, of which none stands twice
abbrev pub IsOrder : List String → Type 0
IsOrder [] = Unit
IsOrder (pid ∷ order) = (Has pid order → ⊥) × IsOrder order

-- what holds of the loop: a page stands in the order, once, where it has a group
record IsGrouped (groups : Groups) : Type 0 where
  once : IsOrder groups.0
  grouped :
      (pid : String) → Has pid groups.0 → (bs : List KgBlock) × (GoMap.get groups.1 pid ≡ some bs)
  ordered : (pid : String) (bs : List KgBlock) → GoMap.get groups.1 pid ≡ some bs → Has pid groups.0

extended-nil : (o : Option (List KgBlock)) → o ≡ extended o []
extended-nil none = refl
extended-nil (some old) = ap some (sym (append-nil old))

-- what one block does to the group of a page
one_more : KgBlock → Option (List KgBlock) → List KgBlock
one_more b none = b ∷ []
one_more b (some old) = old ++ b ∷ []

extended-step :
    (b : KgBlock) (pid : String) (here there : Option (List KgBlock)) (more : List KgBlock)
    → (b.page_id ≡ pid → here ≡ there)
    → extended (if b.page_id == pid then some (one_more b here) else there) (of_page pid more)
      ≡ extended there (of_page pid (b ∷ more))
unfolding one_more
extended-step b pid here there more same = elim (Bool-cases (b.page_id == pid)) [
  | inr e ↦ rw (e) refl
  | inl e ↦
      rw (e, same ((eq_iff b.page_id pid).0 e))
        (elim (Option-cases there) [
          | inl fresh ↦ rw (fresh) refl
          | inr (old, known) ↦ rw (known) (ap some (append_assoc old (b ∷ []) (of_page pid more)))
        ])
]

group-get :
    (blocks : List KgBlock) (order : List String) (g : GoMap (List KgBlock)) (pid : String)
    → GoMap.get (group blocks (order, g)).1 pid ≡ extended (GoMap.get g pid) (of_page pid blocks)
unfolding group one_more
group-get [] order g pid = extended-nil (GoMap.get g pid)
group-get (b ∷ more) order g pid =
    let same : b.page_id ≡ pid → GoMap.get g b.page_id ≡ GoMap.get g pid = ap (GoMap.get g) in
    elim (Option-cases (GoMap.get g b.page_id)) [
      | inl fresh ↦
          rw (fresh, group)
            (group-get more _ (GoMap.put g b.page_id (b ∷ [])) pid
              ∙ ap (λ o. extended o (of_page pid more)) (get-put g b.page_id pid (b ∷ []))
              ∙ extended-step b pid none (GoMap.get g pid) more (λ e. sym fresh ∙ same e))
      | inr (old, known) ↦
          rw (known, group)
            (group-get more _ (GoMap.put g b.page_id (old ++ b ∷ [])) pid
              ∙ ap (λ o. extended o (of_page pid more)) (get-put g b.page_id pid (old ++ b ∷ []))
              ∙ extended-step b pid (some old) (GoMap.get g pid) more (λ e. sym known ∙ same e))
    ]

Has-snoc : (a x : String) (l : List String) → Has a (l ++ x ∷ []) → Has a l ⊎ (a ≡ x)
Has-snoc a x [] (inl same) = inr same
Has-snoc a x [] (inr h) = absurd h
Has-snoc a x (y ∷ l) (inl same) = inl (inl same)
Has-snoc a x (y ∷ l) (inr h) = elim (Has-snoc a x l h) [
  | inl there ↦ inl (inr there)
  | inr here ↦ inr here
]

IsOrder-snoc :
    (order : List String) (pid : String)
    → IsOrder order
    → (Has pid order → ⊥)
    → IsOrder (order ++ pid ∷ [])
IsOrder-snoc [] pid once new = (λ h. h, tt)
IsOrder-snoc (x ∷ order) pid once new = (
  λ h. elim (Has-snoc x pid order h) [
    | inl earlier ↦ once.0 earlier
    | inr same ↦ new (inl (sym same))
  ],
  IsOrder-snoc order pid once.1 (λ h. new (inr h)),
)

-- a page that has a group keeps one
still-grouped :
    (g : GoMap (List KgBlock)) (page pid : String) (v bs : List KgBlock)
    → GoMap.get g pid ≡ some bs
    → (after : List KgBlock) × (GoMap.get (GoMap.put g page v) pid ≡ some after)
still-grouped g page pid v bs e = elim (Bool-cases (page == pid)) [
  | inl same ↦ (v, rw (get-put, same) refl)
  | inr other ↦ (bs, rw (get-put, other) e)
]

-- a page that comes for the first time
IsGrouped-fresh :
    (b : KgBlock) (order : List String) (g : GoMap (List KgBlock))
    → GoMap.get g b.page_id ≡ none
    → IsGrouped (order, g)
    → IsGrouped (order ++ b.page_id ∷ [], GoMap.put g b.page_id (b ∷ []))
IsGrouped-fresh b order g fresh h = record {
  once =
      IsOrder-snoc order b.page_id h.once
        (λ there. let (bs, e) = h.grouped b.page_id there in absurd (ground (arith, e, fresh)));
  grouped = λ pid there. elim (Has-snoc pid b.page_id order there) [
    | inr same ↦ (
      b ∷ [],
      ap (GoMap.get (GoMap.put g b.page_id (b ∷ []))) same ∙ get-put_self g b.page_id (b ∷ []),
    )
    | inl earlier ↦
        let (bs, e) = h.grouped pid earlier in still-grouped g b.page_id pid (b ∷ []) bs e
  ];
  ordered = λ pid bs e. elim (get-put_cases g b.page_id pid (b ∷ []) e) [
    | inl (same, _) ↦ subst (λ k. Has k (order ++ b.page_id ∷ [])) same (Has-last b.page_id order)
    | inr (_, before) ↦ Has-push pid b.page_id order (h.ordered pid bs before)
  ];
}

-- a page that has come before
IsGrouped-known :
    (b : KgBlock) (order : List String) (g : GoMap (List KgBlock)) (old : List KgBlock)
    → GoMap.get g b.page_id ≡ some old
    → IsGrouped (order, g)
    → IsGrouped (order, GoMap.put g b.page_id (old ++ b ∷ []))
IsGrouped-known b order g old known h = record {
  once = h.once;
  grouped = λ pid there.
      let (bs, e) = h.grouped pid there in still-grouped g b.page_id pid (old ++ b ∷ []) bs e;
  ordered = λ pid bs e. elim (get-put_cases g b.page_id pid (old ++ b ∷ []) e) [
    | inl (same, _) ↦ subst (λ k. Has k order) same (h.ordered b.page_id old known)
    | inr (_, before) ↦ h.ordered pid bs before
  ];
}

group-IsGrouped :
    (blocks : List KgBlock) (order : List String) (g : GoMap (List KgBlock))
    → IsGrouped (order, g)
    → IsGrouped (group blocks (order, g))
unfolding group
group-IsGrouped [] order g h = h
group-IsGrouped (b ∷ more) order g h = elim (Option-cases (GoMap.get g b.page_id)) [
  | inl fresh ↦ rw (fresh, group) (group-IsGrouped more _ _ (IsGrouped-fresh b order g fresh h))
  | inr (old, known) ↦
      rw (known, group) (group-IsGrouped more _ _ (IsGrouped-known b order g old known h))
]

extended-some :
    (l bs : List KgBlock)
    → extended none l ≡ some bs
    → (b : KgBlock) × (rest : List KgBlock) × (l ≡ b ∷ rest)
extended-some [] bs e = absurd (ground (arith, e))
extended-some (b ∷ rest) bs e = (b, rest, refl)

-- The group of a page is the list of its blocks, and the pages in the order are those with a block, each
-- once.
pub group_outcome :
    (blocks : List KgBlock)
    → let (order, grouped) = group blocks ([], GoMap.empty) in
      ((pid : String) → GoMap.get grouped pid ≡ extended none (of_page pid blocks))
      × IsOrder order
      × ((pid : String) (b : KgBlock) (bs : List KgBlock)
          → of_page pid blocks ≡ b ∷ bs
          → Has pid order)
      × ((pid : String)
          → Has pid order
          → (b : KgBlock) × (bs : List KgBlock) × (of_page pid blocks ≡ b ∷ bs))
group_outcome blocks =
    let none_yet : IsGrouped ([], GoMap.empty) = record {
      once = tt;
      grouped = λ pid there. absurd there;
      ordered = λ pid bs e. absurd (ground (arith, e, get-empty {V = List KgBlock} pid));
    } in
    let all = group-IsGrouped blocks [] GoMap.empty none_yet in
    let groups : (pid : String)
        → GoMap.get (group blocks ([], GoMap.empty)).1 pid ≡ extended none (of_page pid blocks) =
      λ pid.
        group-get blocks [] GoMap.empty pid
        ∙ ap (λ o. extended o (of_page pid blocks)) (get-empty pid) in
    (
      groups,
      all.once,
      λ pid b bs e. all.ordered pid (b ∷ bs) (groups pid ∙ ap (extended none) e),
      λ pid there.
          let (bs, e) = all.grouped pid there in
          extended-some (of_page pid blocks) bs (sym (groups pid) ∙ e),
    )
