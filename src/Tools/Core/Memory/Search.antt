-- ===== src/Tools/Core/Memory/Search.antt =====
-- tools/core/memory.go: what a search returns, whatever the order of the range.
use openharness.Prelude.{
  ℕ, String, true, false, ◌≡◌, ◌≤◌, ◌<◌, ◌⊎◌, inl, inr, ap, sym, List, [], ◌∷◌, ◌++◌, ◌+◌, length,
  length-append, leb, Has, Has-push, Has-last, Bool-cases, arith,
}
use mathlib.Core.Path.{subst, ◌∙◌}
use mathlib.Core.Bool.{false≢true}
use openharness.Tools.Core.Memory.{MemoryEntry, matches, collect, limit_or_default, search}

module _ (to_lower : String → String) (q : String) where
  -- An entry that the search may return.
  abbrev pub IsMatch : List (String × MemoryEntry) → MemoryEntry → Type 0
  IsMatch visit e = (k : String) × Has (k, e) visit × (matches to_lower q e ≡ true)

  -- what a run of the loop gives, from the results so far
  record IsCollected (limit : ℕ) (visit : List (String × MemoryEntry))
      (before after : List MemoryEntry) : Type 0 where
    bounded : length after ≤ limit
    kept : (e : MemoryEntry) → Has e before → Has e after
    sound : (e : MemoryEntry) → Has e after → Has e before ⊎ IsMatch visit e
    complete : (e : MemoryEntry) → IsMatch visit e → Has e after ⊎ (length after ≡ limit)

  Has-snoc :
      (e last : MemoryEntry) (l : List MemoryEntry) → Has e (l ++ last ∷ []) → Has e l ⊎ (e ≡ last)
  Has-snoc e last [] (inl same) = inr same
  Has-snoc e last [] (inr h) = absurd h
  Has-snoc e last (x ∷ l) (inl same) = inl (inl same)
  Has-snoc e last (x ∷ l) (inr h) = elim (Has-snoc e last l h) [
    | inl there ↦ inl (inr there)
    | inr here ↦ inr here
  ]

  IsMatch-later :
      (v : String × MemoryEntry) (more : List (String × MemoryEntry)) (e : MemoryEntry)
      → IsMatch more e
      → IsMatch (v ∷ more) e
  IsMatch-later v more e (k, there, match) = (k, inr there, match)

  -- an entry passed over
  skipped :
      (limit : ℕ) (v : String × MemoryEntry) (more : List (String × MemoryEntry))
      (before after : List MemoryEntry)
      → matches to_lower q v.1 ≡ false
      → IsCollected limit more before after
      → IsCollected limit (v ∷ more) before after
  skipped limit v more before after other c = record {
    bounded = c.bounded;
    kept = c.kept;
    sound = λ e h. elim (c.sound e h) [
      | inl earlier ↦ inl earlier
      | inr m ↦ inr (IsMatch-later v more e m)
    ];
    complete = λ e m. elim m.1 [
      | inl same ↦
          absurd (false≢true (sym other ∙ ap (λ p. matches to_lower q p.1) (sym same) ∙ m.2))
      | inr there ↦ c.complete e (m.0, there, m.2)
    ];
  }

  -- an entry added
  added :
      (limit : ℕ) (v : String × MemoryEntry) (more : List (String × MemoryEntry))
      (before after : List MemoryEntry)
      → matches to_lower q v.1 ≡ true
      → IsCollected limit more (before ++ v.1 ∷ []) after
      → IsCollected limit (v ∷ more) before after
  added limit v more before after match c = record {
    bounded = c.bounded;
    kept = λ e h. c.kept e (Has-push e v.1 before h);
    sound = λ e h. elim (c.sound e h) [
      | inr m ↦ inr (IsMatch-later v more e m)
      | inl earlier ↦ elim (Has-snoc e v.1 before earlier) [
        | inl there ↦ inl there
        | inr here ↦ inr (v.0, inl (λ i. (v.0, here i)), ap (matches to_lower q) here ∙ match)
      ]
    ];
    complete = λ e m. elim m.1 [
      | inl same ↦ inl (
          c.kept e (
            subst (λ x. Has x (before ++ v.1 ∷ [])) (ap (λ p. p.1) (sym same))
              (Has-last v.1 before)))
      | inr there ↦ c.complete e (m.0, there, m.2)
    ];
  }

  -- the limit is reached
  full-IsCollected :
      (limit : ℕ) (visit : List (String × MemoryEntry)) (results : List MemoryEntry)
      → length results ≡ limit
      → IsCollected limit visit results results
  full-IsCollected limit visit results e = record {
    bounded = omega (arith, e);
    kept = λ x h. h;
    sound = λ x h. inl h;
    complete = λ x m. inr e;
  }

  collect-IsCollected :
      (limit : ℕ) (visit : List (String × MemoryEntry)) (before : List MemoryEntry)
      → length before < limit
      → IsCollected limit visit before (collect to_lower q limit visit before)
  unfolding collect
  collect-IsCollected limit [] before room = record {
    bounded = omega (arith, room);
    kept = λ e h. h;
    sound = λ e h. inl h;
    complete = λ e m. absurd m.1;
  }
  collect-IsCollected limit (v ∷ more) before room = elim (Bool-cases (matches to_lower q v.1)) [
    | inr other ↦
        rw (other, collect)
          (skipped limit v more before _ other (collect-IsCollected limit more before room))
    | inl match ↦
        let count : length (before ++ v.1 ∷ []) ≡ length before + 1 =
          length-append before (v.1 ∷ []) in
        elim (Bool-cases (leb limit (length (before ++ v.1 ∷ [])))) [
          | inl full ↦
              rw (match, full, collect)
                (added limit v more before _ match
                  (full-IsCollected limit more _ (ground (arith, full, count, room))))
          | inr space ↦
              rw (match, space, collect)
                (added limit v more before _ match
                  (collect-IsCollected limit more _ (ground (arith, space))))
        ]
  ]

-- A search returns entries that match, at most its limit of them, and all that match where it returns
-- fewer: the range may visit the entries in any order.
pub search_outcome :
    (to_lower : String → String) (visit : List (String × MemoryEntry)) (query : String) (limit : ℕ)
    → let results = search to_lower visit query limit in
      (length results ≤ limit_or_default limit)
      × ((e : MemoryEntry)
          → (Has e results → IsMatch to_lower (to_lower query) visit e)
            × (IsMatch to_lower (to_lower query) visit e
                → Has e results ⊎ (length results ≡ limit_or_default limit)))
unfolding search
search_outcome to_lower visit query limit =
    let c =
      collect-IsCollected to_lower (to_lower query) (limit_or_default limit) visit []
        (ground arith) in
    (
      c.bounded,
      λ e. (λ h. elim (c.sound e h) [ inl nowhere ↦ absurd nowhere | inr m ↦ m ], c.complete e),
    )
