-- ===== src/Config/Discovery/Budget.antt =====
-- config/discovery.go: the size of what is found, and that no file is found twice.
use openharness.Prelude.{
  ℕ, String, Bool, true, ◌≡◌, ◌≢◌, ◌≤◌, refl, ap, sym, ◌∙◌, ◌⊎◌, inl, inr, Option, none, some,
  Option-cases, List, [], ◌∷◌, ◌++◌, ◌+◌, ltb, leb, Has, Bool-cases, arith, ◌==◌,
}
use openharness.Prelude.GoMap
use openharness.Prelude.GoMap.{GoMap, get-put, get-put_self, get-empty}
use openharness.Prelude.Paths.{join, printed}
use openharness.Config.Discovery.{
  max_total_instruction_chars, InstructionFile, candidates, Found, truncated, with_file, search_dir,
  search_up, discover_instruction_files,
}
use Prim.Native.String.{len}

-- the bytes of the contents
abbrev pub total : List InstructionFile → ℕ
total [] = 0
total (f ∷ files) = len f.content + total files

-- No path stands twice.
abbrev pub IsOnce : List InstructionFile → Type 0
IsOnce [] = Unit
IsOnce (f ∷ files) = ((g : InstructionFile) → Has g files → f.path ≢ g.path) × IsOnce files

-- what holds of the variables of the loops
record IsWithin (found : Found) : Type 0 where
  counted : found.total_chars ≡ total found.files
  bounded : found.total_chars ≤ max_total_instruction_chars
  once : IsOnce found.files
  marked :
      (f : InstructionFile)
      → Has f found.files
      → (b : Bool) × (GoMap.get found.seen f.path ≡ some b)

total-snoc :
    (files : List InstructionFile) (f : InstructionFile)
    → total (files ++ f ∷ []) ≡ total files + len f.content
total-snoc [] f = omega arith
total-snoc (g ∷ files) f = omega (arith, total-snoc files f)

Has-snoc :
    (a x : InstructionFile) (l : List InstructionFile) → Has a (l ++ x ∷ []) → Has a l ⊎ (a ≡ x)
Has-snoc a x [] (inl same) = inr same
Has-snoc a x [] (inr h) = absurd h
Has-snoc a x (y ∷ l) (inl same) = inl (inl same)
Has-snoc a x (y ∷ l) (inr h) = elim (Has-snoc a x l h) [
  | inl there ↦ inl (inr there)
  | inr here ↦ inr here
]

IsOnce-snoc :
    (files : List InstructionFile) (f : InstructionFile)
    → IsOnce files
    → ((g : InstructionFile) → Has g files → g.path ≢ f.path)
    → IsOnce (files ++ f ∷ [])
IsOnce-snoc [] f once new = (λ g there. absurd there, tt)
IsOnce-snoc (x ∷ files) f once new = (
  λ g there. elim (Has-snoc g f files there) [
    | inl earlier ↦ once.0 g earlier
    | inr same ↦ λ e. new x (inl refl) (e ∙ ap (λ (h : InstructionFile). h.path) same)
  ],
  IsOnce-snoc files f once.1 (λ g there. new g (inr there)),
)

-- a mark more in `seen`
still_marked :
    (seen : GoMap Bool) (path q : String) (b : Bool)
    → GoMap.get seen q ≡ some b
    → (after : Bool) × (GoMap.get (GoMap.put seen path true) q ≡ some after)
still_marked seen path q b e = elim (Bool-cases (path == q)) [
  | inl same ↦ (true, rw (get-put, same) refl)
  | inr other ↦ (b, rw (get-put, other) e)
]

IsWithin-file :
    (path content : String) (found : Found)
    → GoMap.get found.seen path ≡ none
    → found.total_chars + len content ≤ max_total_instruction_chars
    → IsWithin found
    → IsWithin (with_file path content found)
IsWithin-file path content found new fits h =
    let f : InstructionFile = record { path = path; content = content } in
    record {
      counted = omega (arith, total-snoc found.files f, h.counted);
      bounded = fits;
      once = IsOnce-snoc found.files f h.once (λ g there e.
          let (b, marked) = h.marked g there in
          absurd (ground (arith, new, sym (ap (GoMap.get found.seen) e) ∙ marked)));
      marked = λ g there. elim (Has-snoc g f found.files there) [
        | inr same ↦ (
          true,
          ap (λ (x : InstructionFile). GoMap.get (GoMap.put found.seen path true) x.path) same
              ∙ get-put_self found.seen path true,
        )
        | inl earlier ↦ let (b, e) = h.marked g earlier in still_marked found.seen path g.path b e
      ];
    }

IsWithin-seen :
    (path : String) (found : Found)
    → IsWithin found
    → IsWithin (record found { seen = GoMap.put found.seen path true })
IsWithin-seen path found h = record {
  counted = h.counted;
  bounded = h.bounded;
  once = h.once;
  marked = λ g there. let (b, e) = h.marked g there in still_marked found.seen path g.path b e;
}

module _ (read : String → Option String) where
  search_dir-IsWithin :
      (dir : String) (names : List String) (found : Found)
      → IsWithin found
      → IsWithin (search_dir read dir names found)
  unfolding search_dir
  search_dir-IsWithin dir [] found h = h
  search_dir-IsWithin dir (candidate ∷ more) found h =
      let path = join dir candidate in
      elim (Option-cases (GoMap.get found.seen path)) [
        | inr (b, seen) ↦ rw (seen, search_dir) (search_dir-IsWithin dir more found h)
        | inl new ↦ elim (Option-cases (read path)) [
          | inl unread ↦ rw (new, unread, search_dir) (search_dir-IsWithin dir more found h)
          | inr (data_read, e) ↦
              elim (Bool-cases
                (ltb max_total_instruction_chars (found.total_chars + len (truncated data_read)))) [
                  | inl much ↦ rw (new, e, much, search_dir) (IsWithin-seen path found h)
                  | inr fits ↦
                      rw (new, e, fits, search_dir)
                        (search_dir-IsWithin dir more _ (
                          IsWithin-file path (truncated data_read) found new (ground (arith, fits))
                            h))
                ]
        ]
      ]

  search_up-IsWithin :
      (names : List String) (found : Found) → IsWithin found → IsWithin (search_up read names found)
  unfolding search_up
  search_up-IsWithin [] found h = search_dir-IsWithin (printed true []) candidates found h
  search_up-IsWithin (name ∷ names) found h =
      let dir = printed true (name ∷ names) in
      let here = search_dir-IsWithin dir candidates found h in
      elim (Bool-cases
        (leb max_total_instruction_chars (search_dir read dir candidates found).total_chars)) [
          | inl full ↦ rw (full) here
          | inr room ↦ rw (room) (search_up-IsWithin names _ here)
        ]

  -- The contents found have 12000 bytes at most together, with the marks of the truncated ones, and no
  -- file is found twice, from whatever directory the search starts.
  pub discover_bounds :
      (names : List String)
      → let files = discover_instruction_files read names in
        (total files ≤ max_total_instruction_chars) × IsOnce files
  unfolding discover_instruction_files
  discover_bounds names =
      let start : IsWithin (record { files = []; seen = GoMap.empty; total_chars = 0 }) = record {
        counted = refl;
        bounded = omega arith;
        once = tt;
        marked = λ f there. absurd there;
      } in
      let within = search_up-IsWithin names _ start in
      (omega (arith, within.counted, within.bounded), within.once)
