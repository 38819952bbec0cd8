-- ===== src/Tools/Core/Filesystem/Confinement.antt =====
-- tools/core/filesystem.go: the paths that the file tools reach.
use openharness.Prelude.{
  String, true, ◌||◌, ◌≡◌, sym, ◌∙◌, Option, none, some, List, ◌==◌, eq_iff, ◌⊎◌, inl, inr,
  Bool-cases, Option-cases, if◌then◌else◌, arith,
}
use openharness.Prelude.Paths.{is_abs, clean, join, dir, base}
use openharness.Prelude.Paths.Cleaned.{IsBelowRoot, clean-IsBelowRoot, join-is_abs, dir-is_abs}
use openharness.Prelude.Result.{ok, err, Result-cases}
use openharness.Tools.Scrub.{Pattern}
use openharness.Tools.Core.Filesystem.{
  Disk, Filesystem, escapes, WriteParams, EditParams, Args, resolve, validate_path, check_guard,
  writable, write_to, write_file, edit_file, execute, contains,
}
use Prim.Native.String.{◌++◌}
use text.Mathlib.Text.{starts_with}
use text.Mathlib.TextEquality.{starts_with_iff}
use text.Mathlib.TextLemmas.{append_assoc}
use mathlib.Core.Path.{subst}

module _ {S : Type 0} (disk : Disk S) where
  -- what `filepath.EvalSymlinks` documents: an absolute path has an absolute target
  abbrev pub KeepsAbs : Type 0
  KeepsAbs =
      (s : S) (p target : String)
      → disk.eval_symlinks s p ≡ some target
      → is_abs p ≡ true
      → is_abs target ≡ true

  -- The workspace or a path under it, without `..`.
  abbrev pub IsConfined : Filesystem → String → Type 0
  IsConfined f p =
      ((p ≡ f.workspace) ⊎ ((rest : String) × (p ≡ f.workspace ++ "/" ++ rest))) × IsBelowRoot p

  resolve-is_abs :
      KeepsAbs
      → (s : S) (p target : String) → resolve disk s p ≡ some target
      → is_abs p ≡ true
      → is_abs target ≡ true
  unfolding resolve
  resolve-is_abs keeps s p target = elim (Option-cases (disk.eval_symlinks s p)) [
    | inr (found, e) ↦
        rw (e, resolve)
          (λ h is. subst (λ t. is_abs t ≡ true) (ground (arith, h)) (keeps s p found e is))
    | inl e ↦ elim (Option-cases (disk.eval_symlinks s (dir p))) [
      | inl none_there ↦ rw (e, none_there, resolve) (λ h is. absurd (ground (arith, h)))
      | inr (parent, there) ↦
          rw (e, there, resolve)
            (λ h is.
              subst (λ t. is_abs t ≡ true) (ground (arith, h))
                (join-is_abs parent (base p) (keeps s (dir p) parent there (dir-is_abs p is))))
    ]
  ]

  guarded_cases :
      (f : Filesystem) (target p r : String)
      → (if starts_with (clean target) (f.workspace ++ "/") || clean target == f.workspace
          then ok (clean target)
          else err (escapes p))
        ≡ ok r
      → is_abs target ≡ true
      → IsConfined f r
  guarded_cases f target p r h is =
      elim (Bool-cases (starts_with (clean target) (f.workspace ++ "/"))) [
        | inl under ↦
            let (rest, e) = (starts_with_iff (clean target) (f.workspace ++ "/")).0 under in
            subst (IsConfined f) (ground (arith, h))
              (inr (rest, sym e ∙ append_assoc f.workspace "/" rest), clean-IsBelowRoot target is)
        | inr apart ↦ elim (Bool-cases (clean target == f.workspace)) [
          | inl same ↦
              subst (IsConfined f) (ground (arith, h))
                (inl ((eq_iff (clean target) f.workspace).0 same), clean-IsBelowRoot target is)
          | inr other ↦ absurd (ground (arith, h))
        ]
      ]

  -- Where the workspace is an absolute path and `EvalSymlinks` gives an absolute path for an absolute
  -- one, a path that `ValidatePath` accepts is the workspace or lies under it, and has no `..`.
  pub validate_path-IsConfined :
      KeepsAbs
      → (f : Filesystem) (s : S) (p r : String) → is_abs f.workspace ≡ true
      → validate_path disk f s p ≡ ok r
      → IsConfined f r
  unfolding validate_path
  validate_path-IsConfined keeps f s p r rooted h = elim (Bool-cases (is_abs p)) [
    | inl absolute ↦ absurd (ground (arith, h))
    | inr relative ↦ elim (Option-cases (resolve disk s (join f.workspace p))) [
      | inl nothing ↦ absurd (ground (arith, h, nothing))
      | inr (target, e) ↦
          guarded_cases f target p r (ground (arith, h, e)) (
            resolve-is_abs keeps s (join f.workspace p) target e (join-is_abs f.workspace p rooted))
    ]
  ]

  -- What a write may reach: confined, and not blocked by the guard.
  abbrev pub IsPermitted : Filesystem → String → Type 0
  IsPermitted f r = IsConfined f r × (check_guard disk f r ≡ ok r)

  check_guard-same : (f : Filesystem) (p r : String) → check_guard disk f p ≡ ok r → p ≡ r
  unfolding check_guard
  check_guard-same f p r = elim (Option-cases f.guard) [
    | inl open_to_all ↦ rw (open_to_all, check_guard) (λ h. ground (arith, h))
    | inr (guard, e) ↦ elim (Option-cases (guard p)) [
      | inl passed ↦ rw (e, passed, check_guard) (λ h. ground (arith, h))
      | inr (reason, stopped) ↦ rw (e, stopped, check_guard) (λ h. absurd (ground (arith, h)))
    ]
  ]

  pub writable-IsPermitted :
      KeepsAbs
      → (f : Filesystem) (s : S) (p r : String) → is_abs f.workspace ≡ true
      → writable disk f s p ≡ ok r
      → IsPermitted f r
  unfolding writable
  writable-IsPermitted keeps f s p r rooted h = elim (Result-cases (validate_path disk f s p)) [
    | inr (e, failed) ↦ absurd (ground (arith, h, failed))
    | inl (q, valid) ↦
        let passed : check_guard disk f q ≡ ok r = ground (arith, h, valid) in
        let same = check_guard-same f q r passed in
        (
          subst (IsConfined f) same (validate_path-IsConfined keeps f s p q rooted valid),
          subst (λ t. check_guard disk f t ≡ ok r) same passed,
        )
  ]

  module _ (Keeps : S → Type 0) (f : Filesystem)
      (makes : (s : S) (r : String)
        → IsPermitted f r
        → Keeps s
        → Keeps (disk.mkdir_all s (dir r)).1)
      (writes : (s : S) (r text : String)
        → IsPermitted f r
        → Keeps s
        → Keeps (disk.write_file s r text).1)
      (keeps : KeepsAbs) (rooted : is_abs f.workspace ≡ true) where
    write_to-Keeps :
        (s : S) (r text : String) → IsPermitted f r → Keeps s → Keeps (write_to disk r text s).1
    unfolding write_to
    write_to-Keeps s r text permitted now = elim (Bool-cases (disk.write_file s r text).0) [
      | inl e ↦ rw (e) (writes s r text permitted now)
      | inr e ↦ rw (e) (writes s r text permitted now)
    ]

    write_file-Keeps :
        (s : S) (params : Option WriteParams) → Keeps s → Keeps (write_file disk f s params).1
    unfolding write_file
    write_file-Keeps s none now = now
    write_file-Keeps s (some params) now = elim (Result-cases (writable disk f s params.path)) [
      | inr (e, failed) ↦ rw (failed, write_file) now
      | inl (r, e) ↦
          let permitted = writable-IsPermitted keeps f s params.path r rooted e in
          let made = makes s r permitted now in
          elim (Bool-cases (disk.mkdir_all s (dir r)).0) [
            | inl there ↦
                rw (e, there, write_file) (write_to-Keeps _ r params.content permitted made)
            | inr absent ↦ rw (e, absent, write_file) made
          ]
    ]

    edit_file-Keeps :
        (s : S) (params : Option EditParams) → Keeps s → Keeps (edit_file disk f s params).1
    unfolding edit_file
    edit_file-Keeps s none now = now
    edit_file-Keeps s (some params) now = elim (Result-cases (writable disk f s params.path)) [
      | inr (e, failed) ↦ rw (failed, edit_file) now
      | inl (r, e) ↦ elim (Option-cases (disk.read_file s r)) [
        | inl unread ↦ rw (e, unread, edit_file) now
        | inr (text, known) ↦ elim (Bool-cases (contains text params.old_text)) [
          | inl found ↦
              rw (e, known, found, edit_file)
                (write_to-Keeps s r _ (writable-IsPermitted keeps f s params.path r rooted e) now)
          | inr absent ↦ rw (e, known, absent, edit_file) now
        ]
      ]
    ]

    -- Where the workspace is an absolute path and `EvalSymlinks` gives an absolute path for an
    -- absolute one, whatever holds of the disk and is kept by making the directory of a permitted path
    -- and by writing to a permitted path is kept by every call of a tool: nothing else is changed. A
    -- permitted path is the workspace or lies under it, has no `..` and passes the write guard.
    pub execute-Keeps :
        (patterns : List Pattern) (s : S) (name : String) (args : Args)
        → Keeps s
        → Keeps (execute disk patterns f s name args).1
    unfolding execute
    execute-Keeps patterns s name args now = elim (Bool-cases (name == "read_file")) [
      | inl a ↦ rw (a) now
      | inr a ↦ elim (Bool-cases (name == "write_file")) [
        | inl b ↦ rw (a, b) (write_file-Keeps s args.write now)
        | inr b ↦ elim (Bool-cases (name == "list_files")) [
          | inl c ↦ rw (a, b, c) now
          | inr c ↦ elim (Bool-cases (name == "edit_file")) [
            | inl d ↦ rw (a, b, c, d) (edit_file-Keeps s args.edit now)
            | inr d ↦ rw (a, b, c, d) now
          ]
        ]
      ]
    ]
