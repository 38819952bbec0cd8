-- ===== src/Tools/Core/Filesystem/Edits.antt =====
-- tools/core/filesystem.go: what edit_file leaves in the file.
use openharness.Prelude.{String, true, ◌≡◌, refl, sym, some, inl, inr, Bool-cases, arith, ◌+◌}
use openharness.Prelude.Result.{ok}
use openharness.Tools.Core.Filesystem.{
  Disk, Filesystem, EditParams, success, writable, write_to, edit_file, contains, replace_first,
}
use Prim.Native.String.{◌++◌, find, slice, len}
use text.Mathlib.TextFind.{find_cases}
use text.Mathlib.TextLemmas.{append_assoc}
use text.Mathlib.TextPositions.{slice-append_left, slice-append_right, len-append}

-- `text` with an occurrence of `old` replaced by `new`
abbrev pub IsReplaced : String → String → String → String → Type 0
IsReplaced text old new result =
    (before : String) × (behind : String) × (text ≡ before ++ (old ++ behind))
    × (result ≡ before ++ (new ++ behind))

behind-eq : (u t v : String) → slice (u ++ (t ++ v)) (len u + len t) (len (u ++ (t ++ v))) ≡ v
behind-eq u t v =
    rw (sym (append_assoc u t v), len-append (u ++ t) v, sym (len-append u t))
      (slice-append_right (u ++ t) v)

replaced_at :
    (text old new u v : String)
    → text ≡ u ++ (old ++ v)
    → find text old ≡ len u
    → replace_first text old new ≡ u ++ (new ++ v)
unfolding replace_first
replaced_at text old new u v e at =
    rw (at, e, slice-append_left u (old ++ v), behind-eq u old v) refl

pub replace_first-IsReplaced :
    (text old new : String)
    → contains text old ≡ true
    → IsReplaced text old new (replace_first text old new)
unfolding contains
replace_first-IsReplaced text old new h = elim (find_cases text old) [
  | inl hit ↦ (hit.0, hit.1, hit.2, replaced_at text old new hit.0 hit.1 hit.2 hit.3)
  | inr miss ↦ absurd (ground (arith, h, miss))
]

module _ {S : Type 0} (disk : Disk S) where
  -- what a write promises: a file that was written reads back
  abbrev pub ReadsBack : Type 0
  ReadsBack =
      (s : S) (r text : String)
      → (disk.write_file s r text).0 ≡ true
      → disk.read_file (disk.write_file s r text).1 r ≡ some text

  written_text :
      ReadsBack
      → (r text : String) (s : S) → (write_to disk r text s).0 ≡ ok success
      → disk.read_file (write_to disk r text s).1 r ≡ some text
  unfolding write_to
  written_text law r text s = elim (Bool-cases (disk.write_file s r text).0) [
    | inl e ↦ rw (e, write_to) (λ h. law s r text e)
    | inr e ↦ rw (e, write_to) (λ h. absurd (ground (arith, h)))
  ]

  -- A call of edit_file that succeeds has put the new text in the place of an occurrence of the old one,
  -- and left the rest of the file as it was.
  pub edit_file-IsReplaced :
      ReadsBack
      → (f : Filesystem) (s : S) (params : EditParams) (r text : String)
      → writable disk f s params.path ≡ ok r
      → disk.read_file s r ≡ some text
      → (edit_file disk f s (some params)).0 ≡ ok success
      → (result : String) × (disk.read_file (edit_file disk f s (some params)).1 r ≡ some result)
        × IsReplaced text params.old_text params.new_text result
  unfolding edit_file
  edit_file-IsReplaced law f s params r text valid known =
      elim (Bool-cases (contains text params.old_text)) [
        | inl found ↦
            rw (valid, known, found, edit_file)
              (λ h. (
                replace_first text params.old_text params.new_text,
                written_text law r _ s h,
                replace_first-IsReplaced text params.old_text params.new_text found,
              ))
        | inr absent ↦ rw (valid, known, absent, edit_file) (λ h. absurd (ground (arith, h)))
      ]
