-- ===== src/Config/Discovery.antt =====
-- config/discovery.go: the instruction files of a directory and of those above it.
-- A directory is the list of its names from the root, the last one first, so that its parent is the
-- rest of the list. Reading a file is a parameter.
pub mod Budget
mod Tests
use openharness.Prelude.{
  ℕ, String, Bool, true, false, Option, none, some, List, [], ◌∷◌, ◌++◌, ◌+◌, ltb, leb,
  if◌then◌else◌,
}
use openharness.Prelude.GoMap
use openharness.Prelude.GoMap.{GoMap}
use openharness.Prelude.Paths.{join, printed}
use Prim.Native.String
use Prim.Native.String.{slice, len}

abbrev pub max_instruction_file_chars : ℕ
max_instruction_file_chars = 4000

abbrev pub max_total_instruction_chars : ℕ
max_total_instruction_chars = 12000

pub record InstructionFile : Type 0 where
  pub path : String
  pub content : String

abbrev pub candidates : List String
candidates = "GHOSTFIN.md" ∷ ".ghostfin/GHOSTFIN.md" ∷ "GHOSTFIN.local.md" ∷ []

-- the variables of the loops
pub record Found : Type 0 where
  pub files : List InstructionFile
  pub seen : GoMap Bool
  pub total_chars : ℕ

-- the bytes kept of a long file, whole characters only
unfoldable pub truncated : String → String
truncated content =
    if ltb max_instruction_file_chars (len content)
    then String.◌++◌ (slice content 0 max_instruction_file_chars) "\n[truncated]"
    else content

abbrev pub with_file : String → String → Found → Found
with_file path content found = record {
  files = found.files ++ record { path = path; content = content } ∷ [];
  seen = GoMap.put found.seen path true;
  total_chars = found.total_chars + len content;
}

-- the loop over the candidates of a directory, which ends at a file that is too much
unfoldable pub search_dir : (String → Option String) → String → List String → Found → Found
unfolding truncated
search_dir read dir [] found = found
search_dir read dir (candidate ∷ more) found =
    let path = join dir candidate in
    let skip = search_dir read dir more found in
    elim (GoMap.get found.seen path) [
      | some _ ↦ skip
      | none ↦ elim (read path) [
        | none ↦ skip
        | some data_read ↦
            let content = truncated data_read in
            let next = search_dir read dir more (with_file path content found) in
            if ltb max_total_instruction_chars (found.total_chars + len content)
            then record found { seen = GoMap.put found.seen path true }
            else next
      ]
    ]

-- the loop from a directory up to the root
unfoldable pub search_up : (String → Option String) → List String → Found → Found
unfolding search_dir
search_up read [] found = search_dir read (printed true []) candidates found
search_up read (name ∷ names) found =
    let here = search_dir read (printed true (name ∷ names)) candidates found in
    let above = search_up read names here in
    if leb max_total_instruction_chars here.total_chars then here else above

unfoldable pub discover_instruction_files :
    (String → Option String) → List String → List InstructionFile
unfolding search_up
discover_instruction_files read names =
    (search_up read names (record { files = []; seen = GoMap.empty; total_chars = 0 })).files
