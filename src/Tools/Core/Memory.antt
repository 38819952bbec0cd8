-- ===== src/Tools/Core/Memory.antt =====
-- tools/core/memory.go: the memory tool, a map from keys to entries that is saved to a file.
-- The JSON of an argument is given by what its decoding yields, `none` for an error; that of the file
-- is a parameter, a codec. The order of a range and `strings.ToLower` are arguments.
pub mod Search
pub mod Saved
mod Tests
use openharness.Prelude.{
  ℕ, String, Bool, true, false, Option, none, some, List, [], ◌∷◌, ◌++◌, ◌==◌, ◌||◌, length, ltb,
  leb, map, if◌then◌else◌,
}
use openharness.Prelude.GoMap
use openharness.Prelude.GoMap.{GoMap}
use openharness.Prelude.Int64.{is_pos}
use openharness.Prelude.Result.{Result, ok, err}
use openharness.Tools.Scrub.{Pattern, scrub_credentials}
use openharness.Tools.Core.Filesystem.{contains}

pub record MemoryEntry : Type 0 where
  pub key : String
  pub value : String
  pub updated_at : ℕ

abbrev pub Entries : Type 0
Entries = GoMap MemoryEntry

-- what is at the store path
pub data File : Type 0 where
  missing unreadable : File
  holds : String → File

-- `json.MarshalIndent` of the entries, and `json.Unmarshal` into an empty map
pub record Codec : Type 0 where
  pub encode : Entries → Option String
  pub decode : String → Option Entries

-- how `MkdirAll` and `WriteFile` fare; a write that fails leaves some file behind
pub data Disk : Type 0 where
  works no_directory : Disk
  breaks : File → Disk

pub data MemoryError : Type 0 where
  bad_arguments not_saved : MemoryError
  unknown_tool : String → MemoryError

pub record StoreParams : Type 0 where
  pub key : String
  pub value : String

pub record SearchParams : Type 0 where
  pub query : String
  pub limit : ℕ

-- the argument of a call, as each of the tools decodes it
pub record Args : Type 0 where
  pub store : Option StoreParams
  pub search : Option SearchParams
  pub get : Option String

pub data Reply : Type 0 where
  stored : String → Reply
  found : List MemoryEntry → Reply
  entry : MemoryEntry → Reply
  not_found : Reply

-- the tool and the file at its path
pub record Memory : Type 0 where
  pub entries : Entries
  pub file : File

unfoldable pub load : Codec → File → Entries → Entries
load codec missing old = old
load codec unreadable old = old
load codec (holds text) old = elim (codec.decode text) [ none ↦ old | some decoded ↦ decoded ]

unfoldable pub new_memory : Codec → File → Memory
unfolding load
new_memory codec file = record { entries = load codec file GoMap.empty; file = file }

-- `os.WriteFile`
unfoldable pub write : Disk → String → Memory → Result MemoryError Unit × Memory
write works text m = (ok tt, record m { file = holds text })
write no_directory text m = (err not_saved, m)
write (breaks left) text m = (err not_saved, record m { file = left })

unfoldable pub save : Codec → Disk → Memory → Result MemoryError Unit × Memory
unfolding write
save codec disk m = elim (codec.encode m.entries) [
  | none ↦ (err not_saved, m)
  | some text ↦ write disk text m
]

abbrev pub new_entry : ℕ → StoreParams → MemoryEntry
new_entry now params = record { key = params.key; value = params.value; updated_at = now }

unfoldable pub exec_store :
    Codec → Disk → ℕ → Option StoreParams → Memory → Result MemoryError Reply × Memory
unfolding save
exec_store codec disk now none m = (err bad_arguments, m)
exec_store codec disk now (some params) m =
    let changed = record m { entries = GoMap.put m.entries params.key (new_entry now params) } in
    let after = save codec disk changed in
    (elim after.0 [ ok _ ↦ ok (stored params.key) | err e ↦ err e ], after.1)

-- the test of `Search` on one entry
unfoldable pub matches : (String → String) → String → MemoryEntry → Bool
unfolding contains
matches to_lower q e = contains (to_lower e.key) q || contains (to_lower e.value) q

-- the loop of `Search`, with the results so far, which ends when there are `limit` of them
unfoldable pub collect :
    (String → String)
    → String
    → ℕ
    → List (String × MemoryEntry)
    → List MemoryEntry
    → List MemoryEntry
unfolding matches
collect to_lower q limit [] results = results
collect to_lower q limit (visited ∷ more) results =
    let skip = collect to_lower q limit more results in
    let longer = results ++ visited.1 ∷ [] in
    let next = collect to_lower q limit more longer in
    if matches to_lower q visited.1
    then (if leb limit (length longer) then longer else next)
    else skip

abbrev pub limit_or_default : ℕ → ℕ
limit_or_default limit = if is_pos limit then limit else 10

unfoldable pub search :
    (String → String) → List (String × MemoryEntry) → String → ℕ → List MemoryEntry
unfolding collect
search to_lower visit query limit =
    collect to_lower (to_lower query) (limit_or_default limit) visit []

abbrev pub sanitized : List Pattern → MemoryEntry → MemoryEntry
sanitized patterns e = record e { value = scrub_credentials patterns e.value }

unfoldable pub exec_search :
    List Pattern
    → (String → String)
    → List (String × MemoryEntry)
    → Option SearchParams
    → Result MemoryError Reply
unfolding search
exec_search patterns to_lower visit none = err bad_arguments
exec_search patterns to_lower visit (some params) =
    ok (found (map (sanitized patterns) (search to_lower visit params.query params.limit)))

unfoldable pub exec_get : List Pattern → Option String → Memory → Result MemoryError Reply
exec_get patterns none m = err bad_arguments
exec_get patterns (some key) m = elim (GoMap.get m.entries key) [
  | none ↦ ok not_found
  | some e ↦ ok (entry (sanitized patterns e))
]

unfoldable pub execute :
    List Pattern
    → (String → String)
    → List (String × MemoryEntry)
    → Codec
    → Disk
    → ℕ
    → String
    → Args
    → Memory
    → Result MemoryError Reply × Memory
unfolding exec_store exec_search exec_get
execute patterns to_lower visit codec disk now name args m =
    if name == "memory_store"
    then exec_store codec disk now args.store m
    else if name == "memory_search"
    then (exec_search patterns to_lower visit args.search, m)
    else if name == "memory_get"
    then (exec_get patterns args.get m, m)
    else (err (unknown_tool name), m)
