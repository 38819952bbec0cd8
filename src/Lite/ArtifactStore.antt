-- ===== src/Lite/ArtifactStore.antt =====
-- harness/lite/artifact.go: the files of runs, under a base directory.
-- The files are texts under their paths, and how a call of the operating system fares is an argument.
pub mod Kept
mod Tests
use openharness.Prelude.{
  ℕ, String, Bool, true, false, Option, none, some, List, [], ◌∷◌, if◌then◌else◌,
}
use openharness.Prelude.GoMap
use openharness.Prelude.GoMap.{GoMap}
use openharness.Prelude.Paths.{join, join_all}
use openharness.Prelude.Result.{Result, ok, err}
use Prim.Native.String.{◌++◌}

abbrev pub Files : Type 0
Files = GoMap String

-- how `Put` fares: it works, the directory or the file cannot be made, or the copy ends after a part
pub data Writing : Type 0 where
  works no_directory no_file : Writing
  breaks : String → Writing

pub data ArtifactError : Type 0 where
  not_found not_made not_created not_written not_opened not_read no_absolute_path : ArtifactError

-- the key of an artifact, which is its path under the base directory
unfoldable pub key_of : String → String → String → String
key_of tenant_id run_id name = join_all (tenant_id ∷ run_id ∷ name ∷ [])

unfoldable pub put :
    String
    → Writing
    → String
    → String
    → String
    → String
    → Files
    → Result ArtifactError String × Files
unfolding key_of
put base_dir writing tenant_id run_id name text files =
    let key = key_of tenant_id run_id name in
    elim writing [
      | works ↦ (ok key, GoMap.put files (join base_dir key) text)
      | no_directory ↦ (err not_made, files)
      | no_file ↦ (err not_created, files)
      | breaks part ↦ (err not_written, GoMap.put files (join base_dir key) part)
    ]

-- `opens` is false for an error other than a missing file
unfoldable pub get : String → Bool → String → Files → Result ArtifactError String
get base_dir false key files = err not_opened
get base_dir true key files = elim (GoMap.get files (join base_dir key)) [
  | none ↦ err not_found
  | some text ↦ ok text
]

-- an entry of `os.ReadDir`, with its size and time where `Info` gives them
pub record DirEntry : Type 0 where
  pub name : String
  pub is_dir : Bool
  pub info : Option (ℕ × ℕ)

pub record ArtifactMeta : Type 0 where
  pub key : String
  pub name : String
  pub size : ℕ
  pub created_at : ℕ

unfoldable pub metas : String → String → List DirEntry → List ArtifactMeta
unfolding key_of
metas tenant_id run_id [] = []
metas tenant_id run_id (e ∷ entries) =
    let rest = metas tenant_id run_id entries in
    if e.is_dir then rest else elim e.info [
      | none ↦ rest
      | some info ↦
          record {
            key = key_of tenant_id run_id e.name;
            name = e.name;
            size = info.0;
            created_at = info.1;
          }
          ∷ rest
    ]

-- what `os.ReadDir` gives
pub data Listing : Type 0 where
  no_such_directory unreadable : Listing
  entries : List DirEntry → Listing

unfoldable pub list : String → String → Listing → Result ArtifactError (List ArtifactMeta)
unfolding metas
list tenant_id run_id no_such_directory = ok []
list tenant_id run_id unreadable = err not_read
list tenant_id run_id (entries found) = ok (metas tenant_id run_id found)

-- `absolute` is what `filepath.Abs` gives
unfoldable pub presign :
    String → (String → Option String) → String → Files → Result ArtifactError String
presign base_dir absolute key files = elim (GoMap.get files (join base_dir key)) [
  | none ↦ err not_found
  | some _ ↦ elim (absolute (join base_dir key)) [
    | none ↦ err no_absolute_path
    | some path ↦ ok ("file://" ++ path)
  ]
]
