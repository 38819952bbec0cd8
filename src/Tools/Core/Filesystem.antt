-- ===== src/Tools/Core/Filesystem.antt =====
-- tools/core/filesystem.go: the file tools, which are confined to a workspace directory.
-- The operating system is a parameter, a `Disk` over states of its own. The JSON of an argument is
-- given by what its decoding yields, `none` for an error.
pub mod Confinement
pub mod Edits
mod Tests
use openharness.Prelude.{
  ℕ, String, Bool, true, false, Option, none, some, List, [], ◌∷◌, ◌==◌, ◌||◌, ◌+◌, ltb,
  if◌then◌else◌, map,
}
use openharness.Prelude.Paths.{is_abs, clean, join, dir, base}
use openharness.Prelude.Result.{Result, ok, err}
use openharness.Tools.Scrub.{Pattern, scrub_credentials}
use Prim.Native.String.{◌++◌, find, slice, len}
use text.Mathlib.Text.{starts_with}

-- an entry of `os.ReadDir`, with the size where `Info` gives one
pub record DirEntry : Type 0 where
  pub name : String
  pub is_dir : Bool
  pub info : Option ℕ

pub record FileInfo : Type 0 where
  pub name : String
  pub is_dir : Bool
  pub size : ℕ

-- the calls of `os` and `filepath` that reach the disk: what is read, `none` for an error, and for
-- a write whether it succeeds and what it leaves in any case
pub record Disk (S : Type 0) : Type 0 where
  pub eval_symlinks : S → String → Option String
  pub read_file : S → String → Option String
  pub read_dir : S → String → Option (List DirEntry)
  pub mkdir_all : S → String → Bool × S
  pub write_file : S → String → String → Bool × S

-- the guard gives the error that blocks a write
pub record Filesystem : Type 0 where
  pub workspace : String
  pub guard : Option (String → Option String)

pub data FileError : Type 0 where
  bad_arguments not_made not_written not_listed old_text_missing : FileError
  escapes not_read blocked unknown_tool : String → FileError

pub record WriteParams : Type 0 where
  pub path : String
  pub content : String

pub record EditParams : Type 0 where
  pub path : String
  pub old_text : String
  pub new_text : String

-- the argument of a call, as each of the tools decodes it
pub record Args : Type 0 where
  pub read : Option String
  pub write : Option WriteParams
  pub list : Option String
  pub edit : Option EditParams

pub data Reply : Type 0 where
  content : String → Reply
  success : Reply
  files : List FileInfo → Reply

unfoldable pub file_info : DirEntry → FileInfo
file_info e = record {
  name = e.name;
  is_dir = e.is_dir;
  size = elim e.info [ none ↦ 0 | some size ↦ size ];
}

-- `strings.Contains`: `find` answers past the text where nothing is found
unfoldable pub contains : String → String → Bool
contains s t = ltb (find s t) (1 + len s)

-- `strings.Replace(s, old, new, 1)` where `old` occurs in `s`
unfoldable pub replace_first : String → String → String → String
replace_first s old new = slice s 0 (find s old) ++ (new ++ slice s (find s old + len old) (len s))

module _ {S : Type 0} (disk : Disk S) where
  unfoldable pub new_filesystem : S → String → Filesystem
  new_filesystem s workspace = record {
    workspace = elim (disk.eval_symlinks s workspace) [
      | none ↦ clean workspace
      | some resolved ↦ resolved
    ];
    guard = none;
  }

  -- the target of `joined`, or for one that does not exist its name in the target of its directory
  unfoldable pub resolve : S → String → Option String
  resolve s joined = elim (disk.eval_symlinks s joined) [
    | some resolved ↦ some resolved
    | none ↦ elim (disk.eval_symlinks s (dir joined)) [
      | some parent ↦ some (join parent (base joined))
      | none ↦ none
    ]
  ]

  unfoldable pub validate_path : Filesystem → S → String → Result FileError String
  unfolding resolve
  validate_path f s p =
      if is_abs p then err (escapes p) else elim (resolve s (join f.workspace p)) [
        | none ↦ err (escapes p)
        | some target ↦
            let resolved = clean target in
            if starts_with resolved (f.workspace ++ "/") || resolved == f.workspace
            then ok resolved
            else err (escapes p)
      ]

  unfoldable pub check_guard : Filesystem → String → Result FileError String
  check_guard f resolved = elim f.guard [
    | none ↦ ok resolved
    | some guard ↦ elim (guard resolved) [ none ↦ ok resolved | some reason ↦ err (blocked reason) ]
  ]

  -- the start of every write
  unfoldable pub writable : Filesystem → S → String → Result FileError String
  unfolding validate_path check_guard
  writable f s p = elim (validate_path f s p) [
    | err e ↦ err e
    | ok resolved ↦ check_guard f resolved
  ]

  unfoldable pub read_file : List Pattern → Filesystem → S → Option String → Result FileError Reply
  unfolding validate_path
  read_file patterns f s none = err bad_arguments
  read_file patterns f s (some path) = elim (validate_path f s path) [
    | err e ↦ err e
    | ok resolved ↦ elim (disk.read_file s resolved) [
      | none ↦ err (not_read resolved)
      | some data_read ↦ ok (content (scrub_credentials patterns data_read))
    ]
  ]

  -- `os.WriteFile` and the reply
  unfoldable pub write_to : String → String → S → Result FileError Reply × S
  write_to resolved text s =
      let done = disk.write_file s resolved text in
      if done.0 then (ok success, done.1) else (err not_written, done.1)

  unfoldable pub write_file : Filesystem → S → Option WriteParams → Result FileError Reply × S
  unfolding writable write_to
  write_file f s none = (err bad_arguments, s)
  write_file f s (some params) = elim (writable f s params.path) [
    | err e ↦ (err e, s)
    | ok resolved ↦
        let made = disk.mkdir_all s (dir resolved) in
        if made.0 then write_to resolved params.content made.1 else (err not_made, made.1)
  ]

  unfoldable pub list_files : Filesystem → S → Option String → Result FileError Reply
  unfolding validate_path file_info
  list_files f s none = err bad_arguments
  list_files f s (some path) = elim (validate_path f s (if path == "" then "." else path)) [
    | err e ↦ err e
    | ok resolved ↦ elim (disk.read_dir s resolved) [
      | none ↦ err not_listed
      | some entries ↦ ok (files (map file_info entries))
    ]
  ]

  unfoldable pub edit_file : Filesystem → S → Option EditParams → Result FileError Reply × S
  unfolding writable write_to contains replace_first
  edit_file f s none = (err bad_arguments, s)
  edit_file f s (some params) = elim (writable f s params.path) [
    | err e ↦ (err e, s)
    | ok resolved ↦ elim (disk.read_file s resolved) [
      | none ↦ (err (not_read resolved), s)
      | some text ↦
          if contains text params.old_text
          then write_to resolved (replace_first text params.old_text params.new_text) s
          else (err old_text_missing, s)
    ]
  ]

  unfoldable pub execute :
      List Pattern → Filesystem → S → String → Args → Result FileError Reply × S
  unfolding read_file write_file list_files edit_file
  execute patterns f s name args =
      if name == "read_file"
      then (read_file patterns f s args.read, s)
      else if name == "write_file"
      then write_file f s args.write
      else if name == "list_files"
      then (list_files f s args.list, s)
      else if name == "edit_file"
      then edit_file f s args.edit
      else (err (unknown_tool name), s)
