-- ===== src/Tools/Core/Filesystem/Tests.antt =====
-- tools/core/filesystem.go: calls on a disk that holds plain files under /ws.
use openharness.Prelude.{
  String, true, ◌≡◌, refl, Option, none, some, [], ◌==◌, inl, inr, Bool-cases, if◌then◌else◌, arith,
}
use openharness.Prelude.Paths.{is_abs, join, dir, base, clean}
use openharness.Prelude.GoMap
use openharness.Prelude.GoMap.{GoMap, get-put_self, get-put_ne}
use openharness.Prelude.Result.{ok, err}
use openharness.Tools.Core.Filesystem.{
  Disk, Filesystem, Args, EditParams, success, escapes, validate_path, execute, resolve, edit_file,
  writable, check_guard, contains, replace_first, write_to,
}
use openharness.Tools.Core.Filesystem.Confinement.{
  KeepsAbs, IsConfined, IsPermitted, validate_path-IsConfined, execute-Keeps,
}
use openharness.Tools.Core.Filesystem.Edits.{ReadsBack, IsReplaced, edit_file-IsReplaced}
use Prim.Native.String.{◌++◌}
use text.Mathlib.Text.{starts_with}
use text.Mathlib.TextPositions.{starts_with-append}
use mathlib.Core.Path.{subst, sym, ap, ◌∙◌}
use mathlib.Core.Logic.{◌≢◌}
use mathlib.Core.Bool.{true≢false}

known : String → Option String → Option String
known p none = none
known p (some text) = some p

plain_eval : GoMap String → String → Option String
unfolding known
plain_eval s p = if p == "/ws" then some p else known p (GoMap.get s p)

plain : Disk (GoMap String)
unfolding plain_eval
plain = record {
  eval_symlinks = plain_eval;
  read_file = GoMap.get;
  read_dir = λ _ _. none;
  mkdir_all = λ s _. (true, s);
  write_file = λ s r text. (true, GoMap.put s r text);
}

known-same : (p q : String) (found : Option String) → known p found ≡ some q → p ≡ q
unfolding known
known-same p q none h = absurd (ground (arith, h))
known-same p q (some text) h = ground (arith, h)

plain-same : (s : GoMap String) (p q : String) → plain_eval s p ≡ some q → p ≡ q
unfolding plain_eval
plain-same s p q = elim (Bool-cases (p == "/ws")) [
  | inl here ↦ rw (here, plain_eval) (λ h. ground (arith, h))
  | inr other ↦ rw (other, plain_eval) (known-same p q (GoMap.get s p))
]

plain-KeepsAbs : KeepsAbs plain
unfolding plain
plain-KeepsAbs s p q e is = subst (λ t. is_abs t ≡ true) (plain-same s p q e) is

plain-ReadsBack : ReadsBack plain
unfolding plain
plain-ReadsBack s r text done = get-put_self s r text

abbrev sandbox : Filesystem
sandbox = record { workspace = "/ws"; guard = none }

abbrev notes : GoMap String
notes = GoMap.put GoMap.empty "/ws/notes" "buy milk today"

cleaned : clean "/a//b/../c/." ≡ "/a/c"
unfolding clean
cleaned = refl

above_root : clean "../x/../.." ≡ "../.."
unfolding clean
above_root = refl

of_nested : (dir "/ws/a/b" ≡ "/ws/a") × (base "/ws/a/b" ≡ "b")
unfolding dir base
of_nested = (refl, refl)

of_short : (dir "x" ≡ ".") × (base "/" ≡ "/")
unfolding dir base
of_short = (refl, refl)

notes_valid : validate_path plain sandbox notes "x/../notes" ≡ ok "/ws/notes"
unfolding validate_path join clean resolve plain plain_eval known GoMap.get GoMap.put GoMap.empty
notes_valid = refl

parent_refused : validate_path plain sandbox notes "../etc/passwd" ≡ err (escapes "../etc/passwd")
unfolding validate_path join clean resolve plain plain_eval known GoMap.get GoMap.put GoMap.empty
    dir
parent_refused = refl

-- A workspace at the root refuses every path but itself.
root_refuses :
    validate_path plain (record sandbox { workspace = "/" }) notes "ws/notes"
    ≡ err (escapes "ws/notes")
unfolding validate_path join clean resolve plain plain_eval known GoMap.get GoMap.put GoMap.empty
root_refuses = refl

validate_path-IsConfined_example : IsConfined plain sandbox "/ws/notes"
validate_path-IsConfined_example =
    validate_path-IsConfined plain plain-KeepsAbs sandbox notes "x/../notes" "/ws/notes" refl
      notes_valid

abbrev plan : EditParams
plan = record { path = "notes"; old_text = "milk"; new_text = "tea" }

abbrev planned : Args
planned = record { read = none; write = none; list = none; edit = some plan }

-- a file elsewhere
abbrev IsUntouched : GoMap String → Type 0
IsUntouched s = GoMap.get s "/etc/passwd" ≡ some "root"

confined_apart : (r : String) → IsConfined plain sandbox r → r ≢ "/etc/passwd"
confined_apart r (inl here, _) =
    λ e. true≢false (sym (ap (λ t. starts_with t "/ws") here) ∙ ap (λ t. starts_with t "/ws") e)
confined_apart r (inr (rest, under), _) = λ e.
    true≢false
      (sym (starts_with-append "/ws" ("/" ++ rest)) ∙ ap (λ t. starts_with t "/ws") (sym under ∙ e))

write-IsUntouched :
    (s : GoMap String) (r text : String)
    → IsPermitted plain sandbox r
    → IsUntouched s
    → IsUntouched (plain.write_file s r text).1
unfolding plain
write-IsUntouched s r text permitted now =
    get-put_ne s r "/etc/passwd" text (confined_apart r permitted.0) ∙ now

mkdir-IsUntouched :
    (s : GoMap String) (r : String)
    → IsPermitted plain sandbox r
    → IsUntouched s
    → IsUntouched (plain.mkdir_all s (dir r)).1
unfolding plain
mkdir-IsUntouched s r permitted now = now

abbrev with_passwd : GoMap String
with_passwd = GoMap.put notes "/etc/passwd" "root"

execute-Keeps_example : IsUntouched (execute plain [] sandbox with_passwd "edit_file" planned).1
execute-Keeps_example =
    execute-Keeps plain IsUntouched sandbox mkdir-IsUntouched write-IsUntouched plain-KeepsAbs refl
      [] with_passwd "edit_file" planned (get-put_self notes "/etc/passwd" "root")

plan_writable : writable plain sandbox notes "notes" ≡ ok "/ws/notes"
unfolding writable check_guard validate_path join clean resolve plain plain_eval known GoMap.get
    GoMap.put GoMap.empty
plan_writable = refl

plan_done : (edit_file plain sandbox notes (some plan)).0 ≡ ok success
unfolding edit_file write_to contains writable check_guard validate_path join clean resolve plain
    plain_eval known GoMap.get GoMap.put GoMap.empty
plan_done = refl

edit_file-IsReplaced_example :
    (result : String) × (plain.read_file (edit_file plain sandbox notes (some plan)).1 "/ws/notes"
      ≡ some result)
    × IsReplaced "buy milk today" "milk" "tea" result
unfolding plain
edit_file-IsReplaced_example =
    edit_file-IsReplaced plain plain-ReadsBack sandbox notes plan "/ws/notes" "buy milk today"
      plan_writable (get-put_self GoMap.empty "/ws/notes" "buy milk today") plan_done

milk_to_tea : replace_first "buy milk today" "milk" "tea" ≡ "buy tea today"
unfolding replace_first
milk_to_tea = refl
