-- ===== src/Prelude/Fields.antt =====
-- Go's `strings` functions on white space, as `unicode.IsSpace` has it.
use Prim.Native.Char.{Char, code}
use Prim.Native.String.{String}
use mathlib.Core.Bool.{Bool, true, false, ◌||◌, ◌&&◌}
use mathlib.Core.List.{List, [], ◌∷◌}
use text.Mathlib.Text.{◌==◌}
use openharness.Prelude.Tests.{eqb, leb, if◌then◌else◌}

abbrev pub is_space : Char → Bool
is_space c =
    let n = code c in
    (leb 9 n && leb n 13)
    || eqb n 32
    || eqb n 133
    || eqb n 160
    || eqb n 5760
    || (leb 8192 n && leb n 8202)
    || eqb n 8232
    || eqb n 8233
    || eqb n 8239
    || eqb n 8287
    || eqb n 12288

trim_left : String → String
trim_left String.[] = ""
trim_left (String.◌∷◌ c s) = let rest = trim_left s in if is_space c then rest else String.◌∷◌ c s

trim_right : String → String
trim_right String.[] = ""
trim_right (String.◌∷◌ c s) =
    let rest = trim_right s in if is_space c && rest == "" then "" else String.◌∷◌ c rest

-- `strings.TrimSpace`
unfoldable pub trim_space : String → String
unfolding trim_left trim_right
trim_space s = trim_right (trim_left s)

-- the first field with a character in front, or a new one after a space
begun : Bool → Char → List String → List String
begun true c (field ∷ more) = String.◌∷◌ c field ∷ more
begun joins c more = String.◌∷◌ c "" ∷ more

starts_field : String → Bool
starts_field String.[] = false
starts_field (String.◌∷◌ c s) = if is_space c then false else true

-- `strings.Fields`: the parts between runs of white space
unfoldable pub fields : String → List String
unfolding begun starts_field
fields String.[] = []
fields (String.◌∷◌ c s) =
    let rest = fields s in if is_space c then rest else begun (starts_field s) c rest
