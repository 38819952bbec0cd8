-- ===== src/Prelude/Paths.antt =====
-- Go's `path/filepath` on Unix, on texts: Clean, Join, Dir, Base and IsAbs.
pub mod Cleaned
use Prim.Native.Char.{Char, code}
use Prim.Native.String.{String, ◌++◌}
use mathlib.Core.Path.{◌≡◌, refl, ap, sym, subst, ◌∙◌}
use mathlib.Core.Logic.{inl, inr}
use mathlib.Core.Bool.{Bool, true, false, ◌||◌, true≢false}
use mathlib.Core.Option.{Option, none, some}
use mathlib.Core.List.{List, [], ◌∷◌}
use text.Mathlib.Text.{◌==◌, starts_with}
use text.Mathlib.TextEquality.{eq_iff, starts_with_iff}
use text.Mathlib.TextLemmas.{append_assoc}
use text.Mathlib.TextPositions.{starts_with_of_prefix, starts_with-append}
use openharness.Prelude.Tests.{eqb, if◌then◌else◌, Bool-cases}

-- the character put before the first segment
onto_first : Char → List String → List String
onto_first c [] = String.◌∷◌ c "" ∷ []
onto_first c (s ∷ more) = String.◌∷◌ c s ∷ more

-- the parts between the separators
unfoldable pub segments : String → List String
unfolding onto_first
segments String.[] = "" ∷ []
segments (String.◌∷◌ c s) =
    let rest = segments s in if eqb (code c) 47 then "" ∷ rest else onto_first c rest

abbrev pub is_abs : String → Bool
is_abs p = starts_with p "/"

-- `..` gives up the name before it, which at the root is none
up : Bool → List String → List String
up rooted [] = if rooted then [] else ".." ∷ []
up rooted (name ∷ names) = if name == ".." then ".." ∷ name ∷ names else names

-- Clean's loop: the names kept so far, the last one first
unfoldable pub kept : Bool → List String → List String → List String
unfolding up
kept rooted names [] = names
kept rooted names (s ∷ more) =
    let skipped = kept rooted names more in
    let parent = kept rooted (up rooted names) more in
    let deeper = kept rooted (s ∷ names) more in
    if s == "" || s == "." then skipped else if s == ".." then parent else deeper

-- the names, the last one first, with separators
unfoldable pub joined : List String → String → String
joined [] rest = rest
joined (name ∷ []) rest = name ++ rest
joined (name ∷ names) rest = joined names ("/" ++ name ++ rest)

unfoldable pub printed : Bool → List String → String
unfolding joined
printed true names = "/" ++ joined names ""
printed false [] = "."
printed false (name ∷ names) = joined (name ∷ names) ""

unfoldable pub clean : String → String
unfolding printed kept segments
clean p = printed (is_abs p) (kept (is_abs p) [] (segments p))

-- `Join` of two elements
unfoldable pub join : String → String → String
unfolding clean
join a b = if a == "" then (if b == "" then "" else clean b) else clean (a ++ "/" ++ b)

but_last : List String → List String
but_last [] = []
but_last (s ∷ []) = []
but_last (s ∷ t ∷ more) = s ∷ but_last (t ∷ more)

unfoldable pub dir : String → String
unfolding printed kept segments but_last
dir p = printed (is_abs p) (kept (is_abs p) [] (but_last (segments p)))

last_name : Option String → List String → Option String
last_name found [] = found
last_name found (s ∷ more) =
    let keep = last_name found more in
    let change = last_name (some s) more in if s == "" then keep else change

unfoldable pub base : String → String
unfolding last_name segments
base p =
    if p == "" then "." else elim (last_name none (segments p)) [ none ↦ "/" | some name ↦ name ]

abbrev pub separated : List String → String
separated [] = ""
separated (s ∷ []) = s
separated (s ∷ more) = s ++ "/" ++ separated more

-- `Join` of any elements: those from the first that is not empty on
unfoldable pub join_all : List String → String
unfolding clean
join_all [] = ""
join_all (s ∷ more) =
    let rest = join_all more in if s == "" then rest else clean (separated (s ∷ more))
