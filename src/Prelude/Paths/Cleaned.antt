-- ===== src/Prelude/Paths/Cleaned.antt =====
-- Go's `path/filepath`: a cleaned absolute path names nothing above the root.
use Prim.Native.Char.{Char, code}
use Prim.Native.String.{String, ◌++◌}
use mathlib.Core.Path.{◌≡◌, refl, ap, sym, subst, ◌∙◌}
use mathlib.Core.Logic.{inl, inr}
use mathlib.Core.Bool.{true, false, true≢false}
use mathlib.Core.List.{List, [], ◌∷◌}
use text.Mathlib.Text.{◌==◌}
use text.Mathlib.TextEquality.{eq_iff, starts_with_iff}
use text.Mathlib.TextLemmas.{append_assoc}
use text.Mathlib.TextPositions.{starts_with_of_prefix, starts_with-append}
use openharness.Prelude.Tests.{eqb, Bool-cases}
use openharness.Prelude.Paths.{
  onto_first, segments, is_abs, up, kept, joined, printed, clean, join, but_last, dir,
}

-- A name of a cleaned path: one segment, and none that `Clean` reads otherwise.
pub record IsName (name : String) : Type 0 where
  pub whole : segments name ≡ name ∷ []
  pub present : (name == "") ≡ false
  pub no_dot : (name == ".") ≡ false
  pub no_parent : (name == "..") ≡ false

abbrev pub All : (String → Type 0) → List String → Type 0
All P [] = Unit
All P (s ∷ more) = P s × All P more

abbrev pub IsSegment : String → Type 0
IsSegment s = segments s ≡ s ∷ []

segments-other :
    (c : Char) (s : String)
    → eqb (code c) 47 ≡ false
    → segments (String.◌∷◌ c s) ≡ onto_first c (segments s)
unfolding segments
segments-other c s h = rw (h) refl

segments-separator :
    (c : Char) (s : String) → eqb (code c) 47 ≡ true → segments (String.◌∷◌ c s) ≡ "" ∷ segments s
unfolding segments
segments-separator c s h = rw (h) refl

IsSegment-nil : IsSegment ""
unfolding segments
IsSegment-nil = refl

onto_first-IsSegment :
    (c : Char) (l : List String)
    → eqb (code c) 47 ≡ false
    → All IsSegment l
    → All IsSegment (onto_first c l)
unfolding onto_first
onto_first-IsSegment c [] h all = (segments-other c "" h ∙ ap (onto_first c) IsSegment-nil, tt)
onto_first-IsSegment c (s ∷ more) h all = (segments-other c s h ∙ ap (onto_first c) all.0, all.1)

pub segments-IsSegment : (p : String) → All IsSegment (segments p)
unfolding segments
segments-IsSegment String.[] = (IsSegment-nil, tt)
segments-IsSegment (String.◌∷◌ c s) = elim (Bool-cases (eqb (code c) 47)) [
  | inl cut ↦
      subst (All IsSegment) (sym (segments-separator c s cut)) (IsSegment-nil, segments-IsSegment s)
  | inr other ↦
      subst (All IsSegment) (sym (segments-other c s other))
        (onto_first-IsSegment c (segments s) other (segments-IsSegment s))
]

up-All : (names : List String) → All IsName names → All IsName (up true names)
unfolding up
up-All [] all = tt
up-All (name ∷ names) all = rw (all.0.no_parent) all.1

kept-All :
    (names more : List String)
    → All IsName names
    → All IsSegment more
    → All IsName (kept true names more)
unfolding kept
kept-All names [] all whole = all
kept-All names (s ∷ more) all whole = elim (Bool-cases (s == "")) [
  | inl nothing ↦ rw (nothing) (kept-All names more all whole.1)
  | inr present ↦ elim (Bool-cases (s == ".")) [
    | inl dot ↦ rw (present, dot) (kept-All names more all whole.1)
    | inr no_dot ↦ elim (Bool-cases (s == "..")) [
      | inl parent ↦
          rw (present, no_dot, parent) (kept-All (up true names) more (up-All names all) whole.1)
      | inr other ↦
          rw (present, no_dot, other)
            (kept-All (s ∷ names) more
              (
                (record { whole = whole.0; present = present; no_dot = no_dot; no_parent = other }),
                all,
              )
              whole.1)
    ]
  ]
]

-- A path from the root down names that are no `..`.
abbrev pub IsBelowRoot : String → Type 0
IsBelowRoot p = (names : List String) × All IsName names × (p ≡ printed true names)

pub clean-IsBelowRoot : (p : String) → is_abs p ≡ true → IsBelowRoot (clean p)
unfolding clean
clean-IsBelowRoot p h = (
  kept true [] (segments p),
  kept-All [] (segments p) tt (segments-IsSegment p),
  ap (λ r. printed r (kept r [] (segments p))) h,
)

pub is_abs-append : (p q : String) → is_abs p ≡ true → is_abs (p ++ q) ≡ true
is_abs-append p q h =
    let (u, same) = (starts_with_iff p "/").0 h in
    starts_with_of_prefix "/" (p ++ q) (u ++ q, sym (append_assoc "/" u q) ∙ ap (λ t. t ++ q) same)

printed-is_abs : (names : List String) → is_abs (printed true names) ≡ true
unfolding printed
printed-is_abs names = starts_with-append "/" (joined names "")

pub clean-is_abs : (p : String) → is_abs p ≡ true → is_abs (clean p) ≡ true
unfolding clean
clean-is_abs p h = rw (h) (printed-is_abs (kept true [] (segments p)))

pub dir-is_abs : (p : String) → is_abs p ≡ true → is_abs (dir p) ≡ true
unfolding dir
dir-is_abs p h = rw (h) (printed-is_abs (kept true [] (but_last (segments p))))

pub join-is_abs : (p q : String) → is_abs p ≡ true → is_abs (join p q) ≡ true
unfolding join
join-is_abs p q h = elim (Bool-cases (p == "")) [
  | inl none_left ↦ absurd (true≢false (sym h ∙ ap is_abs ((eq_iff p "").0 none_left)))
  | inr some_left ↦ rw (some_left) (clean-is_abs (p ++ "/" ++ q) (is_abs-append p ("/" ++ q) h))
]
