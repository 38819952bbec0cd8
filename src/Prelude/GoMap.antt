-- ===== src/Prelude/GoMap.antt =====
-- Go's `map[string]V`. A `range` over a map visits every entry once, in an order that the language
-- leaves open: an operation that ranges over a map takes the visited entries as an argument, and
-- `IsRange` says what Go promises of them.
use Prim.Native.String.{String}
use mathlib.Core.Path.{◌≡◌, refl}
use mathlib.Core.Logic.{◌≢◌, ◌⊎◌, inl, inr}
use mathlib.Core.Bool.{true, false}
use mathlib.Core.Option.{Option, none, some}
use mathlib.Core.List.{List, [], ◌∷◌}
use native.Mathlib.Omega.{arith}
use text.Mathlib.Text.{◌==◌}
use text.Mathlib.TextEquality.{eq_iff}
use text.Mathlib.TextPositions.{eq_refl}
use openharness.Prelude.Tests.{eq-false_of_ne, if◌then◌else◌, Bool-cases}
use openharness.Prelude.Lists.{Has}

pub record GoMap {ℓ} (V : Type ℓ) : Type ℓ where
  pub items : List (String × V)

module _ {ℓ} {V : Type ℓ} where
  -- the value of the first entry with the key
  unfoldable pub find : String → List (String × V) → Option V
  find key [] = none
  find key (entry ∷ more) = if entry.0 == key then some entry.1 else find key more

  forget : String → List (String × V) → List (String × V)
  forget key [] = []
  forget key (entry ∷ more) = elim (entry.0 == key) [
    | true ↦ forget key more
    | false ↦ entry ∷ forget key more
  ]

  unfoldable pub empty : GoMap V
  empty = record { items = [] }

  -- `v, ok := m[k]`
  unfoldable pub get : GoMap V → String → Option V
  unfolding find
  get m k = find k m.items

  -- `delete(m, k)`
  unfoldable pub delete : GoMap V → String → GoMap V
  unfolding forget
  delete m k = record { items = forget k m.items }

  -- `m[k] = v`
  unfoldable pub put : GoMap V → String → V → GoMap V
  unfolding forget
  put m k v = record { items = (k, v) ∷ forget k m.items }

  find-forget :
      (gone key : String) (entries : List (String × V))
      → find key (forget gone entries) ≡ (if gone == key then none else find key entries)
  unfolding find forget
  find-forget gone key [] = ground arith
  find-forget gone key (entry ∷ more) =
      ground
        (arith, eq_iff gone key, eq_iff entry.0 key, eq_iff entry.0 gone, find-forget gone key more)

  pub get-empty : (k : String) → get empty k ≡ none
  unfolding get empty
  get-empty k = refl

  pub get-delete :
      (m : GoMap V) (k j : String) → get (delete m k) j ≡ (if k == j then none else get m j)
  unfolding get delete
  get-delete m k j = find-forget k j m.items

  pub get-put :
      (m : GoMap V) (k j : String) (v : V)
      → get (put m k v) j ≡ (if k == j then some v else get m j)
  unfolding get put
  get-put m k j v = elim (Bool-cases (k == j)) [
    | inl e ↦ rw (e) refl
    | inr e ↦ rw (e, find-forget k j m.items) (rw e refl)
  ]

  -- What a map holds after a write: the value just written, or what was there under another key.
  pub get-put_cases :
      (m : GoMap V) (k j : String) (v : V) {w : V}
      → get (put m k v) j ≡ some w
      → ((k ≡ j) × (v ≡ w)) ⊎ ((k ≢ j) × (get m j ≡ some w))
  get-put_cases m k j v h = elim (Bool-cases (k == j)) [
    | inl same ↦ inl ((eq_iff k j).0 same, ground (arith, get-put m k j v))
    | inr other ↦ inr (λ e. ground (arith, eq_iff k j, e), ground (arith, get-put m k j v))
  ]

  pub get-put_self : (m : GoMap V) (k : String) (v : V) → get (put m k v) k ≡ some v
  get-put_self m k v = simp (get-put, eq_refl)

  pub get-put_ne : (m : GoMap V) (k j : String) (v : V) → k ≢ j → get (put m k v) j ≡ get m j
  get-put_ne m k j v h = rw (get-put, eq-false_of_ne k j h)

  -- No key stands twice.
  abbrev pub IsDistinct : List (String × V) → Type ℓ
  IsDistinct [] = Unit
  IsDistinct ((k, v) ∷ l) = (find k l ≡ none) × IsDistinct l

  -- What a `range` over the map may visit.
  pub record IsRange (m : GoMap V) (visit : List (String × V)) : Type ℓ where
    pub same : (k : String) → find k visit ≡ get m k
    pub distinct : IsDistinct visit

module _ {V : Type 0} where
  -- What is found stands in the list.
  pub Has-of_find : (k : String) (v : V) (l : List (String × V)) → find k l ≡ some v → Has (k, v) l
  unfolding find
  Has-of_find k v [] h = absurd (ground arith)
  Has-of_find k v ((j, w) ∷ l) h = elim (Bool-cases (j == k)) [
    | inl e ↦ inl (ground (arith, eq_iff j k))
    | inr e ↦ inr (Has-of_find k v l (rw e at h))
  ]

  -- In a list without repeated keys, what stands there is found.
  pub find_of_Has :
      (k : String) (v : V) (l : List (String × V)) → IsDistinct l → Has (k, v) l → find k l ≡ some v
  unfolding find
  find_of_Has k v ((j, w) ∷ l) d (inl e) = ground (arith, eq_iff j k)
  find_of_Has k v ((j, w) ∷ l) d (inr h) = ground (arith, find_of_Has k v l d.1 h, eq_iff j k)
  find_of_Has k v [] d h = absurd h

pub ruleset map_laws = (get-empty, get-delete, get-put)
