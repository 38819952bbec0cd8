-- ===== src/Prelude/Lists.antt =====
-- Lists measured by native numbers, under the library's names, and predicates on lists.
use Prim.Native.Nat.{ℕ, zero, suc, ◌+◌, ◌-◌, ◌≤◌, min}
use mathlib.Core.Path.{◌≡◌, refl}
use mathlib.Core.Logic.{◌⊎◌, inl, inr}
use mathlib.Core.List.{List, [], ◌∷◌, ◌++◌}
use native.Mathlib.Omega.{arith}

module _ {ℓ} {A : Type ℓ} where
  abbrev pub length : List A → ℕ
  length [] = 0
  length (x ∷ xs) = suc (length xs)

  unfoldable pub take : ℕ → List A → List A
  take zero xs = []
  take (suc n) [] = []
  take (suc n) (x ∷ xs) = x ∷ take n xs

  unfoldable pub drop : ℕ → List A → List A
  drop zero xs = xs
  drop (suc n) [] = []
  drop (suc n) (x ∷ xs) = drop n xs

  pub length-append : (xs ys : List A) → length (xs ++ ys) ≡ length xs + length ys
  length-append [] ys = omega arith
  length-append (x ∷ xs) ys = omega (arith, length-append xs ys)

  pub length-take : (n : ℕ) (xs : List A) → length (take n xs) ≡ min n (length xs)
  unfolding take
  length-take zero xs = omega arith
  length-take (suc n) [] = omega arith
  length-take (suc n) (x ∷ xs) = omega (arith, length-take n xs)

  pub length-drop : (n : ℕ) (xs : List A) → length (drop n xs) ≡ length xs - n
  unfolding drop
  length-drop zero xs = omega arith
  length-drop (suc n) [] = omega arith
  length-drop (suc n) (x ∷ xs) = omega (arith, length-drop n xs)

  pub take-nil : (n : ℕ) → take n [] ≡ []
  unfolding take
  take-nil zero = refl
  take-nil (suc n) = refl

  drop-nil : (n : ℕ) → drop n [] ≡ []
  unfolding drop
  drop-nil zero = refl
  drop-nil (suc n) = refl

  -- A bound at or past the end drops all, or keeps all.
  pub drop_past : (xs : List A) (n : ℕ) → length xs ≤ n → drop n xs ≡ []
  unfolding drop
  drop_past [] n past = drop-nil n
  drop_past (_ ∷ _) zero past = absurd (omega arith)
  drop_past (_ ∷ rest) (suc m) past = drop_past rest m (omega arith)

  pub take_past : (xs : List A) (n : ℕ) → length xs ≤ n → take n xs ≡ xs
  unfolding take
  take_past [] n past = take-nil n
  take_past (_ ∷ _) zero past = absurd (omega arith)
  take_past (first ∷ rest) (suc m) past = rw (take_past rest m (omega arith))

  pub drop-zero : (xs : List A) → drop zero xs ≡ xs
  unfolding drop
  drop-zero xs = refl

pub List-cases {ℓ} :
    {A : Type ℓ} (xs : List A) → (xs ≡ []) ⊎ ((a : A) × (rest : List A) × (xs ≡ a ∷ rest))
List-cases [] = inl refl
List-cases (x ∷ xs) = inr (x, xs, refl)

module _ {A : Type 0} where
  -- Membership with its position kept.
  abbrev pub Has : A → List A → Type 0
  Has a [] = ⊥
  Has a (x ∷ xs) = (a ≡ x) ⊎ Has a xs

  pub Has-take : (a : A) (n : ℕ) (xs : List A) → Has a (take n xs) → Has a xs
  unfolding take
  Has-take a (suc n) (x ∷ xs) (inl e) = inl e
  Has-take a (suc n) (x ∷ xs) (inr h) = inr (Has-take a n xs h)
  Has-take a zero xs h = absurd h
  Has-take a (suc n) [] h = absurd h

  pub Has-drop : (a : A) (n : ℕ) (xs : List A) → Has a (drop n xs) → Has a xs
  unfolding drop
  Has-drop a zero xs h = h
  Has-drop a (suc n) [] h = absurd h
  Has-drop a (suc n) (x ∷ xs) h = inr (Has-drop a n xs h)

  pub Has-push : (a e : A) (xs : List A) → Has a xs → Has a (xs ++ e ∷ [])
  Has-push a e [] h = absurd h
  Has-push a e (x ∷ xs) (inl same) = inl same
  Has-push a e (x ∷ xs) (inr h) = inr (Has-push a e xs h)

  pub Has-last : (a : A) (xs : List A) → Has a (xs ++ a ∷ [])
  Has-last a [] = inl refl
  Has-last a (x ∷ xs) = inr (Has-last a xs)
