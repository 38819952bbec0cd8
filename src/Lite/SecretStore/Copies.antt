-- ===== src/Lite/SecretStore/Copies.antt =====
-- harness/lite/secret.go: a copy has the entries of the map that it was made from.
use mathlib.Core.Path.{subst}
use openharness.Prelude.{
  String, ◌≡◌, refl, ap, ◌∙◌, Option, none, some, List, [], ◌∷◌, eq_iff, ◌==◌, Bool-cases, inl, inr,
}
use openharness.Prelude.GoMap
use openharness.Prelude.GoMap.{GoMap, IsRange, IsDistinct, get-put, get-empty}
use openharness.Lite.SecretStore.{copy_into}

abbrev pub or_in : Option String → Option String → Option String
or_in (some v) other = some v
or_in none other = other

get-copy_into :
    (out : GoMap String) (visit : List (String × String)) (j : String)
    → IsDistinct visit
    → GoMap.get (copy_into out visit) j ≡ or_in (GoMap.find j visit) (GoMap.get out j)
unfolding copy_into GoMap.find
get-copy_into out [] j distinct = refl
get-copy_into out ((k, v) ∷ visit) j (fresh, distinct) =
    get-copy_into (GoMap.put out k v) visit j distinct ∙ elim (Bool-cases (k == j)) [
      | inl same ↦
          let gone : GoMap.find j visit ≡ none =
            subst (λ i. GoMap.find i visit ≡ none) ((eq_iff k j).0 same) fresh in
          rw same (rw gone (rw (get-put out k j v) (rw same refl)))
      | inr other ↦ rw other (rw (get-put out k j v) (rw other refl))
    ]

or_in-none : (o : Option String) → or_in o none ≡ o
or_in-none none = refl
or_in-none (some v) = refl

-- A copy along any range of a map has the same entries.
pub get-copy :
    (m : GoMap String) (visit : List (String × String)) (j : String)
    → IsRange m visit
    → GoMap.get (copy_into GoMap.empty visit) j ≡ GoMap.get m j
get-copy m visit j range =
    get-copy_into GoMap.empty visit j range.distinct
    ∙ ap (or_in (GoMap.find j visit)) (get-empty j)
    ∙ or_in-none (GoMap.find j visit)
    ∙ range.same j
