-- ===== src/Providers/Models/Names.antt =====
-- providers/types.go: what ParseModelString makes of a name.
use openharness.Prelude.{
  String, true, false, ◌≡◌, ◌≢◌, refl, ap, sym, ◌∙◌, ◌⊎◌, inl, inr, none, some, Option-cases,
  Bool-cases, eqb, ltb, ◌==◌, arith, eq_iff,
}
use openharness.Providers.Models.{vendor, strip_provider, parse_model_string}
use Prim.Native.Char.{Char, code}
use Prim.Native.String
use Prim.Native.String.{◌++◌, slice, len}
use text.Mathlib.Text.{starts_with}
use text.Mathlib.TextEquality.{Char-path, starts_with_iff}
use text.Mathlib.TextLemmas.{cons-append, nil-append, append_assoc}
use text.Mathlib.TextPositions.{slice-append_right, len-append, len_utf8-pos}
use mathlib.Core.Path.{subst}
use mathlib.Core.Bool.{true≢false}
use Prim.Native.String.len

-- a text without a slash
abbrev pub IsFlat : String → Type 0
IsFlat String.[] = Unit
IsFlat (String.◌∷◌ c s) = (eqb (code c) 47 ≡ false) × IsFlat s

-- a name that begins with the system and a slash, of which the system has none
abbrev pub IsBelow : String → String → Type 0
IsBelow system model = IsFlat system × ((rest : String) × (model ≡ system ++ "/" ++ rest))

cons-slash : (c : Char) (s : String) → eqb (code c) 47 ≡ true → String.◌∷◌ c s ≡ "/" ++ s
cons-slash c s h =
    ap (λ d. String.◌∷◌ d s) (Char-path c "/" (ground (arith, h)))
    ∙ sym (cons-append "/" "" s ∙ ap (String.◌∷◌ "/") (nil-append s))

vendor-some : (s v : String) → vendor s ≡ some v → IsBelow v s
unfolding vendor
vendor-some String.[] v = λ h. absurd (ground (arith, h))
vendor-some (String.◌∷◌ c s) v = elim (Bool-cases (eqb (code c) 47)) [
  | inl slash ↦
      rw (slash, vendor)
        (λ h.
          subst (λ w. IsBelow w (String.◌∷◌ c s)) (some_eq h)
            (tt, (s, cons-slash c s slash ∙ sym (nil-append ("/" ++ s)))))
  | inr other ↦ elim (Option-cases (vendor s)) [
    | inl flat ↦ rw (other, flat, vendor) (λ h. absurd (ground (arith, h)))
    | inr (found, e) ↦
        rw (other, e, vendor)
          (λ h.
            let (flat, (rest, same)) = vendor-some s found e in
            subst (λ w. IsBelow w (String.◌∷◌ c s)) (some_eq h)
              (
                (other, flat),
                (rest, ap (String.◌∷◌ c) same ∙ sym (cons-append c found ("/" ++ rest))),
              ))
  ]
]
  where
    some_eq : {a b : String} → some a ≡ some b → a ≡ b
    some_eq h = ground (arith, h)

vendor-none : (s : String) → vendor s ≡ none → IsFlat s
unfolding vendor
vendor-none String.[] = λ h. tt
vendor-none (String.◌∷◌ c s) = elim (Bool-cases (eqb (code c) 47)) [
  | inl slash ↦ rw (slash, vendor) (λ h. absurd (ground (arith, h)))
  | inr other ↦ elim (Option-cases (vendor s)) [
    | inl flat ↦ rw (other, flat, vendor) (λ h. (refl, vendor-none s flat))
    | inr (found, e) ↦ rw (other, e, vendor) (λ h. absurd (ground (arith, h)))
  ]
]

slice_behind : (p rest : String) → slice (p ++ rest) (len p) (len (p ++ rest)) ≡ rest
slice_behind p rest = rw (len-append) (slice-append_right p rest)

behind-ne : (p rest : String) → ltb (len p) (len (p ++ rest)) ≡ true → rest ≢ ""
behind-ne p rest longer =
    λ e. ground (arith, longer, len-append p rest, ap len e, Prim.Native.String.len.nil)

-- The raw name is a provider that is not empty, a slash, and more.
abbrev pub IsRouted : String → String → String → Type 0
IsRouted provider raw rest = (provider ≢ "") × (rest ≢ "") × (raw ≡ provider ++ "/" ++ rest)

-- What follows the provider and a slash in the raw name, or the raw name where nothing does.
abbrev pub IsStripped : String → String → String → Type 0
IsStripped provider raw model =
    ((raw ≡ model) × ((rest : String) → IsRouted provider raw rest → ⊥))
    ⊎ IsRouted provider raw model

longer_than : (p rest : String) → rest ≢ "" → ltb (len p) (len (p ++ rest)) ≡ true
longer_than p String.[] ne = absurd (ne refl)
longer_than p (String.◌∷◌ c s) ne =
    let (k, pos) = len_utf8-pos c in
    ground (arith, len-append p (String.◌∷◌ c s), Prim.Native.String.len.cons c s, pos)

strip_provider-IsStripped :
    (provider raw : String) → IsStripped provider raw (strip_provider provider raw)
unfolding strip_provider
strip_provider-IsStripped provider raw = elim (Bool-cases (provider == "")) [
  | inl unnamed ↦ rw (unnamed) (inl (refl, λ rest r. r.0 ((eq_iff provider "").0 unnamed)))
  | inr named ↦ elim (Bool-cases (ltb (len (provider ++ "/")) (len raw))) [
    | inr short ↦
        rw (named, short) (inl (refl, λ rest r. true≢false (sym (longer_of rest r) ∙ short)))
    | inl longer ↦ elim (Bool-cases (starts_with raw (provider ++ "/"))) [
      | inr apart ↦
          rw (named, longer, apart)
            (inl (refl, λ rest r. true≢false (sym (begins_of rest r) ∙ apart)))
      | inl begins ↦
          let (rest, same) = (starts_with_iff raw (provider ++ "/")).0 begins in
          rw (named, longer, begins, sym same, slice_behind (provider ++ "/") rest)
            (inr (
              λ e. true≢false (sym ((eq_iff provider "").1 e) ∙ named),
              behind-ne (provider ++ "/") rest
                  (subst (λ t. ltb (len (provider ++ "/")) (len t) ≡ true) (sym same) longer),
              append_assoc provider "/" rest,
            ))
    ]
  ]
]
  where
    whole : (rest : String) → IsRouted provider raw rest → (provider ++ "/") ++ rest ≡ raw
    whole rest r = append_assoc provider "/" rest ∙ sym r.2

    longer_of :
        (rest : String) → IsRouted provider raw rest → ltb (len (provider ++ "/")) (len raw) ≡ true
    longer_of rest r =
        subst (λ t. ltb (len (provider ++ "/")) (len t) ≡ true) (whole rest r)
          (longer_than (provider ++ "/") rest r.1)

    begins_of :
        (rest : String) → IsRouted provider raw rest → starts_with raw (provider ++ "/") ≡ true
    begins_of rest r = (starts_with_iff raw (provider ++ "/")).1 (rest, whole rest r)

-- The model is the name without the provider and its slash where the provider is not empty and the
-- name begins with them and goes on, and the whole name where it does not. The system is what stands before the first slash of the model, or the
-- provider where the model has none.
pub parse_model_string_outcome :
    (provider raw : String)
    → let (system, model) = parse_model_string provider raw in
      IsStripped provider raw model × (IsBelow system model ⊎ (IsFlat model × (system ≡ provider)))
unfolding parse_model_string
parse_model_string_outcome provider raw =
    let model = strip_provider provider raw in
    elim (Option-cases (vendor model)) [
      | inl flat ↦
          rw (flat, parse_model_string)
            (strip_provider-IsStripped provider raw, inr (vendor-none model flat, refl))
      | inr (system, e) ↦
          rw (e, parse_model_string)
            (strip_provider-IsStripped provider raw, inl (vendor-some model system e))
    ]
