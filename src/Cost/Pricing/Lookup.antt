-- ===== src/Cost/Pricing/Lookup.antt =====
-- cost/pricing.go: which price is found.
use openharness.Prelude.{
  String, true, false, ◌≡◌, refl, ap, sym, ◌∙◌, ◌⊎◌, inl, inr, Option, none, some, Option-cases,
  Bool-cases, [], ◌∷◌, Has, arith,
}
use mathlib.Core.Path.{subst}
use openharness.Prelude.GoMap
use openharness.Prelude.GoMap.{GoMap, IsRange, Has-of_find}
use openharness.Cost.Pricing.{
  ModelPrice, price, Prices, pricing_map, trim_prefix, is_close, close_price, or_else,
  price_or_default, lookup_price,
}

-- the price listed for exactly this model, an override first
abbrev pub listed : GoMap ModelPrice → String → Option ModelPrice
listed overrides name = or_else (GoMap.get overrides name) (GoMap.get pricing_map name)

or_else_assoc : (a b c : Option ModelPrice) → or_else a (or_else b c) ≡ or_else (or_else a b) c
or_else_assoc none b c = refl
or_else_assoc (some p) b c = refl

close_price-Has :
    (model : String) (visit : Prices) (p : ModelPrice)
    → close_price model visit ≡ some p
    → (key : String) × Has (key, p) visit × (is_close key model ≡ true)
unfolding close_price
close_price-Has model [] p = λ h. absurd (ground (arith, h))
close_price-Has model (entry ∷ more) p = elim (Bool-cases (is_close entry.0 model)) [
  | inl close ↦
      rw (close, close_price) (λ h. (entry.0, inl (ap (λ q. (entry.0, q)) (some_eq h)), close))
  | inr other ↦
      rw (other, close_price)
        (λ h. let (key, there, close) = close_price-Has model more p h in (key, inr there, close))
]
  where
    some_eq : some entry.1 ≡ some p → p ≡ entry.1
    some_eq h = ground (arith, h)

close_price-none :
    (model : String) (visit : Prices)
    → close_price model visit ≡ none
    → (key : String) (p : ModelPrice) → Has (key, p) visit
    → is_close key model ≡ false
unfolding close_price
close_price-none model [] = λ h key p there. absurd there
close_price-none model (entry ∷ more) = elim (Bool-cases (is_close entry.0 model)) [
  | inl close ↦ rw (close, close_price) (λ h. absurd (ground (arith, h)))
  | inr other ↦
      rw (other, close_price)
        (λ h key p there. elim there [
          | inl here ↦ ap (λ q. is_close q.0 model) here ∙ other
          | inr later ↦ close_price-none model more h key p later
        ])
]

-- a price of a visited entry whose key contains the model or is contained in it
abbrev pub IsClosePrice : String → Prices → ModelPrice → Type 0
IsClosePrice name visit p = (key : String) × Has (key, p) visit × (is_close key name ≡ true)

abbrev pub NoneClose : String → Prices → Type 0
NoneClose name visit =
    (key : String) (p : ModelPrice) → Has (key, p) visit → is_close key name ≡ false

-- the price of an entry that is close, an override before a default, or the default price
abbrev pub IsFallback : String → Prices → Prices → ModelPrice → Type 0
IsFallback name overrides defaults p =
    IsClosePrice name overrides p
    ⊎ (NoneClose name overrides
        × (IsClosePrice name defaults p ⊎ (NoneClose name defaults × (p ≡ price 300 1500))))

close-IsFallback :
    (name : String) (overrides defaults : Prices)
    → IsFallback name overrides defaults
        (price_or_default (or_else (close_price name overrides) (close_price name defaults)))
close-IsFallback name overrides defaults = elim (Option-cases (close_price name overrides)) [
  | inr (p, e) ↦ rw (e) (inl (close_price-Has name overrides p e))
  | inl absent ↦ elim (Option-cases (close_price name defaults)) [
    | inr (p, e) ↦
        rw (absent, e)
          (inr (close_price-none name overrides absent, inl (close_price-Has name defaults p e)))
    | inl nowhere ↦
        rw (absent, nowhere)
          (inr (
            close_price-none name overrides absent,
            inr (close_price-none name defaults nowhere, refl),
          ))
  ]
]

-- A model that is listed has its listed price, an override before a default, in whatever order the
-- loops would visit the maps. One that is not has the price of an entry that is close by name, an
-- override if one is close, or that of claude-sonnet-4-6 where no entry is close.
pub lookup_price_cases :
    (overrides : GoMap ModelPrice) (visit_overrides visit_defaults : Prices) (model : String)
    → let name = trim_prefix model "openrouter/" in
      let p = lookup_price overrides visit_overrides visit_defaults model in
      ((q : ModelPrice) → listed overrides name ≡ some q → p ≡ q)
      × (listed overrides name ≡ none → IsFallback name visit_overrides visit_defaults p)
unfolding lookup_price
lookup_price_cases overrides visit_overrides visit_defaults model =
    let name = trim_prefix model "openrouter/" in
    let close = or_else (close_price name visit_overrides) (close_price name visit_defaults) in
    let exact = or_else_assoc (GoMap.get overrides name) (GoMap.get pricing_map name) close in
    (
      λ q e. ap price_or_default (exact ∙ ap (λ o. or_else o close) e),
      λ e.
          subst (IsFallback name visit_overrides visit_defaults)
            (sym (ap price_or_default (exact ∙ ap (λ o. or_else o close) e)))
            (close-IsFallback name visit_overrides visit_defaults),
    )
