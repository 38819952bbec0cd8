-- ===== src/Cost/Pricing.antt =====
-- cost/pricing.go: the prices of models, in hundredths of a micro-dollar. The order of a range over a
-- map is an argument, and numbers of tokens are not negative.
pub mod Lookup
mod Tests
use openharness.Prelude.{
  ℕ, String, Bool, true, false, Option, none, some, List, [], ◌∷◌, ◌==◌, ◌||◌, ◌+◌, ◌*◌,
  if◌then◌else◌,
}
use openharness.Prelude.GoMap
use openharness.Prelude.GoMap.{GoMap}
use openharness.Tools.Core.Filesystem.{contains}
use Prim.Native.String.{slice, len}
use text.Mathlib.Text.{starts_with}

pub record ModelPrice : Type 0 where
  pub input_per_token : ℕ
  pub output_per_token : ℕ

abbrev pub price : ℕ → ℕ → ModelPrice
price input output = record { input_per_token = input; output_per_token = output }

abbrev pub Prices : Type 0
Prices = List (String × ModelPrice)

abbrev pub default_pricing : Prices
default_pricing =
    ("anthropic/claude-sonnet-4-6", price 300 1500)
    ∷ ("anthropic/claude-opus-4-6", price 1500 7500)
    ∷ ("anthropic/claude-haiku-4-5", price 80 400)
    ∷ ("anthropic/claude-3-5-sonnet", price 300 1500)
    ∷ ("anthropic/claude-3-5-haiku", price 100 500)
    ∷ ("anthropic/claude-3-opus", price 1500 7500)
    ∷ ("anthropic/claude-3-haiku", price 25 125)
    ∷ ("google/gemini-2.5-pro", price 125 1000)
    ∷ ("google/gemini-2.5-flash", price 15 60)
    ∷ ("google/gemma-4-31b-it:free", price 0 0)
    ∷ ("z-ai/glm-4.5-air:free", price 0 0)
    ∷ ("anthropic/claude-haiku-4.5", price 80 400)
    ∷ []

abbrev pub pricing_map : GoMap ModelPrice
pricing_map = record { items = default_pricing }

-- `strings.TrimPrefix`
unfoldable pub trim_prefix : String → String → String
trim_prefix s prefix = if starts_with s prefix then slice s (len prefix) (len s) else s

-- the test of the loops
abbrev pub is_close : String → String → Bool
is_close key model = contains key model || contains model key

-- a loop over the prices, in the order of the range
unfoldable pub close_price : String → Prices → Option ModelPrice
close_price model [] = none
close_price model (entry ∷ more) =
    let rest = close_price model more in if is_close entry.0 model then some entry.1 else rest

abbrev pub or_else : Option ModelPrice → Option ModelPrice → Option ModelPrice
or_else none other = other
or_else (some p) other = some p

-- the price of claude-sonnet-4-6 where none is found
abbrev pub price_or_default : Option ModelPrice → ModelPrice
price_or_default none = price 300 1500
price_or_default (some p) = p

-- the tests one after the other, on the model without `openrouter/`; a missing map of overrides
-- has no entry
unfoldable pub lookup_price : GoMap ModelPrice → Prices → Prices → String → ModelPrice
unfolding trim_prefix close_price
lookup_price overrides visit_overrides visit_defaults model =
    let name = trim_prefix model "openrouter/" in
    price_or_default (
      or_else (GoMap.get overrides name) (
        or_else (GoMap.get pricing_map name)
          (or_else (close_price name visit_overrides) (close_price name visit_defaults))))

unfoldable pub calculate : GoMap ModelPrice → Prices → Prices → String → ℕ → ℕ → ℕ
unfolding lookup_price
calculate overrides visit_overrides visit_defaults model input_tokens output_tokens =
    let p = lookup_price overrides visit_overrides visit_defaults model in
    p.input_per_token * input_tokens + p.output_per_token * output_tokens
