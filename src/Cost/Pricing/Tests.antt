-- ===== src/Cost/Pricing/Tests.antt =====
-- cost/pricing.go: prices of a few models.
use openharness.Prelude.{◌≡◌, refl, [], ◌∷◌}
use openharness.Prelude.GoMap
use openharness.Prelude.GoMap.{GoMap, find}
use openharness.Tools.Core.Filesystem.{contains}
use openharness.Cost.Pricing.{
  price, default_pricing, trim_prefix, close_price, lookup_price, calculate,
}

opus_listed :
    lookup_price GoMap.empty [] default_pricing "openrouter/anthropic/claude-opus-4-6"
    ≡ price 1500 7500
unfolding lookup_price trim_prefix GoMap.get GoMap.empty find
opus_listed = refl

-- A part of a name finds whichever entry the range comes to first.
by_part :
    (lookup_price GoMap.empty [] default_pricing "claude" ≡ price 300 1500)
    × (lookup_price GoMap.empty [] (("anthropic/claude-3-haiku", price 25 125) ∷ []) "claude"
        ≡ price 25 125)
unfolding lookup_price trim_prefix close_price contains GoMap.get GoMap.empty find
by_part = (refl, refl)

a_call : calculate GoMap.empty [] default_pricing "google/gemini-2.5-flash" 1000 10 ≡ 15600
unfolding calculate lookup_price trim_prefix GoMap.get GoMap.empty find
a_call = refl
