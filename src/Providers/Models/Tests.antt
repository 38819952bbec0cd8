-- ===== src/Providers/Models/Tests.antt =====
-- providers/types.go and providers/models.go: a few names.
use openharness.Prelude.{◌≡◌, ◌⊎◌, refl}
use openharness.Prelude.GoMap
use openharness.Providers.Models.{parse_model_string, strip_provider, vendor, context_window_size}
use openharness.Providers.Models.Names.{IsStripped, IsBelow, IsFlat, parse_model_string_outcome}

routed :
    parse_model_string "openrouter" "openrouter/anthropic/claude-opus-4-6"
    ≡ ("anthropic", "anthropic/claude-opus-4-6")
unfolding parse_model_string strip_provider vendor
routed = refl

of_anthropic :
    parse_model_string "anthropic" "anthropic/claude-opus-4-6" ≡ ("anthropic", "claude-opus-4-6")
unfolding parse_model_string strip_provider vendor
of_anthropic = refl

-- The prefix of another provider stays in the name.
other_route :
    parse_model_string "anthropic" "openrouter/anthropic/x"
    ≡ ("openrouter", "openrouter/anthropic/x")
unfolding parse_model_string strip_provider vendor
other_route = refl

default_window : context_window_size "none" ≡ 128000
unfolding context_window_size GoMap.get GoMap.find
default_window = refl

parse_model_string_outcome_example :
    let (system, model) = parse_model_string "a" "a/b/c" in
    IsStripped "a" "a/b/c" model × (IsBelow system model ⊎ (IsFlat model × (system ≡ "a")))
parse_model_string_outcome_example = parse_model_string_outcome "a" "a/b/c"
