-- ===== src/Config/Store/Tests.antt =====
-- config/config.go and config/store.go: a small configuration.
use openharness.Prelude.{String, true, ◌≡◌, ◌≢◌, refl, some, [], ◌∷◌, ◌==◌}
use openharness.Prelude.Result.{ok}
use openharness.Config.Store.{
  AppConfig, Codec, Files, default_config, resolve_model, overridden, nowhere, at_write, save,
  save_text,
}
use openharness.Config.Store.Atomicity.{IsAtomic, save-IsAtomic}
use mathlib.Core.Path.{ap}
use mathlib.Core.Bool.{true≢false}

abbrev a_config : AppConfig
a_config = record { default_model = "m"; agents = []; others = "" }

abbrev codec : Codec
codec = record { encode = λ c. some "{}"; decode = λ text. some a_config }

abbrev old_files : Files
old_files = record { items = ("c.json", "{old}") ∷ [] }

models :
    (resolve_model "scribe" (default_config "") ≡ "z-ai/glm-4.5-air:free")
    × (resolve_model "analyst" (default_config "") ≡ "google/gemma-4-31b-it:free")
unfolding resolve_model overridden
models = (refl, refl)

temp_apart : ◌≢◌ {A = String} "c.json.tmp1" "c.json"
temp_apart e = true≢false (ap (λ (t : String). t == "c.json.tmp1") e)

save-IsAtomic_example :
    IsAtomic "c.json" "c.json.tmp1" old_files "{}"
      (save codec (at_write "{") true "c.json.tmp1" "c.json" a_config old_files)
save-IsAtomic_example =
    save-IsAtomic codec (at_write "{") true "c.json.tmp1" "c.json" a_config old_files "{}"
      temp_apart refl

saved_fully : (save codec nowhere true "c.json.tmp1" "c.json" a_config old_files).0 ≡ ok tt
unfolding save save_text
saved_fully = refl
