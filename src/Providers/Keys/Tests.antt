-- ===== src/Providers/Keys/Tests.antt =====
-- providers/secret.go: a key in a store with one secret.
use openharness.Prelude.{String, ◌≡◌, refl, some, [], ◌∷◌}
use openharness.Prelude.GoMap
use openharness.Prelude.GoMap.{GoMap}
use openharness.Prelude.Result.{Result, ok}
use openharness.Providers.Keys.{given_field, field_of, resolve_secret, resolve_api_key_with_store}

abbrev no_env : String → String
no_env name = ""

abbrev one_secret : String → Result (Unit {0}) (GoMap String)
one_secret name = ok (record { items = ("api_key", "k-1") ∷ [] })

key_resolves :
    resolve_api_key_with_store no_env (some one_secret) "secret:openai" "OPENAI" ≡ ok "k-1"
unfolding resolve_api_key_with_store resolve_secret field_of given_field GoMap.get GoMap.find
key_resolves = refl
