-- ===== src/Providers/Keys.antt =====
-- providers/openrouter.go and providers/secret.go: what stands for an API key in a configuration. The
-- environment and the secret store are parameters.
pub mod Secrets
mod Tests
use Prim.Native.String.{len, slice}
use text.Mathlib.Text.{starts_with}
use openharness.Prelude.{String, Option, none, some, ◌==◌, if◌then◌else◌}
use openharness.Prelude.GoMap
use openharness.Prelude.GoMap.{GoMap}
use openharness.Prelude.Result.{Result, ok, err}

abbrev pub secret_scheme : String
secret_scheme = "secret:"

-- `key[len(prefix):]` of a text with the prefix
abbrev pub after_prefix : String → String → String
after_prefix prefix key = slice key (len prefix) (len key)

unfoldable pub resolve_api_key : (String → String) → String → String → String
resolve_api_key getenv key fallback_env =
    if key == ""
    then getenv fallback_env
    else if starts_with key "$"
    then getenv (after_prefix "$" key)
    else key

pub data KeyError (E : Type 0) : Type 0 where
  no_name no_store no_field : KeyError E
  store_failed : E → KeyError E

-- the value of a field that is there and is not empty
unfoldable pub given_field : GoMap String → String → Option String
unfolding GoMap.get
given_field creds field = elim (GoMap.get creds field) [
  | none ↦ none
  | some v ↦ if v == "" then none else some v
]

module _ {E : Type 0} where
  -- the end of `ResolveAPIKeyWithStore`, with what the store has returned
  unfoldable pub field_of : Result E (GoMap String) → String → Result (KeyError E) String
  unfolding given_field
  field_of (err e) name = err (store_failed e)
  field_of (ok creds) name = elim (given_field creds "api_key") [
    | some v ↦ ok v
    | none ↦ elim (given_field creds name) [ some v ↦ ok v | none ↦ err no_field ]
  ]

  -- the lookup of a secret by its name, in a store that may be nil
  unfoldable pub resolve_secret :
      Option (String → Result E (GoMap String)) → String → Result (KeyError E) String
  unfolding field_of
  resolve_secret store name = if name == "" then err no_name else elim store [
    | none ↦ err no_store
    | some get_credentials ↦ field_of (get_credentials name) name
  ]

  -- `ResolveAPIKeyWithStore`
  unfoldable pub resolve_api_key_with_store :
      (String → String)
      → Option (String → Result E (GoMap String))
      → String
      → String
      → Result (KeyError E) String
  unfolding resolve_api_key resolve_secret
  resolve_api_key_with_store getenv store key fallback_env =
      if starts_with key secret_scheme
      then resolve_secret store (after_prefix secret_scheme key)
      else ok (resolve_api_key getenv key fallback_env)
