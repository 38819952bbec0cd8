-- ===== src/Lite/SecretStore/Tests.antt =====
-- harness/lite/secret.go: a caller that changes both its own map and the one that it got back.
use openharness.Prelude.{ℕ, String, ◌≡◌, refl, some, List, [], ◌∷◌, inl}
use openharness.Prelude.GoMap
use openharness.Prelude.GoMap.{GoMap, IsRange}
use openharness.Prelude.Heap
use openharness.Prelude.Result.{ok}
use openharness.Lite.SecretStore.{
  Credentials, new_lite_secret_store, copy_into, get_credentials, store_credentials,
}
use openharness.Lite.SecretStore.Isolation.{
  World, Act, get, keep, make, mutate, act, IsValid, act-IsValid,
}
use openharness.Lite.SecretStore.Kept.{run, secrets_kept}

abbrev no_env : String → String
no_env name = ""

abbrev token_map : Credentials
token_map = record { items = ("api_key", "s3cret") ∷ [] }

abbrev token_visit : List (String × String)
token_visit = ("api_key", "s3cret") ∷ []

abbrev empty_world : World
empty_world = record { secrets = new_lite_secret_store; known = [] }

empty_world-IsValid : IsValid empty_world
unfolding new_lite_secret_store GoMap.empty GoMap.get GoMap.find
empty_world-IsValid = record { below = λ a h. absurd h; stored = λ name a e. absurd (cc) }

-- the caller has made its map, at address 0
abbrev world : World
world = act no_env (make token_map) empty_world

-- and then it empties that map, asks for the credentials and empties the map returned
abbrev acts : List Act
acts = mutate 0 GoMap.empty ∷ get token_visit "openai" ∷ mutate 2 GoMap.empty ∷ []

token-IsRange : IsRange token_map token_visit
unfolding GoMap.get GoMap.find
token-IsRange = record { same = λ k. refl; distinct = (refl, tt) }

kept-IsRange :
    (kept : Credentials)
    → Heap.read
        (run no_env acts (act no_env (keep 0 token_visit "openai") world)).secrets.heap
        world.secrets.heap.next
      ≡ some kept
    → IsRange kept token_visit
unfolding run act get_credentials store_credentials new_lite_secret_store copy_into GoMap.get
    GoMap.put GoMap.empty GoMap.find Heap.read Heap.alloc Heap.write Heap.new_heap
kept-IsRange kept e = let is : kept ≡ token_map = cc in rw is token-IsRange

secrets_kept_example :
    let got =
      get_credentials no_env token_visit "openai"
        (run no_env acts (act no_env (keep 0 token_visit "openai") world)).secrets in
    (c : ℕ) × (n : Credentials) × (got.0 ≡ ok c)
    × (Heap.read got.1.heap c ≡ some n)
    × ((j : String) → GoMap.get n j ≡ GoMap.get token_map j)
unfolding run act get_credentials store_credentials new_lite_secret_store copy_into GoMap.get
    GoMap.put GoMap.empty GoMap.find Heap.read Heap.alloc Heap.write Heap.new_heap
secrets_kept_example =
    secrets_kept no_env acts world "openai" 0 token_visit token_visit token_map
      (act-IsValid no_env (make token_map) empty_world empty_world-IsValid) refl token-IsRange
      ((inl refl, (tt, (inl refl, tt))), ((λ h. h), ((λ h. h), ((λ h. h), tt)))) kept-IsRange
