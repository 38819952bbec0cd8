-- ===== src/Lite/SecretStore.antt =====
-- harness/lite/secret.go: credentials in memory, with the environment behind them. The credentials are
-- Go maps, which are shared by reference: the store holds addresses, and so do its callers. The
-- order of a `range` over a map and the environment are arguments.
pub mod Copies
pub mod Isolation
pub mod Kept
mod Tests
use openharness.Prelude.{ℕ, String, Option, none, some, List, [], ◌∷◌, ◌==◌, if◌then◌else◌}
use openharness.Prelude.GoMap
use openharness.Prelude.GoMap.{GoMap}
use openharness.Prelude.Heap
use openharness.Prelude.Heap.{Heap, new_heap}
use openharness.Prelude.Result.{Result, ok, err}
use openharness.Harness.Errors.{HarnessError, not_found}

abbrev pub Credentials : Type 0
Credentials = GoMap String

-- `LiteSecretStore`, with the memory that its maps are in
pub record LiteSecretStore : Type 0 where
  pub heap : Heap Credentials
  pub store : GoMap ℕ

unfoldable pub new_lite_secret_store : LiteSecretStore
unfolding GoMap.empty new_heap
new_lite_secret_store = record { heap = new_heap; store = GoMap.empty }

-- `for k, v := range creds { out[k] = v }`
unfoldable pub copy_into : GoMap String → List (String × String) → GoMap String
unfolding GoMap.put
copy_into out [] = out
copy_into out ((k, v) ∷ visit) = copy_into (GoMap.put out k v) visit

-- `GetCredentials`: the address of the map that is returned
unfoldable pub get_credentials :
    (String → String)
    → List (String × String)
    → String
    → LiteSecretStore
    → Result HarnessError ℕ × LiteSecretStore
unfolding GoMap.get GoMap.put GoMap.empty copy_into Heap.alloc
get_credentials getenv visit name s = elim (GoMap.get s.store name) [
  | some _ ↦ (ok s.heap.next, record s { heap = Heap.alloc (copy_into GoMap.empty visit) s.heap })
  | none ↦ if getenv name == "" then (err not_found, s) else (
    ok s.heap.next,
    record s { heap = Heap.alloc (GoMap.put GoMap.empty name (getenv name)) s.heap },
  )
]

-- `StoreCredentials`, over a range of the caller's map
unfoldable pub store_credentials :
    List (String × String) → String → LiteSecretStore → LiteSecretStore
unfolding GoMap.put GoMap.empty copy_into Heap.alloc
store_credentials visit name s = record s {
  heap = Heap.alloc (copy_into GoMap.empty visit) s.heap;
  store = GoMap.put s.store name s.heap.next;
}

-- `MintScopedToken`
abbrev pub mint_scoped_token : String
mint_scoped_token = "lite-passthrough"
