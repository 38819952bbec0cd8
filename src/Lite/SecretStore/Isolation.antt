-- ===== src/Lite/SecretStore/Isolation.antt =====
-- harness/lite/secret.go: callers cannot reach what is stored through the maps that they hold.
use openharness.Prelude.{
  ℕ, suc, ◌<◌, String, ◌≡◌, refl, some, List, ◌∷◌, Has, arith, ◌==◌, Bool-cases, Option-cases, ◌⊎◌,
  inl, inr,
}
use openharness.Prelude.GoMap
use openharness.Prelude.GoMap.{GoMap, IsRange, get-put, get-put_self, get-put_ne, get-put_cases}
use openharness.Prelude.Heap
use openharness.Prelude.Heap.{Heap, read-write_self, read-write_ne, read-alloc_self, read-alloc_ne}
use openharness.Prelude.Result.{Result, ok, err}
use openharness.Harness.Errors.{HarnessError, not_found}
use openharness.Lite.SecretStore.{
  Credentials, LiteSecretStore, copy_into, get_credentials, store_credentials,
}

-- The store, and the maps that the rest of the program holds.
pub record World : Type 0 where
  pub secrets : LiteSecretStore
  pub known : List ℕ

-- What the rest of the program does: it calls the store, makes a map, or gives a map that it holds
-- other entries.
pub data Act : Type 0 where
  get : List (String × String) → String → Act
  keep : ℕ → List (String × String) → String → Act
  make : Credentials → Act
  mutate : ℕ → Credentials → Act

abbrev pub learn : Result HarnessError ℕ → List ℕ → List ℕ
learn (ok a) known = a ∷ known
learn (err e) known = known

unfoldable pub act : (String → String) → Act → World → World
unfolding get_credentials store_credentials Heap.alloc Heap.write
act getenv (get visit name) w =
    let (reply, s) = get_credentials getenv visit name w.secrets in
    record { secrets = s; known = learn reply w.known }
act getenv (keep a visit name) w = record w { secrets = store_credentials visit name w.secrets }
act getenv (make m) w = record {
  secrets = record w.secrets { heap = Heap.alloc m w.secrets.heap };
  known = w.secrets.heap.next ∷ w.known;
}
act getenv (mutate a m) w = record w {
  secrets = record w.secrets { heap = Heap.write a m w.secrets.heap };
}

-- The program writes only to maps that it holds, and a call of `StoreCredentials` ranges over one.
abbrev pub Allowed : Act → World → Type 0
Allowed (get visit name) w = Unit {0}
Allowed (keep a visit name) w =
    Has a w.known × ((m : Credentials) × (Heap.read w.secrets.heap a ≡ some m) × IsRange m visit)
Allowed (make m) w = Unit {0}
Allowed (mutate a m) w = Has a w.known

-- No stored map is held outside, and addresses come from the heap.
pub record IsValid (w : World) : Type 0 where
  pub below : (a : ℕ) → Has a w.known → a < w.secrets.heap.next
  pub stored :
      (name : String) (a : ℕ)
      → GoMap.get w.secrets.store name ≡ some a
      → (a < w.secrets.heap.next) × (Has a w.known → ⊥)

-- The heap after `alloc`, and a store and a list of held maps that mention the new one at most.
alloc-IsValid :
    (w : World) (m : Credentials)
    → IsValid w
    → IsValid (record {
      secrets = record w.secrets { heap = Heap.alloc m w.secrets.heap };
      known = w.secrets.heap.next ∷ w.known;
    })
unfolding Heap.alloc
alloc-IsValid w m v = record { below = below; stored = stored }
  where
    below : (a : ℕ) → Has a (w.secrets.heap.next ∷ w.known) → a < suc w.secrets.heap.next
    below a (inl e) = omega arith
    below a (inr h) = omega (arith, v.below a h)

    stored :
        (name : String) (a : ℕ)
        → GoMap.get w.secrets.store name ≡ some a
        → (a < suc w.secrets.heap.next) × (Has a (w.secrets.heap.next ∷ w.known) → ⊥)
    stored name a found = (omega (arith, (v.stored name a found).0), outside)
      where
        outside : Has a (w.secrets.heap.next ∷ w.known) → ⊥
        outside (inl e) = omega (arith, (v.stored name a found).0)
        outside (inr h) = (v.stored name a found).1 h

pub get_stored :
    (getenv : String → String) (visit : List (String × String)) (name : String)
    (s : LiteSecretStore) (a : ℕ)
    → GoMap.get s.store name ≡ some a
    → get_credentials getenv visit name s
      ≡ (ok s.heap.next, record s { heap = Heap.alloc (copy_into GoMap.empty visit) s.heap })
unfolding get_credentials
get_stored getenv visit name s a found = rw (found, get_credentials) refl

-- `GetCredentials` returns a new map, or fails and changes nothing.
pub get_new :
    (getenv : String → String) (visit : List (String × String)) (name : String)
    (s : LiteSecretStore)
    → ((m : Credentials) × (get_credentials getenv visit name s
          ≡ (ok s.heap.next, record s { heap = Heap.alloc m s.heap })))
      ⊎ (get_credentials getenv visit name s ≡ (err not_found, s))
unfolding get_credentials
get_new getenv visit name s = elim (Option-cases (GoMap.get s.store name)) [
  | inr (a, found) ↦ inl (copy_into GoMap.empty visit, get_stored getenv visit name s a found)
  | inl absent ↦ elim (Bool-cases (getenv name == "")) [
    | inl unset ↦ inr (rw (absent, get_credentials) (rw unset refl))
    | inr given ↦
        inl (GoMap.put GoMap.empty name (getenv name), rw (absent, get_credentials) (rw given refl))
  ]
]

get-IsValid :
    (getenv : String → String) (visit : List (String × String)) (name : String) (w : World)
    → IsValid w
    → IsValid (act getenv (get visit name) w)
unfolding act
get-IsValid getenv visit name w v = elim (get_new getenv visit name w.secrets) [
  | inl (m, gives) ↦ rw gives (alloc-IsValid w m v)
  | inr fails ↦ rw fails v
]

keep-IsValid :
    (getenv : String → String) (a : ℕ) (visit : List (String × String)) (name : String) (w : World)
    → IsValid w
    → IsValid (act getenv (keep a visit name) w)
unfolding act store_credentials Heap.alloc Heap.write
keep-IsValid getenv a visit name w v = record { below = below; stored = stored }
  where
    below : (b : ℕ) → Has b w.known → b < suc w.secrets.heap.next
    below b h = omega (arith, v.below b h)

    stored :
        (j : String) (b : ℕ)
        → GoMap.get (GoMap.put w.secrets.store name w.secrets.heap.next) j ≡ some b
        → (b < suc w.secrets.heap.next) × (Has b w.known → ⊥)
    stored j b found = elim (get-put_cases w.secrets.store name j w.secrets.heap.next found) [
      | inl (_, is) ↦ (omega arith, λ h. omega (arith, v.below b h))
      | inr (_, old) ↦ (omega (arith, (v.stored j b old).0), (v.stored j b old).1)
    ]

pub act-IsValid :
    (getenv : String → String) (a : Act) (w : World) → IsValid w → IsValid (act getenv a w)
unfolding act Heap.write
act-IsValid getenv (get visit name) w v = get-IsValid getenv visit name w v
act-IsValid getenv (keep a visit name) w v = keep-IsValid getenv a visit name w v
act-IsValid getenv (make m) w v = alloc-IsValid w m v
act-IsValid getenv (mutate a m) w v = record { below = v.below; stored = v.stored }
