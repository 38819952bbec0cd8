-- ===== src/Lite/SecretStore/Kept.antt =====
-- harness/lite/secret.go: what is stored under a name stays as it was.
use mathlib.Core.Path.{subst}
use openharness.Prelude.{ℕ, String, ◌≡◌, refl, ap, ◌∙◌, some, List, [], ◌∷◌, Has, inl, inr}
use openharness.Prelude.GoMap
use openharness.Prelude.GoMap.{GoMap, IsRange, get-put, get-put_self, get-put_ne, get-put_cases}
use openharness.Prelude.Heap
use openharness.Prelude.Heap.{Heap, read-write_self, read-write_ne, read-alloc_self, read-alloc_ne}
use openharness.Prelude.Result.{ok}
use openharness.Lite.SecretStore.{Credentials, copy_into, get_credentials, store_credentials}
use openharness.Lite.SecretStore.Copies.{get-copy}
use openharness.Lite.SecretStore.Isolation.{
  World, Act, get, keep, make, mutate, act, Allowed, IsValid, get_stored, get_new, act-IsValid,
}

abbrev pub Stores : String → Act → Type 0
Stores name (keep a visit j) = j ≡ name
Stores name _ = ⊥

-- The name is still at its address, where the same map is.
pub record Still (name : String) (a : ℕ) (w later : World) : Type 0 where
  pub found : GoMap.get later.secrets.store name ≡ some a
  pub same : Heap.read later.secrets.heap a ≡ Heap.read w.secrets.heap a

act-Still :
    (getenv : String → String) (a : Act) (w : World) (name : String) (b : ℕ)
    → IsValid w
    → Allowed a w
    → (Stores name a → ⊥)
    → GoMap.get w.secrets.store name ≡ some b
    → Still name b w (act getenv a w)
unfolding act store_credentials
act-Still getenv (get visit j) w name b v may other found =
    elim (get_new getenv visit j w.secrets) [
      | inl (m, gives) ↦ rw gives record {
        found = found;
        same = read-alloc_ne b m w.secrets.heap (v.stored name b found).0;
      }
      | inr fails ↦ rw fails record { found = found; same = refl }
    ]
act-Still getenv (keep a visit j) w name b v may other found = record {
  found = get-put_ne w.secrets.store j name w.secrets.heap.next other ∙ found;
  same = read-alloc_ne b (copy_into GoMap.empty visit) w.secrets.heap (v.stored name b found).0;
}
act-Still getenv (make m) w name b v may other found = record {
  found = found;
  same = read-alloc_ne b m w.secrets.heap (v.stored name b found).0;
}
act-Still getenv (mutate a m) w name b v may other found = record {
  found = found;
  same =
      read-write_ne a b m w.secrets.heap
        (λ e. (v.stored name b found).1 (subst (λ x. Has x w.known) e may));
}

unfoldable pub run : (String → String) → List Act → World → World
unfolding act
run getenv [] w = w
run getenv (a ∷ acts) w = run getenv acts (act getenv a w)

abbrev pub AllAllowed : (String → String) → List Act → World → Type 0
AllAllowed getenv [] w = Unit {0}
AllAllowed getenv (a ∷ acts) w = Allowed a w × AllAllowed getenv acts (act getenv a w)

abbrev pub NoneStores : String → List Act → Type 0
NoneStores name [] = Unit {0}
NoneStores name (a ∷ acts) = (Stores name a → ⊥) × NoneStores name acts

run-Still :
    (getenv : String → String) (acts : List Act) (w : World) (name : String) (b : ℕ)
    → IsValid w
    → AllAllowed getenv acts w
    → NoneStores name acts
    → GoMap.get w.secrets.store name ≡ some b
    → Still name b w (run getenv acts w)
unfolding run
run-Still getenv [] w name b v may others found = record { found = found; same = refl }
run-Still getenv (a ∷ acts) w name b v (may, mays) (other, others) found =
    let one = act-Still getenv a w name b v may other found in
    let rest =
      run-Still getenv acts (act getenv a w) name b (act-IsValid getenv a w v) mays others
        one.found in
    record { found = rest.found; same = rest.same ∙ one.same }

-- Where no stored map is held outside and every known or stored address is below the heap's next one,
-- and while the program writes only to maps that it holds, credentials that are stored come back with
-- the entries they had then: whatever the program then does with the maps that it holds and whatever
-- it stores under other names, `GetCredentials` of the name returns a map with just these entries.
pub secrets_kept :
    (getenv : String → String) (acts : List Act) (w : World) (name : String) (a : ℕ)
    (visit visit' : List (String × String)) (m : Credentials)
    → IsValid w
    → Heap.read w.secrets.heap a ≡ some m
    → IsRange m visit
    → (let after = act getenv (keep a visit name) w in
        AllAllowed getenv acts after × NoneStores name acts)
    → ((kept : Credentials)
        → Heap.read
            (run getenv acts (act getenv (keep a visit name) w)).secrets.heap
            w.secrets.heap.next
          ≡ some kept
        → IsRange kept visit')
    → let got =
        get_credentials getenv visit' name
          (run getenv acts (act getenv (keep a visit name) w)).secrets in
      (c : ℕ) × (n : Credentials) × (got.0 ≡ ok c)
      × (Heap.read got.1.heap c ≡ some n)
      × ((j : String) → GoMap.get n j ≡ GoMap.get m j)
unfolding act store_credentials
secrets_kept getenv acts w name a visit visit' m v holds range (mays, others) range' =
    let next = act getenv (keep a visit name) w in
    let last = (run getenv acts next).secrets in
    let b = w.secrets.heap.next in
    let still =
      run-Still getenv acts next name b (act-IsValid getenv (keep a visit name) w v) mays others
        (get-put_self w.secrets.store name b) in
    let now : Heap.read last.heap b ≡ some (copy_into GoMap.empty visit) =
      still.same ∙ read-alloc_self (copy_into GoMap.empty visit) w.secrets.heap in
    let got = get_stored getenv visit' name last b still.found in
    (
      last.heap.next,
      copy_into GoMap.empty visit',
      ap (λ o. o.0) got,
      ap (λ o. Heap.read o.1.heap last.heap.next) got
          ∙ read-alloc_self (copy_into GoMap.empty visit') last.heap,
      λ j.
          get-copy (copy_into GoMap.empty visit) visit' j (range' (copy_into GoMap.empty visit) now)
          ∙ get-copy m visit j range,
    )
