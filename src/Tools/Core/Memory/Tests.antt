-- ===== src/Tools/Core/Memory/Tests.antt =====
-- tools/core/memory.go: calls at a small memory.
use openharness.Prelude.{
  String, ◌≡◌, ◌≢◌, refl, ap, sym, ◌∙◌, Option, none, some, List, [], ◌∷◌, length, ◌≤◌, ◌⊎◌, Has,
  ◌==◌, ◌&&◌, eqb, eq_iff, Bool-cases, inl, inr, if◌then◌else◌, arith,
}
use openharness.Prelude.GoMap
use openharness.Prelude.Result.{Result, err}
use openharness.Tools.Core.Filesystem.{contains}
use openharness.Tools.Core.Memory.{
  Memory, MemoryEntry, MemoryError, Reply, Entries, Codec, missing, works, no_directory,
  StoreParams, Args, new_memory, exec_store, execute, new_entry, search, collect, matches, load,
  write, save, not_saved, limit_or_default,
}
use openharness.Tools.Core.Memory.Search.{IsMatch, search_outcome}
use openharness.Tools.Core.Memory.Saved.{IsCodec, IsSynced, execute-IsSynced}

abbrev milk : StoreParams
milk = record { key = "shopping"; value = "Milk" }

abbrev two_entries : List (String × MemoryEntry)
two_entries =
    ("a", new_entry 1 (record { key = "a"; value = "tea" }))
    ∷ ("b", new_entry 2 (record { key = "tea"; value = "x" }))
    ∷ []

limited :
    search (λ s. s) two_entries "tea" 1 ≡ new_entry 1 (record { key = "a"; value = "tea" }) ∷ []
unfolding search collect matches contains
limited = refl

by_key_or_value :
    search (λ s. s) two_entries "tea" 0
    ≡ new_entry 1 (record { key = "a"; value = "tea" })
      ∷ new_entry 2 (record { key = "tea"; value = "x" })
      ∷ []
unfolding search collect matches contains
by_key_or_value = refl

store_args : Args
store_args = record { store = some milk; search = none; get = none }

-- a codec for the empty map and for one entry under the key of `milk`
encode_items : List (String × MemoryEntry) → Option String
encode_items [] = some ""
encode_items ((k, e) ∷ []) =
    if k == "shopping" && e.key == "shopping" && eqb e.updated_at 3
    then some (String.◌∷◌ "v" e.value)
    else none
encode_items _ = none

decode_text : String → Option Entries
decode_text String.[] = some (record { items = [] })
decode_text (String.◌∷◌ c value) = some (record {
  items = ("shopping", record { key = "shopping"; value = value; updated_at = 3 }) ∷ [];
})

abbrev values : Codec
values = record { encode = λ m. encode_items m.items; decode = decode_text }

items_back :
    (items : List (String × MemoryEntry)) (text : String)
    → encode_items items ≡ some text
    → decode_text text ≡ some (record { items = items })
unfolding encode_items decode_text
items_back [] text h = let same : text ≡ "" = ground (arith, h) in ap decode_text same
items_back (a ∷ b ∷ more) text h = absurd (ground (arith, h))
items_back ((k, e) ∷ []) text h = elim (Bool-cases (k == "shopping")) [
  | inr a ↦ absurd (ground (arith, h, a))
  | inl a ↦ elim (Bool-cases (e.key == "shopping")) [
    | inr b ↦ absurd (ground (arith, h, a, b))
    | inl b ↦ elim (Bool-cases (eqb e.updated_at 3)) [
      | inr c ↦ absurd (ground (arith, h, a, b, c))
      | inl c ↦
          let same : text ≡ String.◌∷◌ "v" e.value = ground (arith, h, a, b, c) in
          let at : e.updated_at ≡ 3 = ground (arith, c) in
          ap decode_text same ∙ (λ i. some (record {
            items =
                (
                  sym ((eq_iff k "shopping").0 a) i,
                  record {
                    key = sym ((eq_iff e.key "shopping").0 b) i;
                    value = e.value;
                    updated_at = sym at i;
                  },
                )
                ∷ [];
          }))
    ]
  ]
]

values-IsCodec : IsCodec values
values-IsCodec entries text h = (entries, items_back entries.items text h, λ k. refl)

abbrev stored_once : Result MemoryError Reply × Memory
stored_once =
    execute [] (λ s. s) two_entries values works 3 "memory_store" store_args
      (new_memory values missing)

once_saved : stored_once.0 ≢ err not_saved
unfolding execute exec_store save write new_memory load encode_items GoMap.put GoMap.empty
    store_args
once_saved = λ e. ground (arith, e)

empty-IsSynced : IsSynced values (new_memory values missing)
unfolding new_memory load
empty-IsSynced k = refl

execute-IsSynced_example : IsSynced values stored_once.1
execute-IsSynced_example =
    execute-IsSynced values values-IsCodec [] (λ s. s) two_entries works 3 "memory_store" store_args
      (new_memory values missing) once_saved empty-IsSynced

-- The reply is an error, and the new value is found.
failed_save :
    (exec_store values no_directory 3 (some milk) (new_memory values missing)).0 ≡ err not_saved
unfolding exec_store save write new_memory load encode_items GoMap.put GoMap.empty
failed_save = refl

search_outcome_example :
    let results = search (λ s. s) two_entries "tea" 1 in
    (length results ≤ limit_or_default 1)
    × ((e : MemoryEntry)
        → (Has e results → IsMatch (λ s. s) "tea" two_entries e)
          × (IsMatch (λ s. s) "tea" two_entries e
              → Has e results ⊎ (length results ≡ limit_or_default 1)))
search_outcome_example = search_outcome (λ s. s) two_entries "tea" 1
