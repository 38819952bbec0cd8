-- ===== src/Tools/Core/Memory/Saved.antt =====
-- tools/core/memory.go: the entries in memory and those in the file.
use openharness.Prelude.{
  ℕ, String, ◌≡◌, ◌≢◌, refl, ap, sym, ◌∙◌, Option, none, some, Option-cases, List, ◌==◌, inl, inr,
  Bool-cases, if◌then◌else◌,
}
use openharness.Prelude.GoMap
use openharness.Prelude.GoMap.{GoMap, get-put}
use openharness.Prelude.Result.{ok, err}
use openharness.Tools.Scrub.{Pattern}
use openharness.Tools.Core.Memory.{
  Memory, MemoryEntry, not_saved, Entries, Codec, Disk, works, no_directory, breaks, StoreParams,
  Args, Reply, entry, not_found, load, new_memory, write, save, new_entry, exec_store, exec_get,
  execute, sanitized,
}

-- what `memory_get` replies where the map has an entry or none
abbrev pub get_reply : List Pattern → Option MemoryEntry → Reply
get_reply patterns none = not_found
get_reply patterns (some e) = entry (sanitized patterns e)

exec_get-reply :
    (patterns : List Pattern) (key : String) (m : Memory)
    → exec_get patterns (some key) m ≡ ok (get_reply patterns (GoMap.get m.entries key))
unfolding exec_get
exec_get-reply patterns key m = elim (Option-cases (GoMap.get m.entries key)) [
  | inl e ↦ rw (e, exec_get) refl
  | inr (found, e) ↦ rw (e, exec_get) refl
]

write-entries :
    (disk : Disk) (text : String) (m : Memory) → (write disk text m).1.entries ≡ m.entries
unfolding write
write-entries works text m = refl
write-entries no_directory text m = refl
write-entries (breaks left) text m = refl

-- What is encoded is decoded again: the entries under their keys, in any order.
abbrev pub IsCodec : Codec → Type 0
IsCodec codec =
    (entries : Entries) (text : String)
    → codec.encode entries ≡ some text
    → (back : Entries) × (codec.decode text ≡ some back)
      × ((k : String) → GoMap.get back k ≡ GoMap.get entries k)

module _ (codec : Codec) where
  save-entries : (disk : Disk) (m : Memory) → (save codec disk m).1.entries ≡ m.entries
  unfolding save
  save-entries disk m = elim (Option-cases (codec.encode m.entries)) [
    | inl failed ↦ rw (failed, save) refl
    | inr (text, e) ↦ rw (e, save) (write-entries disk text m)
  ]

  exec_store-entries :
      (disk : Disk) (now : ℕ) (params : StoreParams) (m : Memory)
      → (exec_store codec disk now (some params) m).1.entries
        ≡ GoMap.put m.entries params.key (new_entry now params)
  unfolding exec_store
  exec_store-entries disk now params m =
      save-entries disk
        (record m { entries = GoMap.put m.entries params.key (new_entry now params) })

  -- After a call of memory_store, on any disk and also where it fails, memory_get finds the new value
  -- under its key, scrubbed, and under every other key what it found before.
  pub store-get :
      (patterns : List Pattern) (disk : Disk) (now : ℕ) (params : StoreParams) (m : Memory)
      (key : String)
      → exec_get patterns (some key) (exec_store codec disk now (some params) m).1 ≡ (
          if params.key == key
          then ok (entry (sanitized patterns (new_entry now params)))
          else exec_get patterns (some key) m)
  store-get patterns disk now params m key =
      exec_get-reply patterns key (exec_store codec disk now (some params) m).1
      ∙ ap (λ entries. ok (get_reply patterns (GoMap.get entries key)))
          (exec_store-entries disk now params m)
      ∙ elim (Bool-cases (params.key == key)) [
        | inl e ↦ rw (get-put, e) refl
        | inr e ↦ rw (get-put, e) (sym (exec_get-reply patterns key m))
      ]

  -- the entries that a new tool would load from the file are those in memory
  abbrev pub IsSynced : Memory → Type 0
  IsSynced m = (k : String) → GoMap.get (new_memory codec m.file).entries k ≡ GoMap.get m.entries k

  write-IsSynced :
      (disk : Disk) (text : String) (m : Memory) (back : Entries)
      → codec.decode text ≡ some back
      → ((k : String) → GoMap.get back k ≡ GoMap.get m.entries k)
      → (write disk text m).0 ≢ err not_saved
      → IsSynced (write disk text m).1
  unfolding write new_memory load
  write-IsSynced works text m back e same saved = λ k. rw (e) (same k)
  write-IsSynced no_directory text m back e same saved = absurd (saved refl)
  write-IsSynced (breaks left) text m back e same saved = absurd (saved refl)

  save-IsSynced :
      IsCodec codec
      → (disk : Disk) (m : Memory) → (save codec disk m).0 ≢ err not_saved
      → IsSynced (save codec disk m).1
  unfolding save
  save-IsSynced law disk m = elim (Option-cases (codec.encode m.entries)) [
    | inl failed ↦ rw (failed, save) (λ saved. absurd (saved refl))
    | inr (text, e) ↦
        let (back, decoded, same) = law m.entries text e in
        rw (e, save) (write-IsSynced disk text m back decoded same)
  ]

  exec_store-IsSynced :
      IsCodec codec
      → (disk : Disk) (now : ℕ) (params : Option StoreParams) (m : Memory)
      → (exec_store codec disk now params m).0 ≢ err not_saved
      → IsSynced m
      → IsSynced (exec_store codec disk now params m).1
  unfolding exec_store
  exec_store-IsSynced law disk now none m saved h = h
  exec_store-IsSynced law disk now (some params) m saved h =
      let changed : Memory = record m {
        entries = GoMap.put m.entries params.key (new_entry now params);
      } in
      save-IsSynced law disk changed (λ failed. saved (rw (failed, exec_store) refl))

  -- Where what the JSON of the file encodes decodes to the same entries under their keys, and on any
  -- disk: a call of a tool that does not fail to save keeps the file and the entries in memory together,
  -- so that a tool started on the file afterwards finds the same entry under every key.
  pub execute-IsSynced :
      IsCodec codec
      → (patterns : List Pattern) (to_lower : String → String) (visit : List (String × MemoryEntry))
        (disk : Disk) (now : ℕ) (name : String) (args : Args) (m : Memory)
      → (execute patterns to_lower visit codec disk now name args m).0 ≢ err not_saved
      → IsSynced m
      → IsSynced (execute patterns to_lower visit codec disk now name args m).1
  unfolding execute
  execute-IsSynced law patterns to_lower visit disk now name args m =
      elim (Bool-cases (name == "memory_store")) [
        | inl a ↦ rw (a, execute) (exec_store-IsSynced law disk now args.store m)
        | inr a ↦ elim (Bool-cases (name == "memory_search")) [
          | inl b ↦ rw (a, b, execute) (λ saved h. h)
          | inr b ↦ elim (Bool-cases (name == "memory_get")) [
            | inl c ↦ rw (a, b, c, execute) (λ saved h. h)
            | inr c ↦ rw (a, b, c, execute) (λ saved h. h)
          ]
        ]
      ]
