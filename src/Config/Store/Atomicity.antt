-- ===== src/Config/Store/Atomicity.antt =====
-- config/store.go: what a save leaves at its path, at every moment.
use openharness.Prelude.{
  String, Bool, true, false, ◌≡◌, ◌≢◌, refl, ◌∙◌, some, List, [], ◌∷◌, arith, eq-false_of_ne,
}
use openharness.Prelude.GoMap
use openharness.Prelude.GoMap.{GoMap, get-put_ne, get-put_self, get-delete}
use openharness.Prelude.Result.{ok, err}
use openharness.Config.Store.{
  AppConfig, Codec, ConfigError, not_written, not_synced, not_closed, no_chmod, not_renamed, Files,
  filled, load, Fault, nowhere, at_create, at_write, at_sync, at_close, at_chmod, at_rename, Trace,
  cleaned_up, rename, save_text, save,
}

module _ (path temp : String) (files : Files) where
  -- the path as before the save
  abbrev pub IsKept : Files → Type 0
  IsKept now = GoMap.get now path ≡ GoMap.get files path

  abbrev pub AllKept : List Files → Type 0
  AllKept [] = Unit
  AllKept (now ∷ more) = IsKept now × AllKept more

  -- a save that failed has kept the path throughout; one that succeeded did until its last step, after
  -- which the path has the text
  abbrev pub IsAtomic : String → Trace → Type 0
  IsAtomic text (err e, states) = AllKept states
  IsAtomic text (ok _, []) = ⊥
  IsAtomic text (ok _, last ∷ before) = (GoMap.get last path ≡ some text) × AllKept before

  put-IsKept :
      (now : Files) (text : String) → temp ≢ path → IsKept now → IsKept (GoMap.put now temp text)
  put-IsKept now text apart kept = get-put_ne now temp path text apart ∙ kept

  delete-IsKept : (now : Files) → temp ≢ path → IsKept now → IsKept (GoMap.delete now temp)
  delete-IsKept now apart kept = get-delete now temp path ∙ rw (eq-false_of_ne temp path apart) kept

  cleaned_up-IsAtomic :
      (removes : Bool) (e : ConfigError) (text : String) (now : Files) (before : List Files)
      → temp ≢ path
      → IsKept now
      → AllKept before
      → IsAtomic text (cleaned_up removes e temp now before)
  cleaned_up-IsAtomic true e text now before apart kept all =
      (delete-IsKept now apart kept, (kept, all))
  cleaned_up-IsAtomic false e text now before apart kept all = (kept, all)

  created-IsKept : temp ≢ path → IsKept (GoMap.put files temp "")
  created-IsKept apart = put-IsKept files "" apart refl

  written-IsKept :
      (text : String) → temp ≢ path → IsKept (GoMap.put (GoMap.put files temp "") temp text)
  written-IsKept text apart = put-IsKept (GoMap.put files temp "") text apart (created-IsKept apart)

  failed-IsAtomic :
      (removes : Bool) (e : ConfigError) (text part : String)
      → temp ≢ path
      → IsAtomic text (
          cleaned_up removes e temp
            (GoMap.put (GoMap.put files temp "") temp part)
            (GoMap.put files temp "" ∷ files ∷ []))
  failed-IsAtomic removes e text part apart =
      cleaned_up-IsAtomic removes e text _ _ apart (written-IsKept part apart)
        (created-IsKept apart, (refl, tt))

  -- the file that was written is what the path has after the last step
  renamed :
      (text : String)
      → GoMap.get (rename temp path (GoMap.put (GoMap.put files temp "") temp text)) path
        ≡ some text
  unfolding rename
  renamed text =
      rw (get-put_self (GoMap.put files temp "") temp text, rename) (get-put_self _ path text)

  save_text-IsAtomic :
      (fault : Fault) (removes : Bool) (text : String)
      → temp ≢ path
      → IsAtomic text (save_text fault removes temp path text files)
  unfolding save_text
  save_text-IsAtomic at_create removes text apart = (refl, tt)
  save_text-IsAtomic (at_write part) removes text apart =
      failed-IsAtomic removes not_written text part apart
  save_text-IsAtomic at_sync removes text apart = failed-IsAtomic removes not_synced text text apart
  save_text-IsAtomic at_close removes text apart =
      failed-IsAtomic removes not_closed text text apart
  save_text-IsAtomic at_chmod removes text apart = failed-IsAtomic removes no_chmod text text apart
  save_text-IsAtomic at_rename removes text apart =
      failed-IsAtomic removes not_renamed text text apart
  save_text-IsAtomic nowhere removes text apart =
      (renamed text, (written-IsKept text apart, (created-IsKept apart, (refl, tt))))

-- Wherever a save of a configuration that encodes fails or is interrupted, the path has what it had
-- before, and once the save has succeeded it has the whole new text: never a part of it. The
-- temporary file has another name.
pub save-IsAtomic :
    (codec : Codec) (fault : Fault) (removes : Bool) (temp path : String) (cfg : AppConfig)
    (files : Files) (text : String)
    → temp ≢ path
    → codec.encode cfg ≡ some text
    → IsAtomic path temp files text (save codec fault removes temp path cfg files)
unfolding save
save-IsAtomic codec fault removes temp path cfg files text apart encoded =
    rw (encoded, save) (save_text-IsAtomic path temp files fault removes text apart)

-- the files when a save has returned
abbrev pub after : Trace → Files → Files
after (_, []) files = files
after (_, last ∷ _) files = last

saved-text :
    (path temp : String) (files : Files) (text : String) (trace : Trace)
    → trace.0 ≡ ok tt
    → IsAtomic path temp files text trace
    → GoMap.get (after trace files) path ≡ some text
saved-text path temp files text (ok tt, []) done atomic = absurd atomic
saved-text path temp files text (ok tt, last ∷ before) done atomic = atomic.0
saved-text path temp files text (err e, states) done atomic = absurd (ground (arith, done))

-- What has been saved without an error is loaded again, with the default model where it names none.
pub load-save :
    (codec : Codec) (others : String) (fault : Fault) (removes : Bool) (temp path : String)
    (cfg : AppConfig) (files : Files) (text : String)
    → temp ≢ path
    → codec.encode cfg ≡ some text
    → codec.decode text ≡ some cfg
    → (save codec fault removes temp path cfg files).0 ≡ ok tt
    → load codec others true path (after (save codec fault removes temp path cfg files) files)
      ≡ ok (filled others cfg)
unfolding load
load-save codec others fault removes temp path cfg files text apart encoded decoded done =
    let trace = save codec fault removes temp path cfg files in
    let there =
      saved-text path temp files text trace done
        (save-IsAtomic codec fault removes temp path cfg files text apart encoded) in
    rw (there, load, decoded) refl
