-- ===== src/Lite/SkillStore/Lasting.antt =====
-- harness/lite/skill.go: an uploaded skill can be resolved until its tenant deletes it.
use mathlib.Core.Path.{subst}
use openharness.Prelude.{
  ℕ, String, Bool, false, ◌≡◌, ◌≢◌, refl, sym, ap, ◌∙◌, Option, some, List, [], ◌∷◌, arith, eq_iff,
  eq_refl, ◌⊎◌, inl, inr,
}
use openharness.Prelude.GoMap
use openharness.Prelude.GoMap.{GoMap, get-put_self, get-put_ne, get-delete}
use openharness.Prelude.Result.{ok}
use openharness.Harness.Types.{Time, SkillMeta}
use openharness.Lite.SkillStore
use openharness.Lite.SkillStore.{
  SkillError, LiteSkillStore, Files, Writing, works, no_directory, no_bundle, breaks, write_file,
  uploaded, resolve_ref, resolve, remove_all,
}
use openharness.Lite.SkillStore.Deletion.{delete_foreign, delete_effect}

pub data Act : Type 0 where
  upload : Writing → Time → String → String → SkillMeta → String → Act
  delete : Option (String → Bool) → String → String → Act

write_file_ne :
    (path p : String) (content : Option String) (files : Files)
    → path ≢ p
    → write_file path content files p ≡ files p
unfolding write_file
write_file_ne path p content files other = ground (arith, eq_iff path p, other)

write_file_self :
    (path : String) (content : Option String) (files : Files)
    → write_file path content files path ≡ content
unfolding write_file
write_file_self path content files = ground (arith, eq_refl path)

module _ (prompt_path : String → String → String) (dir_path : String → String → String)
    (below : String → String → Bool) where
  unfoldable pub act : Act → LiteSkillStore → LiteSkillStore
  act (upload w now id t meta bundle) s = (SkillStore.upload prompt_path w now id t meta bundle s).1
  act (delete failure t id) s = (SkillStore.delete below dir_path failure t id s).1

  -- The skill is there, and so is its prompt.
  pub record Held (id prompt : String) (meta : SkillMeta) (s : LiteSkillStore) : Type 0 where
    pub found : GoMap.get s.skills id ≡ some meta
    pub readable : s.files meta.artifact_key ≡ some prompt

  -- What other uploads and deletions there may be: under other IDs and at other paths, or a deletion
  -- by another tenant.
  abbrev pub Spares : String → SkillMeta → Act → Type 0
  Spares id meta (upload w now j t other bundle) = (j ≢ id) × (prompt_path t j ≢ meta.artifact_key)
  Spares id meta (delete failure t j) =
      ((j ≢ id) × (below (dir_path t j) meta.artifact_key ≡ false))
      ⊎ ((j ≡ id) × (meta.tenant_id ≢ t))

  upload-Held :
      (w : Writing) (now : Time) (j t : String) (other meta : SkillMeta) (bundle id prompt : String)
      (s : LiteSkillStore)
      → (j ≢ id) × (prompt_path t j ≢ meta.artifact_key)
      → Held id prompt meta s
      → Held id prompt meta (SkillStore.upload prompt_path w now j t other bundle s).1
  unfolding SkillStore.upload
  upload-Held works now j t other meta bundle id prompt s (apart, path) h = record {
    found = get-put_ne s.skills j id (uploaded prompt_path now j t other) apart ∙ h.found;
    readable =
        write_file_ne (prompt_path t j) meta.artifact_key (some bundle) s.files path ∙ h.readable;
  }
  upload-Held no_directory now j t other meta bundle id prompt s apart h = h
  upload-Held no_bundle now j t other meta bundle id prompt s apart h = h
  upload-Held (breaks left) now j t other meta bundle id prompt s (apart, path) h = record {
    found = h.found;
    readable = write_file_ne (prompt_path t j) meta.artifact_key left s.files path ∙ h.readable;
  }

  remove_all_outside :
      (remains : String → Bool) (dir p : String) (files : Files)
      → below dir p ≡ false
      → remove_all below remains dir files p ≡ files p
  unfolding remove_all
  remove_all_outside remains dir p files out = rw out refl

  act-Held :
      (a : Act) (id prompt : String) (meta : SkillMeta) (s : LiteSkillStore)
      → Spares id meta a
      → Held id prompt meta s
      → Held id prompt meta (act a s)
  unfolding act
  act-Held (upload w now j t other bundle) id prompt meta s spares h =
      upload-Held w now j t other meta bundle id prompt s spares h
  act-Held (delete failure t j) id prompt meta s (inl (apart, out)) h =
      elim (delete_effect below dir_path failure t j s) [
        | inl same ↦ subst (Held id prompt meta) (sym same) h
        | inr (remains, is) ↦ subst (Held id prompt meta) (sym is) record {
          found = get_delete_ne j id s.skills apart ∙ h.found;
          readable =
              remove_all_outside remains (dir_path t j) meta.artifact_key s.files out ∙ h.readable;
        }
      ]
    where
      get_delete_ne :
          (j id : String) (m : GoMap SkillMeta)
          → j ≢ id
          → GoMap.get (GoMap.delete m j) id ≡ GoMap.get m id
      get_delete_ne j id m apart = ground (arith, get-delete m j id, eq_iff j id, apart)
  act-Held (delete failure t j) id prompt meta s (inr (at, foreign)) h =
      let there : GoMap.get s.skills j ≡ some meta = rw at h.found in
      subst (Held id prompt meta)
        (sym (ap (λ o. o.1) (delete_foreign below dir_path failure t j s meta there foreign))) h

  unfoldable pub run : List Act → LiteSkillStore → LiteSkillStore
  unfolding act
  run [] s = s
  run (a ∷ acts) s = run acts (act a s)

  abbrev pub AllSpare : String → SkillMeta → List Act → Type 0
  AllSpare id meta [] = Unit {0}
  AllSpare id meta (a ∷ acts) = Spares id meta a × AllSpare id meta acts

  run-Held :
      (acts : List Act) (id prompt : String) (meta : SkillMeta) (s : LiteSkillStore)
      → AllSpare id meta acts
      → Held id prompt meta s
      → Held id prompt meta (run acts s)
  unfolding run
  run-Held [] id prompt meta s spare h = h
  run-Held (a ∷ acts) id prompt meta s (one, spare) h =
      run-Held acts id prompt meta (act a s) spare (act-Held a id prompt meta s one h)

  resolve_ref-Held :
      (id prompt : String) (meta : SkillMeta) (version : ℕ) (s : LiteSkillStore)
      → Held id prompt meta s
      → resolve_ref s (record { skill_id = id; version = version })
        ≡ ok (record { meta = meta; prompt = prompt; examples = [] })
  unfolding resolve_ref
  resolve_ref-Held id prompt meta version s h =
      rw (h.found, resolve_ref) (rw (h.readable, resolve_ref) refl)

  resolve-Held :
      (id prompt : String) (meta : SkillMeta) (version : ℕ) (s : LiteSkillStore)
      → Held id prompt meta s
      → resolve (record { skill_id = id; version = version } ∷ []) s
        ≡ ok (record { meta = meta; prompt = prompt; examples = [] } ∷ [])
  unfolding resolve
  resolve-Held id prompt meta version s h =
      let one = resolve_ref-Held id prompt meta version s h in rw (one, resolve) refl

  -- A skill that has been uploaded resolves to its metadata and to the content of its bundle, also
  -- after other uploads and deletions, failing ones included: uploads under other IDs to other paths,
  -- deletions of other skills with its prompt outside their directories, and deletions of its ID by
  -- other tenants.
  pub uploaded_lasts :
      (acts : List Act) (now : Time) (id t : String) (meta : SkillMeta) (bundle : String)
      (version : ℕ) (s : LiteSkillStore)
      → AllSpare id (uploaded prompt_path now id t meta) acts
      → resolve
          (record { skill_id = id; version = version } ∷ [])
          (run acts (SkillStore.upload prompt_path works now id t meta bundle s).1)
        ≡ ok (
            record { meta = uploaded prompt_path now id t meta; prompt = bundle; examples = [] }
            ∷ [])
  unfolding SkillStore.upload uploaded
  uploaded_lasts acts now id t meta bundle version s spare =
      let after = (SkillStore.upload prompt_path works now id t meta bundle s).1 in
      let new = uploaded prompt_path now id t meta in
      let start : Held id bundle new after = record {
        found = get-put_self s.skills id new;
        readable = write_file_self (prompt_path t id) (some bundle) s.files;
      } in
      resolve-Held id bundle new version (run acts after)
        (run-Held acts id bundle new after spare start)
