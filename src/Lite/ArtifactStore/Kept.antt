-- ===== src/Lite/ArtifactStore/Kept.antt =====
-- harness/lite/artifact.go: what a Put leaves for a later Get.
use openharness.Prelude.{
  String, true, ◌≡◌, refl, sym, ◌∙◌, Option, none, some, Option-cases, ◌==◌, inl, inr, Bool-cases,
  if◌then◌else◌,
}
use openharness.Prelude.GoMap
use openharness.Prelude.GoMap.{GoMap, get-put}
use openharness.Prelude.Paths.{join}
use openharness.Prelude.Result.{Result, ok, err}
use openharness.Lite.ArtifactStore.{
  Files, Writing, works, no_directory, no_file, breaks, ArtifactError, not_found, not_made,
  not_created, not_written, key_of, put, get,
}

abbrev pub get_reply : Option String → Result ArtifactError String
get_reply none = err not_found
get_reply (some text) = ok text

get-reply :
    (base_dir key : String) (files : Files)
    → get base_dir true key files ≡ get_reply (GoMap.get files (join base_dir key))
unfolding get
get-reply base_dir key files = elim (Option-cases (GoMap.get files (join base_dir key))) [
  | inl e ↦ rw (e, get) refl
  | inr (text, e) ↦ rw (e, get) refl
]

-- what `Put` replies and what `Get` finds under a key once it has ended: the path of the key in the
-- reply has the new content, or the path of the artifact the part that was copied, and every key of
-- another path has what it had
abbrev pub WasPut :
    String
    → String
    → Writing
    → String
    → String
    → Result ArtifactError String
    → Result ArtifactError String
    → Result ArtifactError String
    → Type 0
WasPut base_dir key works text j before reply after =
    (returned : String) × (reply ≡ ok returned)
    × (returned ≡ key)
    × (after ≡ (if join base_dir returned == join base_dir j then ok text else before))
WasPut base_dir key no_directory text j before reply after =
    (reply ≡ err not_made) × (after ≡ before)
WasPut base_dir key no_file text j before reply after = (reply ≡ err not_created) × (after ≡ before)
WasPut base_dir key (breaks part) text j before reply after =
    (reply ≡ err not_written)
    × (after ≡ (if join base_dir key == join base_dir j then ok part else before))

stored :
    (base_dir key j text : String) (files : Files)
    → get base_dir true j (GoMap.put files (join base_dir key) text)
      ≡ (if join base_dir key == join base_dir j then ok text else get base_dir true j files)
stored base_dir key j text files =
    get-reply base_dir j (GoMap.put files (join base_dir key) text)
    ∙ elim (Bool-cases (join base_dir key == join base_dir j)) [
      | inl e ↦ rw (get-put, e) refl
      | inr e ↦ rw (get-put, e) (sym (get-reply base_dir j files))
    ]

-- A Put that works returns the key of the tenant, the run and the name, and then Get gives the content
-- under that key and under every key that names the same path, and elsewhere what it gave before. A Put
-- whose copy breaks returns an error and leaves the part that was copied in the place of the old
-- content, and one that fails before returns an error and has no effect.
pub put-WasPut :
    (base_dir : String) (writing : Writing) (tenant_id run_id name text : String) (files : Files)
    (j : String)
    → WasPut base_dir
        (key_of tenant_id run_id name)
        writing
        text
        j
        (get base_dir true j files)
        (put base_dir writing tenant_id run_id name text files).0
        (get base_dir true j (put base_dir writing tenant_id run_id name text files).1)
unfolding put
put-WasPut base_dir works tenant_id run_id name text files j =
    let key = key_of tenant_id run_id name in (key, refl, refl, stored base_dir key j text files)
put-WasPut base_dir no_directory tenant_id run_id name text files j = (refl, refl)
put-WasPut base_dir no_file tenant_id run_id name text files j = (refl, refl)
put-WasPut base_dir (breaks part) tenant_id run_id name text files j =
    (refl, stored base_dir (key_of tenant_id run_id name) j part files)
