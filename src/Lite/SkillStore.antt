-- ===== src/Lite/SkillStore.antt =====
-- harness/lite/skill.go: metadata in a map, prompts in files. The file system is a function from paths
-- to contents. The paths that filepath.Join makes of the base directory, a tenant and an ID, the test
-- that a path is below a directory, the generated UUIDs and the failures of I/O are arguments.
pub mod Lasting
pub mod Deletion
mod Tests
use openharness.Prelude.{
  ℕ, String, Bool, true, false, not, ◌&&◌, Option, none, some, List, [], ◌∷◌, ◌==◌, if◌then◌else◌,
}
use openharness.Prelude.GoMap
use openharness.Prelude.GoMap.{GoMap}
use openharness.Prelude.Result.{Result, ok, err}
use openharness.Harness.Types.{Time, SkillMeta, SkillRef, Skill}

pub data SkillError : Type 0 where
  skill_not_found io_error : SkillError

abbrev pub Files : Type 0
Files = String → Option String

pub record LiteSkillStore : Type 0 where
  pub skills : GoMap SkillMeta
  pub files : Files

unfoldable pub new_lite_skill_store : Files → LiteSkillStore
unfolding GoMap.empty
new_lite_skill_store files = record { skills = GoMap.empty; files = files }

-- How the I/O of an upload fares: it may fail at the directory, at the bundle, or inside the write,
-- which leaves something at its path.
pub data Writing : Type 0 where
  works no_directory no_bundle : Writing
  breaks : Option String → Writing

unfoldable pub write_file : String → Option String → Files → Files
write_file path content files = λ p. if path == p then content else files p

module _ (prompt_path : String → String → String) where
  unfoldable pub uploaded : Time → String → String → SkillMeta → SkillMeta
  uploaded now id tenant_id meta = record meta {
    id = id;
    tenant_id = tenant_id;
    artifact_key = prompt_path tenant_id id;
    version = 1;
    created_at = now;
  }

  -- `Upload` of a bundle with this content, where `id` is the new UUID
  unfoldable pub upload :
      Writing
      → Time
      → String
      → String
      → SkillMeta
      → String
      → LiteSkillStore
      → Result SkillError SkillMeta × LiteSkillStore
  unfolding write_file uploaded GoMap.put
  upload works now id tenant_id meta bundle s = (
    ok (uploaded now id tenant_id meta),
    record {
      skills = GoMap.put s.skills id (uploaded now id tenant_id meta);
      files = write_file (prompt_path tenant_id id) (some bundle) s.files;
    },
  )
  upload no_directory now id tenant_id meta bundle s = (err io_error, s)
  upload no_bundle now id tenant_id meta bundle s = (err io_error, s)
  upload (breaks left) now id tenant_id meta bundle s =
      (err io_error, record s { files = write_file (prompt_path tenant_id id) left s.files })

-- one round of the loop of `Resolve`
unfoldable pub resolve_ref : LiteSkillStore → SkillRef → Result SkillError Skill
unfolding GoMap.get
resolve_ref s ref = elim (GoMap.get s.skills ref.skill_id) [
  | none ↦ err skill_not_found
  | some meta ↦ elim (s.files meta.artifact_key) [
    | none ↦ err io_error
    | some prompt ↦ ok (record { meta = meta; prompt = prompt; examples = [] })
  ]
]

-- `Resolve`, which does not look at the version of a reference
unfoldable pub resolve : List SkillRef → LiteSkillStore → Result SkillError (List Skill)
unfolding resolve_ref
resolve [] s = ok []
resolve (ref ∷ refs) s =
    let rest = resolve refs s in
    elim (resolve_ref s ref) [
      | err e ↦ err e
      | ok skill ↦ elim rest [ err e ↦ err e | ok skills ↦ ok (skill ∷ skills) ]
    ]

module _ (below : String → String → Bool) where
  -- `os.RemoveAll`: what is below the directory goes, except for what a failure lets remain
  unfoldable pub remove_all : (String → Bool) → String → Files → Files
  remove_all remains dir files = λ p. if below dir p && not (remains p) then none else files p

  -- `Delete`, by whether `RemoveAll` fails and what then remains
  unfoldable pub delete :
      (String → String → String)
      → Option (String → Bool)
      → String
      → String
      → LiteSkillStore
      → Result SkillError (Unit {0}) × LiteSkillStore
  unfolding remove_all GoMap.get GoMap.delete
  delete dir_path failure tenant_id skill_id s = elim (GoMap.get s.skills skill_id) [
    | none ↦ (err skill_not_found, s)
    | some meta ↦
        if meta.tenant_id == tenant_id
        then elim failure [
          | none ↦ (
            ok tt,
            record {
              skills = GoMap.delete s.skills skill_id;
              files = remove_all (λ p. false) (dir_path tenant_id skill_id) s.files;
            },
          )
          | some remains ↦ (
            err io_error,
            record {
              skills = GoMap.delete s.skills skill_id;
              files = remove_all remains (dir_path tenant_id skill_id) s.files;
            },
          )
        ]
        else (err skill_not_found, s)
  ]

-- the loop of `ListTenant`, over a range of the map
unfoldable pub list_tenant : String → List (String × SkillMeta) → List SkillMeta
list_tenant tenant_id [] = []
list_tenant tenant_id ((id, meta) ∷ visit) =
    let rest = list_tenant tenant_id visit in
    if meta.tenant_id == tenant_id then meta ∷ rest else rest

-- `ListPlatform`
abbrev pub list_platform : List SkillMeta
list_platform = []
