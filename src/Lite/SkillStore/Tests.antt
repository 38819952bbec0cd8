-- ===== src/Lite/SkillStore/Tests.antt =====
-- harness/lite/skill.go: two skills, of which another tenant tries to delete one.
use openharness.Prelude.{
  String, Bool, false, ◌≡◌, ◌≢◌, refl, none, List, [], ◌∷◌, inl, inr, ◌==◌, arith, eq_iff,
}
use openharness.Prelude.Result.{ok}
use openharness.Harness.Types.{SkillMeta}
use openharness.Lite.SkillStore
use openharness.Lite.SkillStore.{LiteSkillStore, new_lite_skill_store, works, uploaded, resolve}
use openharness.Lite.SkillStore.Lasting.{Act, upload, delete, run, AllSpare, uploaded_lasts}

-- the paths of one tenant, by the ID alone
abbrev prompt_path : String → String → String
prompt_path tenant_id id = id

abbrev below : String → String → Bool
below dir path = dir == path

abbrev draft : SkillMeta
draft = record {
  id = "";
  tenant_id = "";
  name = "review";
  category = "";
  description = "reads a diff";
  triggers = [];
  artifact_key = "";
  version = 0;
  created_at = 0;
}

abbrev base : LiteSkillStore
base = new_lite_skill_store (λ p. none)

abbrev acts : List Act
acts = upload works 2 "b" "t" draft "other" ∷ delete none "u" "a" ∷ delete none "t" "b" ∷ []

differ : (s t : String) → (s == t) ≡ false → s ≢ t
differ s t h e = absurd (ground (arith, eq_iff s t))

acts-Spare : AllSpare prompt_path prompt_path below "a" (uploaded prompt_path 1 "a" "t" draft) acts
unfolding uploaded
acts-Spare = (
  (differ "b" "a" refl, differ "b" "a" refl),
  (inr (refl, differ "t" "u" refl), (inl (differ "b" "a" refl, refl), tt)),
)

uploaded_lasts_example :
    resolve (record { skill_id = "a"; version = 0 } ∷ []) (
      run prompt_path prompt_path below acts
        (SkillStore.upload prompt_path works 1 "a" "t" draft "look closely" base).1)
    ≡ ok (
        record {
          meta = uploaded prompt_path 1 "a" "t" draft;
          prompt = "look closely";
          examples = [];
        }
        ∷ [])
uploaded_lasts_example =
    uploaded_lasts prompt_path prompt_path below acts 1 "a" "t" draft "look closely" 0 base
      acts-Spare
