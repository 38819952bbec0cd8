-- ===== src/Lite/SkillStore/Deletion.antt =====
-- harness/lite/skill.go: what `Delete` does, by its reply.
use mathlib.Core.Path.{subst}
use openharness.Prelude.{
  String, Bool, true, false, ◌≡◌, ◌≢◌, refl, sym, ap, Option, none, some, ◌==◌, arith,
  if◌then◌else◌, Bool-cases, Option-cases, ◌⊎◌, inl, inr, eq_iff,
}
use openharness.Prelude.GoMap
use openharness.Prelude.GoMap.{GoMap, get-delete}
use openharness.Prelude.Result.{Result, ok, err}
use openharness.Harness.Types.{SkillMeta}
use openharness.Lite.SkillStore.{
  SkillError, skill_not_found, io_error, LiteSkillStore, remove_all, delete,
}

module _ (below : String → String → Bool) (dir_path : String → String → String) where
  pub delete_missing :
      (failure : Option (String → Bool)) (t id : String) (s : LiteSkillStore)
      → GoMap.get s.skills id ≡ none
      → delete below dir_path failure t id s ≡ (err skill_not_found, s)
  unfolding delete
  delete_missing failure t id s absent = rw (absent, delete) refl

  pub delete_foreign :
      (failure : Option (String → Bool)) (t id : String) (s : LiteSkillStore) (meta : SkillMeta)
      → GoMap.get s.skills id ≡ some meta
      → meta.tenant_id ≢ t
      → delete below dir_path failure t id s ≡ (err skill_not_found, s)
  unfolding delete
  delete_foreign failure t id s meta found other =
      let differs : (meta.tenant_id == t) ≡ false =
        ground (arith, eq_iff meta.tenant_id t, other) in
      rw (found, delete) (rw (differs, delete) refl)

  abbrev pub removed : (String → Bool) → String → String → LiteSkillStore → LiteSkillStore
  removed remains t id s = record {
    skills = GoMap.delete s.skills id;
    files = remove_all below remains (dir_path t id) s.files;
  }

  delete_own :
      (t id : String) (s : LiteSkillStore) (meta : SkillMeta)
      → GoMap.get s.skills id ≡ some meta
      → meta.tenant_id ≡ t
      → delete below dir_path none t id s ≡ (ok tt, removed (λ p. false) t id s)
  unfolding delete
  delete_own t id s meta found own =
      let same : (meta.tenant_id == t) ≡ true = (eq_iff meta.tenant_id t).1 own in
      rw (found, delete) (rw (same, delete) refl)

  delete_own_broken :
      (remains : String → Bool) (t id : String) (s : LiteSkillStore) (meta : SkillMeta)
      → GoMap.get s.skills id ≡ some meta
      → meta.tenant_id ≡ t
      → delete below dir_path (some remains) t id s ≡ (err io_error, removed remains t id s)
  unfolding delete
  delete_own_broken remains t id s meta found own =
      let same : (meta.tenant_id == t) ≡ true = (eq_iff meta.tenant_id t).1 own in
      rw (found, delete) (rw (same, delete) refl)

  -- A deletion changes nothing, or takes the skill out and removes files below its directory.
  pub delete_effect :
      (failure : Option (String → Bool)) (t id : String) (s : LiteSkillStore)
      → ((delete below dir_path failure t id s).1 ≡ s)
        ⊎ ((remains : String → Bool) × ((delete below dir_path failure t id s).1
              ≡ removed remains t id s))
  delete_effect failure t id s = elim (Option-cases (GoMap.get s.skills id)) [
    | inl absent ↦ inl (ap (λ o. o.1) (delete_missing failure t id s absent))
    | inr (meta, found) ↦ elim (Bool-cases (meta.tenant_id == t)) [
      | inr other ↦ inl (
          ap (λ o. o.1)
            (delete_foreign failure t id s meta found
              (λ e. cc (other, (eq_iff meta.tenant_id t).1 e))))
      | inl same ↦ effect failure meta found ((eq_iff meta.tenant_id t).0 same)
    ]
  ]
    where
      effect :
          (f : Option (String → Bool)) (meta : SkillMeta)
          → GoMap.get s.skills id ≡ some meta
          → meta.tenant_id ≡ t
          → ((delete below dir_path f t id s).1 ≡ s)
            ⊎ ((remains : String → Bool) × ((delete below dir_path f t id s).1
                  ≡ removed remains t id s))
      effect none meta found own =
          inr (λ p. false, ap (λ o. o.1) (delete_own t id s meta found own))
      effect (some remains) meta found own =
          inr (remains, ap (λ o. o.1) (delete_own_broken remains t id s meta found own))

  -- What a `Delete` leaves, by its reply.
  abbrev pub DeleteOutcome :
      String → String → LiteSkillStore → Result SkillError (Unit {0}) × LiteSkillStore → Type 0
  DeleteOutcome t id s (err skill_not_found, after) =
      (after ≡ s) × ((meta : SkillMeta) → GoMap.get s.skills id ≡ some meta → meta.tenant_id ≢ t)
  DeleteOutcome t id s (reply, after) =
      ((meta : SkillMeta) × (GoMap.get s.skills id ≡ some meta) × (meta.tenant_id ≡ t))
      × ((j : String) → GoMap.get after.skills j ≡ (if id == j then none else GoMap.get s.skills j))

  -- `Delete` takes the skill out if the tenant has it, even when its files cannot be removed, and no
  -- other skill; otherwise it fails with `ErrSkillNotFound` and changes nothing.
  pub delete_outcome :
      (failure : Option (String → Bool)) (t id : String) (s : LiteSkillStore)
      → DeleteOutcome t id s (delete below dir_path failure t id s)
  delete_outcome failure t id s = elim (Option-cases (GoMap.get s.skills id)) [
    | inl absent ↦
        subst (DeleteOutcome t id s) (sym (delete_missing failure t id s absent))
          (refl, λ meta found. absurd (cc))
    | inr (meta, found) ↦ elim (Bool-cases (meta.tenant_id == t)) [
      | inr other ↦
          let foreign : meta.tenant_id ≢ t = λ e. cc (other, (eq_iff meta.tenant_id t).1 e) in
          subst (DeleteOutcome t id s) (sym (delete_foreign failure t id s meta found foreign)) (
            refl,
            λ m at. subst (λ (x : SkillMeta). x.tenant_id ≢ t) (same_meta meta m found at) foreign,
          )
      | inl same ↦ own failure meta found ((eq_iff meta.tenant_id t).0 same)
    ]
  ]
    where
      same_meta :
          (a b : SkillMeta)
          → GoMap.get s.skills id ≡ some a
          → GoMap.get s.skills id ≡ some b
          → a ≡ b
      same_meta a b at_a at_b = cc (at_a, at_b)

      own :
          (f : Option (String → Bool)) (meta : SkillMeta)
          → GoMap.get s.skills id ≡ some meta
          → meta.tenant_id ≡ t
          → DeleteOutcome t id s (delete below dir_path f t id s)
      own none meta found mine =
          subst (DeleteOutcome t id s) (sym (delete_own t id s meta found mine))
            ((meta, found, mine), λ j. get-delete s.skills id j)
      own (some remains) meta found mine =
          subst (DeleteOutcome t id s) (sym (delete_own_broken remains t id s meta found mine))
            ((meta, found, mine), λ j. get-delete s.skills id j)
