-- ===== src/Lite/AgentStore/Evolution.antt =====
-- harness/lite/agent.go: how a stored agent changes along a history of operations.
use mathlib.Core.Path.{subst}
use openharness.Prelude.{
  ℕ, ◌+◌, ◌<◌, ◌≤◌, String, ◌≡◌, refl, ◌≢◌, ap, sym, ◌∙◌, none, some, arith, eq_iff, Bool-cases,
  Option-cases, inl, inr, eqb, ◌==◌, true, false,
}
use openharness.Prelude.Result.{ok, err}
use openharness.Prelude.GoMap
use openharness.Prelude.GoMap.{GoMap, get-put, get-put_ne, get-put_self}
use openharness.Prelude.Int64.{modulus}
use openharness.Harness.Errors.{conflict, archived}
use openharness.Harness.Types.{Time, AgentDefinition, AgentPatch}
use openharness.Lite.AgentStore.{LiteAgentStore, updated, retired, update_found, archive_found}

-- `d'` is what `d` may have become after at most `n` operations.
pub record Evolves (n : ℕ) (d d' : AgentDefinition) : Type 0 where
  pub id_kept : d'.id ≡ d.id
  pub tenant_kept : d'.tenant_id ≡ d.tenant_id
  pub created_kept : d'.created_at ≡ d.created_at
  pub version_grows : d.version ≤ d'.version
  pub version_bounded : d'.version ≤ d.version + n
  pub frozen : (t : Time) → d.archived_at ≡ some t → d' ≡ d

pub Evolves-refl : (n : ℕ) (d : AgentDefinition) → Evolves n d d
Evolves-refl n d = record {
  id_kept = refl;
  tenant_kept = refl;
  created_kept = refl;
  version_grows = omega arith;
  version_bounded = omega arith;
  frozen = λ t h. refl;
}

pub Evolves-trans :
    {m n : ℕ} {d e f : AgentDefinition} → Evolves m d e → Evolves n e f → Evolves (m + n) d f
Evolves-trans p q = record {
  id_kept = q.id_kept ∙ p.id_kept;
  tenant_kept = q.tenant_kept ∙ p.tenant_kept;
  created_kept = q.created_kept ∙ p.created_kept;
  version_grows = omega (arith, p.version_grows, q.version_grows);
  version_bounded = omega (arith, p.version_bounded, q.version_bounded);
  frozen = λ t h.
      let same = p.frozen t h in
      q.frozen t (ap (λ (x : AgentDefinition). x.archived_at) same ∙ h) ∙ same;
}

-- The agent `d` under `id` is still there in `s`, changed by at most `n` operations.
abbrev pub Later : ℕ → LiteAgentStore → String → AgentDefinition → Type 0
Later n s id d = (d' : AgentDefinition) × (GoMap.get s.agents id ≡ some d') × Evolves n d d'

-- A put under an id that is free leaves `d` alone.
pub fresh-Later :
    (s : LiteAgentStore) (k : String) (new : AgentDefinition) (c : ℕ) (id : String)
    (d : AgentDefinition)
    → GoMap.get s.agents k ≡ none
    → GoMap.get s.agents id ≡ some d
    → Later 1 (record { agents = GoMap.put s.agents k new; counter = c }) id d
fresh-Later s k new c id d free found =
    (d, get-put_ne s.agents k id new other ∙ found, Evolves-refl 1 d)
  where
    other : k ≢ id
    other e = ground (arith, ap (GoMap.get s.agents) e)

-- A put that takes one stored agent a step further.
rewrite-Later :
    (s : LiteAgentStore) (k : String) (old new : AgentDefinition) (id : String)
    (d : AgentDefinition)
    → GoMap.get s.agents k ≡ some old
    → GoMap.get s.agents id ≡ some d
    → (old ≡ d → Evolves 1 old new)
    → Later 1 (record s { agents = GoMap.put s.agents k new }) id d
rewrite-Later s k old new id d at_k found step = elim (Bool-cases (k == id)) [
  | inl same ↦
      let e : k ≡ id = (eq_iff k id).0 same in
      let same_agent : old ≡ d = ground (arith, ap (GoMap.get s.agents) e) in
      (
        new,
        ap (GoMap.get (GoMap.put s.agents k new)) (sym e) ∙ get-put_self s.agents k new,
        subst (λ (x : AgentDefinition). Evolves 1 x new) same_agent (step same_agent),
      )
  | inr differ ↦ (
    d,
    get-put_ne s.agents k id new (λ e. ground (arith, (eq_iff k id).1 e)) ∙ found,
    Evolves-refl 1 d,
  )
]

pub update_found_live :
    (now : Time) (k : String) (version : ℕ) (patch : AgentPatch) (s : LiteAgentStore)
    (old : AgentDefinition)
    → old.archived_at ≡ none
    → eqb old.version version ≡ true
    → update_found now k version patch old s ≡ (
      ok (updated now patch old),
      record s { agents = GoMap.put s.agents k (updated now patch old) },
    )
unfolding update_found
update_found_live now k version patch s old live same = ground arith

pub update_found_stale :
    (now : Time) (k : String) (version : ℕ) (patch : AgentPatch) (s : LiteAgentStore)
    (old : AgentDefinition)
    → old.archived_at ≡ none
    → eqb old.version version ≡ false
    → update_found now k version patch old s ≡ (err conflict, s)
unfolding update_found
update_found_stale now k version patch s old live stale = ground arith

pub update_found_archived :
    (now : Time) (k : String) (version : ℕ) (patch : AgentPatch) (s : LiteAgentStore)
    (old : AgentDefinition) (t : Time)
    → old.archived_at ≡ some t
    → update_found now k version patch old s ≡ (err archived, s)
unfolding update_found
update_found_archived now k version patch s old t gone = ground arith

pub archive_found_live :
    (now : Time) (k : String) (s : LiteAgentStore) (old : AgentDefinition)
    → old.archived_at ≡ none
    → archive_found now k old s
      ≡ (ok (retired now old), record s { agents = GoMap.put s.agents k (retired now old) })
unfolding archive_found
archive_found_live now k s old live = ground arith

pub archive_found_archived :
    (now : Time) (k : String) (s : LiteAgentStore) (old : AgentDefinition) (t : Time)
    → old.archived_at ≡ some t
    → archive_found now k old s ≡ (err archived, s)
unfolding archive_found
archive_found_archived now k s old t gone = ground arith

updated-Evolves :
    (now : Time) (patch : AgentPatch) (d : AgentDefinition)
    → d.archived_at ≡ none
    → d.version + 1 < modulus
    → Evolves 1 d (updated now patch d)
unfolding updated
updated-Evolves now patch d live room = record {
  id_kept = refl;
  tenant_kept = refl;
  created_kept = refl;
  version_grows = omega arith;
  version_bounded = omega arith;
  frozen = λ t h. absurd (ground arith);
}

retired-Evolves :
    (now : Time) (d : AgentDefinition) → d.archived_at ≡ none → Evolves 1 d (retired now d)
unfolding retired
retired-Evolves now d live = record {
  id_kept = refl;
  tenant_kept = refl;
  created_kept = refl;
  version_grows = omega arith;
  version_bounded = omega arith;
  frozen = λ t h. absurd (ground arith);
}

module _ (s : LiteAgentStore) (k : String) (old : AgentDefinition) (id : String)
    (d : AgentDefinition) (at_k : GoMap.get s.agents k ≡ some old)
    (found : GoMap.get s.agents id ≡ some d) where
  pub update_found-Later :
      (now : Time) (version : ℕ) (patch : AgentPatch)
      → d.version + 1 < modulus
      → Later 1 (update_found now k version patch old s).1 id d
  update_found-Later now version patch room = elim (Option-cases old.archived_at) [
    | inl live ↦ elim (Bool-cases (eqb old.version version)) [
      | inl same ↦ rw (update_found_live now k version patch s old live same) (
          rewrite-Later s k old (updated now patch old) id d at_k found (λ e.
            updated-Evolves now patch old live
              (subst (λ (x : AgentDefinition). x.version + 1 < modulus) (sym e) room)))
      | inr stale ↦
          rw (update_found_stale now k version patch s old live stale) (d, found, Evolves-refl 1 d)
    ]
    | inr (t, gone) ↦
        rw (update_found_archived now k version patch s old t gone) (d, found, Evolves-refl 1 d)
  ]

  pub archive_found-Later : (now : Time) → Later 1 (archive_found now k old s).1 id d
  archive_found-Later now = elim (Option-cases old.archived_at) [
    | inl live ↦ rw (archive_found_live now k s old live) (
        rewrite-Later s k old (retired now old) id d at_k found (λ e. retired-Evolves now old live))
    | inr (t, gone) ↦ rw (archive_found_archived now k s old t gone) (d, found, Evolves-refl 1 d)
  ]
