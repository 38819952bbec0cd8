-- ===== src/Lite/AgentStore/Archive.antt =====
-- harness/lite/agent.go: archiving is final.
use openharness.Prelude.{
  ℕ, ◌+◌, ◌<◌, String, ◌≡◌, ap, ◌∙◌, none, some, List, arith, length, Option-cases, inl, inr,
}
use openharness.Prelude.Result.{ok, err}
use openharness.Prelude.GoMap
use openharness.Prelude.GoMap.{get-put_self}
use openharness.Prelude.Int64.{sign_bit, modulus}
use openharness.Harness.Errors.{archived}
use openharness.Harness.Types.{Time, AgentDefinition, AgentPatch}
use openharness.Lite.AgentStore
use openharness.Lite.AgentStore.{LiteAgentStore, retired}
use openharness.Lite.AgentStore.Invariant.{Op, run, IsValid, apply-IsValid}
use openharness.Lite.AgentStore.Evolution.{
  update_found_archived, archive_found_live, archive_found_archived,
}
use openharness.Lite.AgentStore.History.{run-Later, update_of_found}

archive_of_found :
    (now : Time) (id : String) (s : LiteAgentStore) (d : AgentDefinition)
    → GoMap.get s.agents id ≡ some d
    → AgentStore.archive now id s ≡ AgentStore.archive_found now id d s
unfolding AgentStore.archive
archive_of_found now id s d found = rw (found, AgentStore.archive)

archive_of_missing :
    (now : Time) (id : String) (s : LiteAgentStore)
    → GoMap.get s.agents id ≡ none
    → AgentStore.archive now id s ≡ (err AgentStore.not_found, s)
unfolding AgentStore.archive
archive_of_missing now id s missing = rw (missing, AgentStore.archive)

-- What a successful archiving has found and has stored.
record Archived (now : Time) (id : String) (s : LiteAgentStore) (d : AgentDefinition) : Type 0 where
  old : AgentDefinition
  found : GoMap.get s.agents id ≡ some old
  result : d ≡ retired now old
  stored : (AgentStore.archive now id s).1 ≡ record s { agents = GoMap.put s.agents id d }

archive_succeeds :
    (now : Time) (id : String) (s : LiteAgentStore) {d : AgentDefinition}
    → (AgentStore.archive now id s).0 ≡ ok d
    → Archived now id s d
archive_succeeds now id s {d} done = elim (Option-cases (GoMap.get s.agents id)) [
  | inl missing ↦ absurd (cc (archive_of_missing now id s missing))
  | inr (old, found) ↦ elim (Option-cases old.archived_at) [
    | inl live ↦ record {
      old = old;
      found = found;
      result = cc (archive_of_found now id s old found, archive_found_live now id s old live);
      stored = cc (archive_of_found now id s old found, archive_found_live now id s old live);
    }
    | inr (t, gone) ↦
        absurd
          (cc (archive_of_found now id s old found, archive_found_archived now id s old t gone))
  ]
]

-- Once an agent is archived, whatever operations follow, the store holds it exactly as `Archive`
-- returned it, and every later update or archiving of it is refused with `ErrArchived`.
pub archive_is_final :
    (ops : List Op) (s : LiteAgentStore) (id : String) (version : ℕ) (now now' : Time)
    (patch : AgentPatch) {d : AgentDefinition}
    → IsValid s
    → s.counter + length ops + 1 < sign_bit
    → d.version + length ops < modulus
    → (AgentStore.archive now id s).0 ≡ ok d
    → let after = run ops (AgentStore.archive now id s).1 in
      (GoMap.get after.agents id ≡ some d)
      × ((AgentStore.update now' id version patch after).0 ≡ err archived)
      × ((AgentStore.archive now' id after).0 ≡ err archived)
unfolding retired
archive_is_final ops s id version now now' patch {d} v room bits done =
    let a = archive_succeeds now id s done in
    let after = (AgentStore.archive now id s).1 in
    let (e, at_e, step) =
      run-Later ops after id d (apply-IsValid (Op.archive now id) s v (omega arith))
        (rw a.stored (omega arith)) (rw a.stored (get-put_self s.agents id d)) bits in
    let gone : d.archived_at ≡ some now = ap (λ (x : AgentDefinition). x.archived_at) a.result in
    let at_d : GoMap.get (run ops after).agents id ≡ some d =
      at_e ∙ ap (λ (x : AgentDefinition). some x) (step.frozen now gone) in
    (
      at_d,
      cc (
        update_of_found now' id version patch (run ops after) d at_d,
        update_found_archived now' id version patch (run ops after) d now gone,
      ),
      cc (
        archive_of_found now' id (run ops after) d at_d,
        archive_found_archived now' id (run ops after) d now gone,
      ),
    )
