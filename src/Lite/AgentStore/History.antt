-- ===== src/Lite/AgentStore/History.antt =====
-- harness/lite/agent.go: what holds along every history of operations on one agent.
use mathlib.Core.Path.{subst}
use openharness.Prelude.{
  ℕ, ◌+◌, ◌<◌, ◌≤◌, String, ◌≡◌, ap, none, some, List, [], ◌∷◌, arith, length, Bool-cases,
  Option-cases, ◌⊎◌, inl, inr, eqb,
}
use openharness.Prelude.Result.{ok, err}
use openharness.Prelude.GoMap
use openharness.Prelude.GoMap.{GoMap, get-put_self}
use openharness.Prelude.Int64.{sign_bit, modulus, inc}
use openharness.Harness.Errors.{HarnessError, not_found, conflict, archived}
use openharness.Harness.Types.{Time, AgentDefinition, AgentPatch}
use openharness.Lite.AgentStore
use openharness.Lite.AgentStore.{LiteAgentStore, agent_id, updated, update_found, archive_found}
use openharness.Lite.AgentStore.Invariant.{Op, apply, run, IsValid, next_id-fresh, apply-IsValid}
use openharness.Lite.AgentStore.Evolution.{
  Evolves, Evolves-refl, Evolves-trans, Later, fresh-Later, update_found-Later, archive_found-Later,
  update_found_live, update_found_stale, update_found_archived,
}

apply-Later :
    (op : Op) (s : LiteAgentStore) (id : String) (d : AgentDefinition)
    → IsValid s
    → s.counter + 1 < sign_bit
    → GoMap.get s.agents id ≡ some d
    → d.version + 1 < modulus
    → Later 1 (apply op s).1 id d
unfolding AgentStore.create AgentStore.update AgentStore.archive AgentStore.clone
apply-Later (Op.create now tenant_id def) s id d v room found bits =
    fresh-Later s (agent_id (inc s.counter)) _ (inc s.counter) id d (next_id-fresh s v room) found
apply-Later (Op.update now k version patch) s id d v room found bits =
    elim (Option-cases (GoMap.get s.agents k)) [
      | inl missing ↦ rw (missing, AgentStore.update) (d, found, Evolves-refl 1 d)
      | inr (old, at_k) ↦
          rw (at_k, AgentStore.update)
            (update_found-Later s k old id d at_k found now version patch bits)
    ]
apply-Later (Op.archive now k) s id d v room found bits =
    elim (Option-cases (GoMap.get s.agents k)) [
      | inl missing ↦ rw (missing, AgentStore.archive) (d, found, Evolves-refl 1 d)
      | inr (old, at_k) ↦
          rw (at_k, AgentStore.archive) (archive_found-Later s k old id d at_k found now)
    ]
apply-Later (Op.clone now k new_name) s id d v room found bits =
    elim (Option-cases (GoMap.get s.agents k)) [
      | inl missing ↦ rw (missing, AgentStore.clone) (d, found, Evolves-refl 1 d)
      | inr (src, at_k) ↦
          rw (at_k, AgentStore.clone)
            (fresh-Later s (agent_id (inc s.counter)) _ (inc s.counter) id d
              (next_id-fresh s v room) found)
    ]

-- An operation takes at most one number from the counter.
apply-counter :
    (op : Op) (s : LiteAgentStore)
    → s.counter + 1 < sign_bit
    → (apply op s).1.counter ≤ s.counter + 1
unfolding AgentStore.create AgentStore.update AgentStore.archive AgentStore.clone
apply-counter (Op.create now tenant_id def) s room = ground arith
apply-counter (Op.update now k version patch) s room = ground arith
apply-counter (Op.archive now k) s room = ground arith
apply-counter (Op.clone now k new_name) s room = ground arith

pub run-IsValid :
    (ops : List Op) (s : LiteAgentStore)
    → IsValid s
    → s.counter + length ops < sign_bit
    → IsValid (run ops s)
unfolding run
run-IsValid [] s v room = v
run-IsValid (op ∷ ops) s v room =
    run-IsValid ops (apply op s).1 (apply-IsValid op s v (omega arith))
      (omega (arith, apply-counter op s (omega arith)))

-- Along any history a stored agent stays stored under its id, keeps its id, tenant and time of
-- creation, its version only grows, by at most one for each operation, and once archived it does not
-- change at all.
pub run-Later :
    (ops : List Op) (s : LiteAgentStore) (id : String) (d : AgentDefinition)
    → IsValid s
    → s.counter + length ops < sign_bit
    → GoMap.get s.agents id ≡ some d
    → d.version + length ops < modulus
    → Later (length ops) (run ops s) id d
unfolding run
run-Later [] s id d v room found bits = (d, found, Evolves-refl 0 d)
run-Later (op ∷ ops) s id d v room found bits =
    let (e, at_e, step) = apply-Later op s id d v (omega arith) found (omega arith) in
    let (f, at_f, rest) =
      run-Later ops (apply op s).1 id e (apply-IsValid op s v (omega arith))
        (omega (arith, apply-counter op s (omega arith))) at_e
        (omega (arith, step.version_bounded)) in
    (f, at_f, subst (λ (n : ℕ). Evolves n d f) (omega arith) (Evolves-trans step rest))

-- A failed operation leaves the store as it was.
pub error-apply :
    (op : Op) (s : LiteAgentStore) {e : HarnessError} → (apply op s).0 ≡ err e → (apply op s).1 ≡ s
unfolding AgentStore.create AgentStore.update AgentStore.archive AgentStore.clone
error-apply (Op.create now tenant_id def) s h = ground arith
error-apply (Op.update now k version patch) s h = ground arith
error-apply (Op.archive now k) s h = ground arith
error-apply (Op.clone now k new_name) s h = ground arith

-- The update of a stored agent is the part behind the lookup.
pub update_of_found :
    (now : Time) (id : String) (version : ℕ) (patch : AgentPatch) (s : LiteAgentStore)
    (d : AgentDefinition)
    → GoMap.get s.agents id ≡ some d
    → AgentStore.update now id version patch s ≡ update_found now id version patch d s
unfolding AgentStore.update
update_of_found now id version patch s d found = rw (found, AgentStore.update)

update_of_missing :
    (now : Time) (id : String) (version : ℕ) (patch : AgentPatch) (s : LiteAgentStore)
    → GoMap.get s.agents id ≡ none
    → AgentStore.update now id version patch s ≡ (err not_found, s)
unfolding AgentStore.update
update_of_missing now id version patch s missing = rw (missing, AgentStore.update)

-- What a successful update has found and has stored.
pub record Updated (now : Time) (id : String) (version : ℕ) (patch : AgentPatch)
    (s : LiteAgentStore) (d : AgentDefinition) : Type 0 where
  pub old : AgentDefinition
  pub found : GoMap.get s.agents id ≡ some old
  pub live : old.archived_at ≡ none
  pub expected : old.version ≡ version
  pub result : d ≡ updated now patch old
  pub stored :
      (AgentStore.update now id version patch s).1 ≡ record s { agents = GoMap.put s.agents id d }

-- An update succeeds only on a stored, live agent at the expected version, and then it stores the
-- patched agent under the same id, at the next version.
pub update_succeeds :
    (now : Time) (id : String) (version : ℕ) (patch : AgentPatch) (s : LiteAgentStore)
    {d : AgentDefinition}
    → (AgentStore.update now id version patch s).0 ≡ ok d
    → Updated now id version patch s d
update_succeeds now id version patch s {d} done = elim (Option-cases (GoMap.get s.agents id)) [
  | inl missing ↦ absurd (cc (update_of_missing now id version patch s missing))
  | inr (old, found) ↦ elim (Option-cases old.archived_at) [
    | inl live ↦ elim (Bool-cases (eqb old.version version)) [
      | inl same ↦
          let result : d ≡ updated now patch old = cc (
            update_of_found now id version patch s old found,
            update_found_live now id version patch s old live same,
          ) in
          record {
            old = old;
            found = found;
            live = live;
            expected = ground arith;
            result = result;
            stored = cc (
              update_of_found now id version patch s old found,
              update_found_live now id version patch s old live same,
            );
          }
      | inr stale ↦ absurd (
          cc (
            update_of_found now id version patch s old found,
            update_found_stale now id version patch s old live stale,
          ))
    ]
    | inr (t, gone) ↦ absurd (
        cc (
          update_of_found now id version patch s old found,
          update_found_archived now id version patch s old t gone,
        ))
  ]
]

-- An update that expects a version which the stored agent has left behind.
update-refused :
    (now : Time) (id : String) (version : ℕ) (patch : AgentPatch) (s : LiteAgentStore)
    (d : AgentDefinition)
    → GoMap.get s.agents id ≡ some d
    → version < d.version
    → ((AgentStore.update now id version patch s).0 ≡ err conflict)
      ⊎ ((AgentStore.update now id version patch s).0 ≡ err archived)
update-refused now id version patch s d found behind = elim (Option-cases d.archived_at) [
  | inl live ↦ inl (
      cc (
        update_of_found now id version patch s d found,
        update_found_stale now id version patch s d live (ground arith),
      ))
  | inr (t, gone) ↦ inr (
      cc (
        update_of_found now id version patch s d found,
        update_found_archived now id version patch s d t gone,
      ))
]

-- A version that one update has used is stale for good: whatever operations come between, a second
-- update that expects it is refused, because of its version or because the agent is archived.
pub stale_update :
    (ops : List Op) (s : LiteAgentStore) (id : String) (version : ℕ) (now now' : Time)
    (patch patch' : AgentPatch) {d : AgentDefinition}
    → IsValid s
    → s.counter + length ops + 1 < sign_bit
    → version + length ops + 1 < modulus
    → (AgentStore.update now id version patch s).0 ≡ ok d
    → let after = run ops (AgentStore.update now id version patch s).1 in
      ((AgentStore.update now' id version patch' after).0 ≡ err conflict)
      ⊎ ((AgentStore.update now' id version patch' after).0 ≡ err archived)
unfolding updated
stale_update ops s id version now now' patch patch' {d} v room bits done =
    let u = update_succeeds now id version patch s done in
    let after = (AgentStore.update now id version patch s).1 in
    let (e, at_e, step) =
      run-Later ops after id d (apply-IsValid (Op.update now id version patch) s v (omega arith))
        (rw u.stored (omega arith)) (rw u.stored (get-put_self s.agents id d))
        (rw u.result (omega (arith, u.expected))) in
    update-refused now' id version patch' (run ops after) e at_e (
      omega
        (arith, step.version_grows, u.expected, ap (λ (x : AgentDefinition). x.version) u.result))
