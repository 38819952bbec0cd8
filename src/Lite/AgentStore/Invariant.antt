-- ===== src/Lite/AgentStore/Invariant.antt =====
-- harness/lite/agent.go: what every operation of the agent store keeps.
use openharness.Prelude.{
  ℕ, ◌+◌, ◌<◌, ◌≤◌, String, ◌≡◌, refl, ◌∙◌, none, some, List, [], ◌∷◌, arith, Bool-cases, inl, inr,
  Option-cases, ◌⊎◌, eqb,
}
use mathlib.Core.Path.{subst}
use openharness.Prelude.GoMap
use openharness.Prelude.GoMap.{GoMap, get-put_cases, get-empty}
use openharness.Prelude.Int64.{sign_bit, modulus, inc}
use openharness.Prelude.Decimal.{numbered-injective}
use openharness.Harness.Types.{Time, AgentDefinition, AgentPatch}
use openharness.Lite.AgentStore
use openharness.Lite.AgentStore.{
  LiteAgentStore, Reply, new_lite_agent_store, agent_id, update_found, archive_found, clone_found,
}

-- One call of an operation that may change the store, with the clock that it reads.
pub data Op : Type 0 where
  create : Time → String → AgentDefinition → Op
  update : Time → String → ℕ → AgentPatch → Op
  archive : Time → String → Op
  clone : Time → String → String → Op

abbrev pub apply : Op → LiteAgentStore → Reply
apply (Op.create now tenant_id def) = AgentStore.create now tenant_id def
apply (Op.update now id version patch) = AgentStore.update now id version patch
apply (Op.archive now id) = AgentStore.archive now id
apply (Op.clone now id new_name) = AgentStore.clone now id new_name

-- A history: the operations in the order in which they took the lock.
unfoldable pub run : List Op → LiteAgentStore → LiteAgentStore
run [] s = s
run (op ∷ ops) s = run ops (apply op s).1

-- An agent stands under its own id, which is one that the counter `c` has given out.
pub record Entry (c : ℕ) (k : String) (d : AgentDefinition) : Type 0 where
  pub own : d.id ≡ k
  pub serial : ℕ
  pub numbered : k ≡ agent_id serial
  pub given : serial ≤ c
  pub version_bits : d.version < modulus

pub record IsValid (s : LiteAgentStore) : Type 0 where
  pub counter_room : s.counter < sign_bit
  pub entry :
      (k : String) (d : AgentDefinition) → GoMap.get s.agents k ≡ some d → Entry s.counter k d

pub IsValid-new : IsValid new_lite_agent_store
unfolding new_lite_agent_store
IsValid-new = record {
  counter_room = omega arith;
  entry = λ k d h. absurd (ground (arith, get-empty {V = AgentDefinition} k));
}

later-Entry : {c c' : ℕ} {k : String} {d : AgentDefinition} → c ≤ c' → Entry c k d → Entry c' k d
later-Entry le e = record {
  own = e.own;
  serial = e.serial;
  numbered = e.numbered;
  given = omega (arith, e.given);
  version_bits = e.version_bits;
}

-- Every operation that writes puts one agent under its own id.
put-IsValid :
    (s : LiteAgentStore) (k : String) (d : AgentDefinition) (c : ℕ)
    → IsValid s
    → s.counter ≤ c
    → c < sign_bit
    → Entry c k d
    → IsValid (record { agents = GoMap.put s.agents k d; counter = c })
put-IsValid s k d c v le room e = record {
  counter_room = room;
  entry = λ j d' h. elim (get-put_cases s.agents k j d h) [
    | inl (same, written) ↦
        subst (λ (x : AgentDefinition). Entry c j x) written
          (subst (λ (i : String). Entry c i d) same e)
    | inr (other, old) ↦ later-Entry le (v.entry j d' old)
  ];
}

-- The next id is not in use.
pub next_id-fresh :
    (s : LiteAgentStore)
    → IsValid s
    → s.counter + 1 < sign_bit
    → GoMap.get s.agents (agent_id (inc s.counter)) ≡ none
unfolding agent_id
next_id-fresh s v room = elim (Option-cases (GoMap.get s.agents (agent_id (inc s.counter)))) [
  | inl free ↦ free
  | inr (d, taken) ↦
      let e = v.entry (agent_id (inc s.counter)) d taken in
      absurd (
        omega (
          arith,
          e.given,
          numbered-injective "agent-" (inc s.counter) e.serial (omega arith)
              (omega (arith, e.given)) e.numbered,
        ))
]

create-IsValid :
    (now : Time) (tenant_id : String) (def : AgentDefinition) (s : LiteAgentStore)
    → IsValid s
    → s.counter + 1 < sign_bit
    → IsValid (AgentStore.create now tenant_id def s).1
unfolding AgentStore.create
create-IsValid now tenant_id def s v room =
    put-IsValid s (agent_id (inc s.counter)) _ (inc s.counter) v (omega arith) (omega arith)
      (record {
        own = refl;
        serial = inc s.counter;
        numbered = refl;
        given = omega arith;
        version_bits = omega arith;
      })

clone-IsValid :
    (now : Time) (id new_name : String) (s : LiteAgentStore)
    → IsValid s
    → s.counter + 1 < sign_bit
    → IsValid (AgentStore.clone now id new_name s).1
unfolding AgentStore.clone
clone-IsValid now id new_name s v room = elim (Option-cases (GoMap.get s.agents id)) [
  | inl missing ↦ rw (missing, AgentStore.clone) v
  | inr (src, found) ↦
      rw (found, AgentStore.clone)
        (put-IsValid s (agent_id (inc s.counter)) _ (inc s.counter) v (omega arith) (omega arith)
          (record {
            own = refl;
            serial = inc s.counter;
            numbered = refl;
            given = omega arith;
            version_bits = omega arith;
          }))
]

-- Rewriting a stored agent, with its id kept, is a put of an entry.
rewrite-IsValid :
    (s : LiteAgentStore) (id : String) (old new : AgentDefinition)
    → IsValid s
    → GoMap.get s.agents id ≡ some old
    → new.id ≡ old.id
    → new.version < modulus
    → IsValid (record s { agents = GoMap.put s.agents id new })
rewrite-IsValid s id old new v found same bits =
    let e = v.entry id old found in
    put-IsValid s id new s.counter v (omega arith) v.counter_room (record {
      own = same ∙ e.own;
      serial = e.serial;
      numbered = e.numbered;
      given = e.given;
      version_bits = bits;
    })

update-IsValid :
    (now : Time) (id : String) (version : ℕ) (patch : AgentPatch) (s : LiteAgentStore)
    → IsValid s
    → IsValid (AgentStore.update now id version patch s).1
unfolding AgentStore.update
update-IsValid now id version patch s v = elim (Option-cases (GoMap.get s.agents id)) [
  | inl missing ↦ rw (missing, AgentStore.update) v
  | inr (d, found) ↦ rw (found, AgentStore.update) (go d found (Option-cases d.archived_at))
]
  where
    go :
        (d : AgentDefinition)
        → GoMap.get s.agents id ≡ some d
        → (d.archived_at ≡ none) ⊎ ((t : Time) × (d.archived_at ≡ some t))
        → IsValid (update_found now id version patch d s).1
    go d found (inl live) = elim (Bool-cases (eqb d.version version)) [
      | inl same ↦
          rw (live, same, update_found) (rewrite-IsValid s id d _ v found refl (omega arith))
      | inr stale ↦ rw (live, stale, update_found) v
    ]
    go d found (inr (t, gone)) = rw gone v

archive-IsValid :
    (now : Time) (id : String) (s : LiteAgentStore)
    → IsValid s
    → IsValid (AgentStore.archive now id s).1
unfolding AgentStore.archive
archive-IsValid now id s v = elim (Option-cases (GoMap.get s.agents id)) [
  | inl missing ↦ rw (missing, AgentStore.archive) v
  | inr (d, found) ↦ rw (found, AgentStore.archive) (go d found (Option-cases d.archived_at))
]
  where
    go :
        (d : AgentDefinition)
        → GoMap.get s.agents id ≡ some d
        → (d.archived_at ≡ none) ⊎ ((t : Time) × (d.archived_at ≡ some t))
        → IsValid (archive_found now id d s).1
    go d found (inl live) =
        rw live (rewrite-IsValid s id d _ v found refl (v.entry id d found).version_bits)
    go d found (inr (t, gone)) = rw gone v

-- Every operation keeps the store valid, while the counter is not at the end of its range.
pub apply-IsValid :
    (op : Op) (s : LiteAgentStore) → IsValid s → s.counter + 1 < sign_bit → IsValid (apply op s).1
apply-IsValid (Op.create now tenant_id def) s v room = create-IsValid now tenant_id def s v room
apply-IsValid (Op.update now id version patch) s v room = update-IsValid now id version patch s v
apply-IsValid (Op.archive now id) s v room = archive-IsValid now id s v
apply-IsValid (Op.clone now id new_name) s v room = clone-IsValid now id new_name s v room
