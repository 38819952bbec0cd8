-- ===== src/Lite/AgentStore/Creation.antt =====
-- harness/lite/agent.go: what `Create` and `Clone` add to the store.
use openharness.Prelude.{ℕ, ◌+◌, ◌<◌, String, ◌≡◌, ◌≢◌, refl, ap, ◌∙◌, none, some, arith}
use openharness.Prelude.Result.{ok}
use openharness.Prelude.GoMap
use openharness.Prelude.GoMap.{get-put_self, get-put_ne}
use openharness.Prelude.Int64.{sign_bit, inc}
use openharness.Harness.Types.{Time, AgentDefinition}
use openharness.Lite.AgentStore
use openharness.Lite.AgentStore.{LiteAgentStore, agent_id}
use openharness.Lite.AgentStore.Invariant.{IsValid, next_id-fresh}

-- `after` is `s` with the agent `d` added under its id, which `s` does not use.
pub record Adds (s after : LiteAgentStore) (d : AgentDefinition) : Type 0 where
  pub unused : GoMap.get s.agents d.id ≡ none
  pub added : GoMap.get after.agents d.id ≡ some d
  pub others : (k : String) → d.id ≢ k → GoMap.get after.agents k ≡ GoMap.get s.agents k
  pub initial : d.version ≡ 1
  pub live : d.archived_at ≡ none

put-Adds :
    (s : LiteAgentStore) (c : ℕ) (d : AgentDefinition)
    → GoMap.get s.agents d.id ≡ none
    → d.version ≡ 1
    → d.archived_at ≡ none
    → Adds s (record { agents = GoMap.put s.agents d.id d; counter = c }) d
put-Adds s c d unused initial live = record {
  unused = unused;
  added = get-put_self s.agents d.id d;
  others = λ k ne. get-put_ne s.agents d.id k d ne;
  initial = initial;
  live = live;
}

-- `Create` always succeeds: it adds the definition under an unused id, as version 1 of the tenant,
-- live and with both times now, and changes no other agent.
pub create-Adds :
    (now : Time) (tenant_id : String) (def : AgentDefinition) (s : LiteAgentStore)
    → IsValid s
    → s.counter + 1 < sign_bit
    → (d : AgentDefinition) × ((AgentStore.create now tenant_id def s).0 ≡ ok d)
      × Adds s (AgentStore.create now tenant_id def s).1 d
      × (d ≡ record def {
        id = d.id;
        tenant_id = tenant_id;
        version = 1;
        created_at = now;
        updated_at = now;
        archived_at = none;
      })
unfolding AgentStore.create
create-Adds now tenant_id def s v room = (
  record def {
    id = agent_id (inc s.counter);
    tenant_id = tenant_id;
    version = 1;
    created_at = now;
    updated_at = now;
    archived_at = none;
  },
  refl,
  put-Adds s (inc s.counter) _ (next_id-fresh s v room) refl refl,
  refl,
)

-- A clone of a stored agent, live or archived, is a new live agent at version 1 that agrees with its
-- source in all but id, name, version and times; the source and every other agent stay as they are.
pub clone-Adds :
    (now : Time) (id new_name : String) (s : LiteAgentStore) {src : AgentDefinition}
    → IsValid s
    → s.counter + 1 < sign_bit
    → GoMap.get s.agents id ≡ some src
    → (d : AgentDefinition) × ((AgentStore.clone now id new_name s).0 ≡ ok d)
      × Adds s (AgentStore.clone now id new_name s).1 d
      × (GoMap.get (AgentStore.clone now id new_name s).1.agents id ≡ some src)
      × (d ≡ record src {
        id = d.id;
        name = new_name;
        version = 1;
        created_at = now;
        updated_at = now;
        archived_at = none;
      })
unfolding AgentStore.clone
clone-Adds now id new_name s {src} v room found =
    let d : AgentDefinition = record src {
      id = agent_id (inc s.counter);
      name = new_name;
      version = 1;
      created_at = now;
      updated_at = now;
      archived_at = none;
    } in
    let adds = put-Adds s (inc s.counter) d (next_id-fresh s v room) refl refl in
    rw (found, AgentStore.clone)
      (
        d,
        refl,
        adds,
        adds.others id (λ e. ground (arith, adds.unused, ap (GoMap.get s.agents) e)) ∙ found,
        refl,
      )
