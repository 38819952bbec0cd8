-- ===== src/Lite/AgentStore/Tests.antt =====
-- harness/lite/agent.go: runs of the agent store, and its theorems at concrete inputs.
use openharness.Prelude.{◌≡◌, refl, ◌⊎◌, none, some, List, [], ◌∷◌, arith}
use openharness.Prelude.Result.{ok, err}
use openharness.Prelude.GoMap
use openharness.Prelude.GoMap.{IsRange}
use openharness.Harness.Errors.{conflict, archived}
use openharness.Harness.Types.{AgentDefinition, AgentPatch, ListOpts}
use openharness.Lite.AgentStore
use openharness.Lite.AgentStore.{LiteAgentStore, new_lite_agent_store, seed, filtered}
use openharness.Lite.AgentStore.Invariant.{Op, apply, run, IsValid, IsValid-new, apply-IsValid}
use openharness.Lite.AgentStore.History.{stale_update}
use openharness.Lite.AgentStore.Archive.{archive_is_final}
use openharness.Lite.AgentStore.Creation.{Adds, create-Adds}

abbrev no_patch : AgentPatch
no_patch = record {
  name = some "renamed";
  description = none;
  model = none;
  harness_version = none;
  system_prompt = none;
  persona = none;
  tools = none;
  skills = none;
  autonomy = none;
  metadata = none;
}

abbrev draft : AgentDefinition
draft = seed "a" "open"

-- one agent, "agent-1", of tenant "t"
abbrev one : LiteAgentStore
one = (apply (Op.create 5 "t" draft) new_lite_agent_store).1

abbrev stored : AgentDefinition
stored = record draft {
  id = "agent-1";
  tenant_id = "t";
  version = 1;
  created_at = 5;
  updated_at = 5;
}

one_counter : one.counter ≡ 1
unfolding AgentStore.create new_lite_agent_store
one_counter = refl

one_found : GoMap.get one.agents "agent-1" ≡ some stored
unfolding AgentStore.create new_lite_agent_store GoMap.get GoMap.put AgentStore.agent_id
one_found = refl

one-IsValid : IsValid one
unfolding new_lite_agent_store
one-IsValid = apply-IsValid (Op.create 5 "t" draft) new_lite_agent_store IsValid-new (omega arith)

abbrev renamings : List Op
renamings = Op.update 6 "agent-1" 1 no_patch ∷ Op.clone 7 "agent-1" "b" ∷ []

abbrev bumped : AgentDefinition
bumped = record stored { name = "renamed"; version = 2; updated_at = 6 }

one_updated : (AgentStore.update 6 "agent-1" 1 no_patch one).0 ≡ ok bumped
unfolding AgentStore.update AgentStore.create new_lite_agent_store GoMap.get GoMap.put
    AgentStore.agent_id
one_updated = refl

stale_update_example :
    let after = run renamings (AgentStore.update 6 "agent-1" 1 no_patch one).1 in
    ((AgentStore.update 9 "agent-1" 1 no_patch after).0 ≡ err conflict)
    ⊎ ((AgentStore.update 9 "agent-1" 1 no_patch after).0 ≡ err archived)
stale_update_example =
    stale_update renamings one "agent-1" 1 6 9 no_patch no_patch one-IsValid
      (omega (arith, one_counter)) (omega arith) one_updated

abbrev put_away : AgentDefinition
put_away = record stored { updated_at = 8; archived_at = some 8 }

one_archived : (AgentStore.archive 8 "agent-1" one).0 ≡ ok put_away
unfolding AgentStore.archive AgentStore.create new_lite_agent_store GoMap.get GoMap.put
    AgentStore.agent_id
one_archived = refl

archive_is_final_example :
    let after = run renamings (AgentStore.archive 8 "agent-1" one).1 in
    (GoMap.get after.agents "agent-1" ≡ some put_away)
    × ((AgentStore.update 9 "agent-1" 1 no_patch after).0 ≡ err archived)
    × ((AgentStore.archive 9 "agent-1" after).0 ≡ err archived)
archive_is_final_example =
    archive_is_final renamings one "agent-1" 1 8 9 no_patch one-IsValid (omega (arith, one_counter))
      (omega arith) one_archived

create-Adds_example :
    (d : AgentDefinition) × ((AgentStore.create 9 "u" draft one).0 ≡ ok d)
    × Adds one (AgentStore.create 9 "u" draft one).1 d
    × (d ≡ record draft {
      id = d.id;
      tenant_id = "u";
      version = 1;
      created_at = 9;
      updated_at = 9;
      archived_at = none;
    })
create-Adds_example = create-Adds 9 "u" draft one one-IsValid (omega (arith, one_counter))

abbrev everything : ListOpts
everything = record { limit = 0; offset = 0; status = "" }

one-IsRange : IsRange one.agents (("agent-1", stored) ∷ [])
unfolding AgentStore.create new_lite_agent_store GoMap.get GoMap.put GoMap.find AgentStore.agent_id
one-IsRange = record { same = λ k. refl; distinct = (refl, tt) }

abbrev second_page : ListOpts
second_page = record { limit = 1; offset = 1; status = "" }
