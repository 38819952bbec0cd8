-- ===== src/Lite/AgentStore.antt =====
-- harness/lite/agent.go: the in-memory agent store. The clock is an argument of each operation that
-- reads it, and `List` takes what its `range` over the map visits. Every operation runs under the
-- store's lock, so that a concurrent history is a sequence of operations.
pub mod Invariant
pub mod Evolution
pub mod History
pub mod Archive
pub mod Creation
pub mod Listing
mod Tests
use Prim.Native.String.{◌++◌}
use openharness.Prelude.{
  ℕ, zero, String, Bool, true, false, ◌&&◌, Option, none, some, List, [], ◌∷◌, length, take, drop,
  ltb, leb, eqb, ◌==◌, if◌then◌else◌,
}
use openharness.Prelude.Result.{Result, ok, err}
use openharness.Prelude.GoMap
use openharness.Prelude.GoMap.{GoMap}
use openharness.Prelude.Int64.{inc, is_pos}
use openharness.Prelude.Decimal.{decimal64}
use openharness.Harness.Errors.{HarnessError, not_found, conflict, archived}
use openharness.Harness.Types.{Time, PersonaFiles, AgentDefinition, AgentPatch, ListOpts}

pub record LiteAgentStore : Type 0 where
  pub agents : GoMap AgentDefinition
  pub counter : ℕ

abbrev pub Reply : Type 0
Reply = Result HarnessError AgentDefinition × LiteAgentStore

-- `NewLiteAgentStore`
unfoldable pub new_lite_agent_store : LiteAgentStore
unfolding GoMap.empty
new_lite_agent_store = record { agents = GoMap.empty; counter = 0 }

-- `fmt.Sprintf("agent-%d", n)`
unfoldable pub agent_id : ℕ → String
unfolding decimal64
agent_id n = "agent-" ++ decimal64 n

abbrev no_persona : PersonaFiles
no_persona = record { soul = ""; identity = ""; agents = ""; user = ""; bootstrap = "" }

abbrev model : String
model = "claude-sonnet-4-20250514"

-- a composite literal that gives name, type, autonomy and model
abbrev pub seed : String → String → AgentDefinition
seed name agent_type = record {
  id = "";
  tenant_id = "";
  name = name;
  description = "";
  model = model;
  harness_version = "";
  system_prompt = "";
  persona = no_persona;
  tools = [];
  skills = [];
  mcp_servers = [];
  autonomy = "auto";
  runner = "";
  fallback_runner = "";
  agent_type = agent_type;
  callable_agents = [];
  metadata = record { items = [] };
  version = 0;
  created_at = 0;
  updated_at = 0;
  archived_at = none;
}

unfoldable pub seeds : List AgentDefinition
seeds =
    seed "harness" "open"
    ∷ seed "fund-analyst" "predefined"
    ∷ seed "analyst" "predefined"
    ∷ seed "scribe" "predefined"
    ∷ seed "executive-assistant" "predefined"
    ∷ []

-- the loop of `NewLiteAgentStoreWithSeeds`
unfoldable pub add_seeds : Time → List AgentDefinition → LiteAgentStore → LiteAgentStore
unfolding agent_id
add_seeds now [] s = s
add_seeds now (d ∷ ds) s =
    let counter = inc s.counter in
    let id = agent_id counter in
    let def : AgentDefinition = record d {
      id = id;
      tenant_id = "lite";
      version = 1;
      created_at = now;
      updated_at = now;
    } in
    add_seeds now ds (record s { agents = GoMap.put s.agents id def; counter = counter })

-- `NewLiteAgentStoreWithSeeds`
unfoldable pub new_lite_agent_store_with_seeds : Time → LiteAgentStore
unfolding add_seeds seeds new_lite_agent_store
new_lite_agent_store_with_seeds now = add_seeds now seeds new_lite_agent_store

unfoldable pub create : Time → String → AgentDefinition → LiteAgentStore → Reply
create now tenant_id def s =
    let counter = inc s.counter in
    let id = agent_id counter in
    let def' : AgentDefinition = record def {
      id = id;
      tenant_id = tenant_id;
      version = 1;
      created_at = now;
      updated_at = now;
      archived_at = none;
    } in
    (ok def', record s { agents = GoMap.put s.agents id def'; counter = counter })

unfoldable pub get : String → LiteAgentStore → Result HarnessError AgentDefinition
get agent_id s = elim (GoMap.get s.agents agent_id) [ none ↦ err not_found | some def ↦ ok def ]

-- `if patch.F != nil { def.F = *patch.F }`
abbrev pub patched : {A : Type 0} → Option A → A → A
patched none old = old
patched (some new) old = new

-- the ladder of nil tests in `Update`
unfoldable pub apply_patch : AgentPatch → AgentDefinition → AgentDefinition
apply_patch patch def = record def {
  name = patched patch.name def.name;
  description = patched patch.description def.description;
  model = patched patch.model def.model;
  harness_version = patched patch.harness_version def.harness_version;
  system_prompt = patched patch.system_prompt def.system_prompt;
  persona = patched patch.persona def.persona;
  tools = patched patch.tools def.tools;
  skills = patched patch.skills def.skills;
  autonomy = patched patch.autonomy def.autonomy;
  metadata = patched patch.metadata def.metadata;
}

-- what `Update` stores
unfoldable pub updated : Time → AgentPatch → AgentDefinition → AgentDefinition
unfolding apply_patch
updated now patch def = record (apply_patch patch def) {
  version = inc def.version;
  updated_at = now;
}

-- the part of `Update` behind the lookup
unfoldable pub update_found :
    Time → String → ℕ → AgentPatch → AgentDefinition → LiteAgentStore → Reply
unfolding updated
update_found now agent_id version patch def s = elim def.archived_at [
  | some _ ↦ (err archived, s)
  | none ↦
      if eqb def.version version
      then (let def' = updated now patch def in
          (ok def', record s { agents = GoMap.put s.agents agent_id def' }))
      else (err conflict, s)
]

unfoldable pub update : Time → String → ℕ → AgentPatch → LiteAgentStore → Reply
unfolding update_found
update now agent_id version patch s = elim (GoMap.get s.agents agent_id) [
  | none ↦ (err not_found, s)
  | some def ↦ update_found now agent_id version patch def s
]

-- what `Archive` stores
unfoldable pub retired : Time → AgentDefinition → AgentDefinition
retired now def = record def { archived_at = some now; updated_at = now }

unfoldable pub archive_found : Time → String → AgentDefinition → LiteAgentStore → Reply
unfolding retired
archive_found now agent_id def s = elim def.archived_at [
  | some _ ↦ (err archived, s)
  | none ↦
      let def' = retired now def in
      (ok def', record s { agents = GoMap.put s.agents agent_id def' })
]

unfoldable pub archive : Time → String → LiteAgentStore → Reply
unfolding archive_found
archive now agent_id s = elim (GoMap.get s.agents agent_id) [
  | none ↦ (err not_found, s)
  | some def ↦ archive_found now agent_id def s
]

-- the test in the loop of `List`
unfoldable pub listed : String → AgentDefinition → Bool
listed tenant_id def =
    (def.tenant_id == tenant_id) && elim def.archived_at [ none ↦ true | some _ ↦ false ]

-- the loop of `List`, over what its `range` visits
unfoldable pub filtered : String → List (String × AgentDefinition) → List AgentDefinition
unfolding listed
filtered tenant_id [] = []
filtered tenant_id ((_, def) ∷ l) =
    let rest = filtered tenant_id l in if listed tenant_id def then def ∷ rest else rest

-- `none` is the early `return nil, nil`
unfoldable pub apply_offset : ListOpts → List AgentDefinition → Option (List AgentDefinition)
apply_offset opts defs =
    if is_pos opts.offset
    then (if leb (length defs) opts.offset then none else some (drop opts.offset defs))
    else some defs

unfoldable pub apply_limit : ListOpts → List AgentDefinition → List AgentDefinition
apply_limit opts defs =
    if is_pos opts.limit && ltb opts.limit (length defs) then take opts.limit defs else defs

unfoldable pub list :
    List (String × AgentDefinition) → String → ListOpts → Result HarnessError (List AgentDefinition)
unfolding filtered apply_offset apply_limit
list visit tenant_id opts = elim (apply_offset opts (filtered tenant_id visit)) [
  | none ↦ ok []
  | some defs ↦ ok (apply_limit opts defs)
]

unfoldable pub list_versions : String → Result HarnessError (List AgentDefinition)
list_versions _ = err not_found

-- Slices and maps are values here, so that a deep copy is the value itself.
unfoldable pub clone_found : Time → String → AgentDefinition → LiteAgentStore → Reply
clone_found now new_name src s =
    let counter = inc s.counter in
    let id = agent_id counter in
    let clone : AgentDefinition = record src {
      id = id;
      name = new_name;
      version = 1;
      created_at = now;
      updated_at = now;
      archived_at = none;
    } in
    (ok clone, record s { agents = GoMap.put s.agents id clone; counter = counter })

unfoldable pub clone : Time → String → String → LiteAgentStore → Reply
unfolding clone_found
clone now agent_id new_name s = elim (GoMap.get s.agents agent_id) [
  | none ↦ (err not_found, s)
  | some src ↦ clone_found now new_name src s
]
