-- ===== src/Harness/Types.antt =====
-- harness/types.go. A time is a number of nanoseconds. A nil slice or map reads as an empty one, and
-- raw JSON is text.
use openharness.Prelude.{ℕ, String, Bool, Option, List}
use openharness.Prelude.GoMap.{GoMap}

abbrev pub Time : Type 0
Time = ℕ

pub record PersonaFiles : Type 0 where
  pub soul : String
  pub identity : String
  pub agents : String
  pub user : String
  pub bootstrap : String

pub record SkillRef : Type 0 where
  pub skill_id : String
  pub version : ℕ

pub record McpServerConfig : Type 0 where
  pub name : String
  pub command : String
  pub args : List String
  pub env : GoMap String

pub record AgentDefinition : Type 0 where
  pub id : String
  pub tenant_id : String
  pub name : String
  pub description : String
  pub model : String
  pub harness_version : String
  pub system_prompt : String
  pub persona : PersonaFiles
  pub tools : List String
  pub skills : List SkillRef
  pub mcp_servers : List McpServerConfig
  pub autonomy : String
  pub runner : String
  pub fallback_runner : String
  pub agent_type : String
  pub callable_agents : List String
  pub metadata : GoMap String
  pub version : ℕ
  pub created_at : Time
  pub updated_at : Time
  pub archived_at : Option Time

-- A nil pointer, `none`, means that the field is not updated.
pub record AgentPatch : Type 0 where
  pub name : Option String
  pub description : Option String
  pub model : Option String
  pub harness_version : Option String
  pub system_prompt : Option String
  pub persona : Option PersonaFiles
  pub tools : Option (List String)
  pub skills : Option (List SkillRef)
  pub autonomy : Option String
  pub metadata : Option (GoMap String)

pub record ToolDefinition : Type 0 where
  pub id : String
  pub tenant_id : String
  pub name : String
  pub category : String
  pub description : String
  pub parameters : String
  pub endpoint : String
  pub credential_ref : String
  pub built_in : Bool
  pub verified : Bool
  pub verified_at : Option Time
  pub created_at : Time

pub record VerifyResult : Type 0 where
  pub valid : Bool
  pub errors : List String
  pub warnings : List String

-- The numbers are int bit patterns.
pub record ListOpts : Type 0 where
  pub limit : ℕ
  pub offset : ℕ
  pub status : String

-- The event types of the harness are texts: `EventRunStarted` and so on.
pub record Event : Type 0 where
  pub event_type : String
  pub content : String
  pub id : String
  pub name : String
  pub arguments : String
  pub result : String
  pub position : ℕ
  pub timestamp : Time

abbrev pub event_run_started : String
event_run_started = "run.started"

abbrev pub event_run_completed : String
event_run_completed = "run.completed"

abbrev pub event_error : String
event_error = "error"

-- `RunStatus`: the session id, which no runner fills in, stays empty.
pub record RunStatus : Type 0 where
  pub run_id : String
  pub session_id : String
  pub status : String
  pub started_at : Time
  pub ended_at : Option Time
  pub error : String

-- `ChannelConfig`: `Config` is the text of its JSON
pub record ChannelConfig : Type 0 where
  pub name : String
  pub config_type : String
  pub direction : String
  pub config : String

pub record ChannelInfo : Type 0 where
  pub name : String
  pub channel_type : String
  pub direction : String
  pub webhook_url : String
  pub enabled : Bool

-- the metadata of a skill; the version is an int bit pattern
pub record SkillMeta : Type 0 where
  pub id : String
  pub tenant_id : String
  pub name : String
  pub category : String
  pub description : String
  pub triggers : List String
  pub artifact_key : String
  pub version : ℕ
  pub created_at : Time

pub record Skill : Type 0 where
  pub meta : SkillMeta
  pub prompt : String
  pub examples : List String
