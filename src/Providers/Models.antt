-- ===== src/Providers/Models.antt =====
-- providers/types.go and providers/models.go: the messages of a chat, the names of models and the
-- sizes of their context windows.
pub mod Names
mod Tests
use openharness.Prelude.{
  ℕ, String, Bool, true, false, Option, none, some, List, [], ◌∷◌, ◌==◌, ◌&&◌, not, ltb, eqb,
  if◌then◌else◌,
}
use openharness.Prelude.GoMap.{GoMap, get}
use Prim.Native.Char.{code}
use Prim.Native.String.{◌++◌, slice, len}
use text.Mathlib.Text.{starts_with}

pub record FunctionCall : Type 0 where
  pub name : String
  pub arguments : String

pub record ToolCall : Type 0 where
  pub id : String
  pub type_name : String
  pub function : FunctionCall

-- the content is raw JSON
pub record Message : Type 0 where
  pub role : String
  pub content : String
  pub tool_calls : List ToolCall
  pub tool_call_id : String

pub record ToolFunctionSchema : Type 0 where
  pub name : String
  pub description : String
  pub parameters : String

-- the options of a request are the one that the code reads
pub record ChatRequest : Type 0 where
  pub messages : List Message
  pub tools : List ToolFunctionSchema
  pub model : String
  pub prompt_cache_system : Bool

pub record Usage : Type 0 where
  pub prompt_tokens : ℕ
  pub completion_tokens : ℕ
  pub total_tokens : ℕ
  pub cache_creation_tokens : ℕ
  pub cache_read_tokens : ℕ

pub record ChatResponse : Type 0 where
  pub id : String
  pub content : String
  pub tool_calls : List ToolCall
  pub finish_reason : String
  pub usage : Usage

pub record StreamChunk : Type 0 where
  pub content : String
  pub done : Bool

-- the text before the first slash
unfoldable pub vendor : String → Option String
vendor String.[] = none
vendor (String.◌∷◌ c s) =
    let rest = vendor s in
    if eqb (code c) 47
    then some ""
    else elim rest [ none ↦ none | some found ↦ some (String.◌∷◌ c found) ]

-- the routing prefix taken off, where something follows it
unfoldable pub strip_provider : String → String → String
strip_provider provider_name raw =
    let prefix = provider_name ++ "/" in
    if not (provider_name == "") && ltb (len prefix) (len raw) && starts_with raw prefix
    then slice raw (len prefix) (len raw)
    else raw

unfoldable pub parse_model_string : String → String → String × String
unfolding vendor strip_provider
parse_model_string provider_name raw =
    let model = strip_provider provider_name raw in
    elim (vendor model) [ none ↦ (provider_name, model) | some system ↦ (system, model) ]

abbrev pub model_context_windows : GoMap ℕ
model_context_windows = record {
  items =
      ("anthropic/claude-sonnet-4-6", 200000)
      ∷ ("anthropic/claude-opus-4-6", 200000)
      ∷ ("anthropic/claude-haiku-4-5", 200000)
      ∷ ("anthropic/claude-sonnet-4-5-20250514", 200000)
      ∷ ("openai/gpt-4o", 128000)
      ∷ ("openai/gpt-4o-mini", 128000)
      ∷ ("google/gemini-2.5-pro", 1000000)
      ∷ ("google/gemini-2.5-flash", 1000000)
      ∷ ("google/gemma-4-31b-it:free", 131072)
      ∷ ("z-ai/glm-4.5-air:free", 131072)
      ∷ ("anthropic/claude-haiku-4.5", 200000)
      ∷ [];
}

unfoldable pub context_window_size : String → ℕ
context_window_size model = elim (get model_context_windows model) [
  | some size ↦ size
  | none ↦ 128000
]
