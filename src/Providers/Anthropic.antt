-- ===== src/Providers/Anthropic.antt =====
-- providers/anthropic.go: the client of Anthropic's API.
-- The SDK is a parameter: what a request gives, the events of a stream with how each is accumulated,
-- and what the decoders of JSON yield.
pub mod Requests
pub mod Streams
mod Tests
use openharness.Prelude.{
  ℕ, String, Bool, true, false, Option, none, some, List, [], ◌∷◌, ◌++◌, ◌==◌, ◌&&◌, not, ◌+◌, ◌%◌,
  if◌then◌else◌,
}
use openharness.Prelude.Result.{Result, ok, err}
use openharness.Prelude.Int64.{modulus}
use openharness.Providers.Models.{
  FunctionCall, ToolCall, Message, ToolFunctionSchema, ChatRequest, ChatResponse, Usage,
  StreamChunk, parse_model_string,
}
use Prim.Native.String

pub record AnthropicProvider : Type 0 where
  pub name : String
  pub api_key : String
  pub default_model : String

unfoldable pub new_anthropic_provider : String → String → String → AnthropicProvider
new_anthropic_provider name api_key default_model = record {
  name = name;
  api_key = api_key;
  default_model = if default_model == "" then "claude-opus-4-6" else default_model;
}

pub data Role : Type 0 where
  user assistant : Role

pub record MessageParam : Type 0 where
  pub role : Role
  pub text : String

-- a parameter schema that decodes: the value at `properties`, and the elements of `required`, `none`
-- for one that is no text
pub record RawSchema : Type 0 where
  pub properties : Option String
  pub required : List (Option String)

pub record InputSchema : Type 0 where
  pub properties : Option String
  pub required : List String

pub record ToolParam : Type 0 where
  pub name : String
  pub description : Option String
  pub input_schema : InputSchema

-- the system text, and whether it is cached
pub record SystemBlock : Type 0 where
  pub text : String
  pub cached : Bool

pub record MessageParams : Type 0 where
  pub model : String
  pub max_tokens : ℕ
  pub messages : List MessageParam
  pub system : Option SystemBlock
  pub tools : List ToolParam

pub data ClientError : Type 0 where
  unsupported_role tool_parameters : String → ClientError
  not_sent not_accumulated stream_failed : ClientError

-- a block of a message of the SDK
pub data Block : Type 0 where
  text_block : String → Block
  tool_use : String → String → String → Block
  other_block : Block

pub record SdkMessage : Type 0 where
  pub id : String
  pub stop_reason : String
  pub content : List Block
  pub input_tokens : ℕ
  pub output_tokens : ℕ
  pub cache_creation_input_tokens : ℕ
  pub cache_read_input_tokens : ℕ

-- an event of a stream: a text delta, or any other
pub data StreamEvent : Type 0 where
  text_delta : String → StreamEvent
  other_event : StreamEvent

pub record Json : Type 0 where
  pub decode_text : String → Option String
  pub decode_schema : String → Option RawSchema

unfoldable pub text_from_raw_content : Json → String → String
text_from_raw_content json raw =
    if raw == "" then "" else elim (json.decode_text raw) [ some s ↦ s | none ↦ raw ]

-- the system text after one more system message
abbrev pub with_system : String → String → String
with_system system text =
    if system == "" then text else String.◌++◌ system (String.◌++◌ "\n\n" text)

abbrev pub Collected : Type 0
Collected = String × List MessageParam

-- one message of the loop
unfoldable pub collect_one : Json → Message → Collected → Result ClientError Collected
unfolding text_from_raw_content
collect_one json m (system, messages) =
    let text = text_from_raw_content json m.content in
    if m.role == "system"
    then ok (with_system system text, messages)
    else if m.role == "user"
    then ok (system, messages ++ record { role = user; text = text } ∷ [])
    else if m.role == "assistant"
    then ok (system, messages ++ record { role = assistant; text = text } ∷ [])
    else err (unsupported_role m.role)

unfoldable pub collect : Json → List Message → Collected → Result ClientError Collected
unfolding collect_one
collect json [] so_far = ok so_far
collect json (m ∷ more) so_far = elim (collect_one json m so_far) [
  | err e ↦ err e
  | ok next ↦ collect json more next
]

-- the elements of `required` that are texts
unfoldable pub required_texts : List (Option String) → List String
required_texts [] = []
required_texts (none ∷ more) = required_texts more
required_texts (some s ∷ more) = s ∷ required_texts more

unfoldable pub input_schema : Json → ToolFunctionSchema → Result ClientError InputSchema
unfolding required_texts
input_schema json f =
    if f.parameters == ""
    then ok (record { properties = none; required = [] })
    else elim (json.decode_schema f.parameters) [
      | none ↦ err (tool_parameters f.name)
      | some raw ↦
          ok (record { properties = raw.properties; required = required_texts raw.required })
    ]

unfoldable pub tool_params : Json → List ToolFunctionSchema → Result ClientError (List ToolParam)
unfolding input_schema
tool_params json [] = ok []
tool_params json (f ∷ more) = elim (input_schema json f) [
  | err e ↦ err e
  | ok schema ↦ elim (tool_params json more) [
    | err e ↦ err e
    | ok params ↦ ok (
        record {
          name = f.name;
          description = if f.description == "" then none else some f.description;
          input_schema = schema;
        }
        ∷ params)
  ]
]

unfoldable pub build_message_params :
    Json → AnthropicProvider → ChatRequest → Result ClientError MessageParams
unfolding collect tool_params parse_model_string
build_message_params json p req = elim (collect json req.messages ("", [])) [
  | err e ↦ err e
  | ok collected ↦ elim (tool_params json req.tools) [
    | err e ↦ err e
    | ok tools ↦ ok (record {
      model =
          (parse_model_string p.name (if req.model == "" then p.default_model else req.model)).1;
      max_tokens = 4096;
      messages = collected.1;
      system =
          if collected.0 == ""
          then none
          else some (record { text = collected.0; cached = req.prompt_cache_system });
      tools = tools;
    })
  ]
]

-- the text blocks one after the other
unfoldable pub joined_text : List Block → String
joined_text [] = ""
joined_text (text_block s ∷ more) = String.◌++◌ s (joined_text more)
joined_text (tool_use _ _ _ ∷ more) = joined_text more
joined_text (other_block ∷ more) = joined_text more

unfoldable pub tool_calls : List Block → List ToolCall
tool_calls [] = []
tool_calls (text_block _ ∷ more) = tool_calls more
tool_calls (tool_use id name input ∷ more) =
    record { id = id; type_name = "function"; function = record { name = name; arguments = input } }
    ∷ tool_calls more
tool_calls (other_block ∷ more) = tool_calls more

unfoldable pub message_to_chat_response : SdkMessage → ChatResponse
unfolding joined_text tool_calls
message_to_chat_response msg = record {
  id = msg.id;
  content = joined_text msg.content;
  tool_calls = tool_calls msg.content;
  finish_reason = msg.stop_reason;
  usage = record {
    prompt_tokens = msg.input_tokens;
    completion_tokens = msg.output_tokens;
    total_tokens = (msg.input_tokens + msg.output_tokens) % modulus;
    cache_creation_tokens = msg.cache_creation_input_tokens;
    cache_read_tokens = msg.cache_read_input_tokens;
  };
}

unfoldable pub chat :
    Json
    → (MessageParams → Option SdkMessage)
    → AnthropicProvider
    → ChatRequest
    → Result ClientError ChatResponse
unfolding build_message_params message_to_chat_response
chat json send p req = elim (build_message_params json p req) [
  | err e ↦ err e
  | ok params ↦ elim (send params) [
    | none ↦ err not_sent
    | some msg ↦ ok (message_to_chat_response msg)
  ]
]
