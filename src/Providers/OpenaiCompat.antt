-- ===== src/Providers/OpenaiCompat.antt =====
-- providers/openai_compat.go: the client of an OpenAI-compatible API and its retries.
-- What the service does is a parameter: the reply to the request of each attempt, and whether the wait
-- before an attempt ends before the context does. JSON is given by its decoders.
pub mod Attempts
pub mod Retries
pub mod Outcomes
mod Tests
use openharness.Prelude.{
  ℕ, zero, suc, String, Bool, true, false, Option, none, some, List, [], ◌∷◌, ◌++◌, ◌==◌, ◌||◌, ◌+◌,
  ◌-◌, ◌*◌, ◌^◌, eqb, leb, if◌then◌else◌,
}
use openharness.Prelude.Result.{Result, ok, err}
use openharness.Providers.Models.{
  ToolCall, Message, ToolFunctionSchema, ChatRequest, ChatResponse, Usage, parse_model_string,
}

pub record OpenaiCompatProvider : Type 0 where
  pub name : String
  pub api_base : String
  pub api_key : String
  pub default_model : String

pub record OpenaiRequest : Type 0 where
  pub model : String
  pub messages : List Message
  pub tools : List ToolFunctionSchema

pub record OpenaiMessage : Type 0 where
  pub role : String
  pub content : String
  pub tool_calls : List ToolCall

pub record OpenaiChoice : Type 0 where
  pub message : OpenaiMessage
  pub finish_reason : String

pub record OpenaiResponse : Type 0 where
  pub id : String
  pub choices : List OpenaiChoice
  pub usage : Usage

-- how an attempt ends: no request can be made of the arguments, `Do` or the reading of the body fails,
-- or a status and a body arrive
pub data Attempt : Type 0 where
  not_created not_done not_read : Attempt
  status : ℕ → String → Attempt

pub data ChatError : Type 0 where
  not_marshalled cancelled not_created_request do_request read_response not_parsed no_error :
      ChatError
  api_error : ℕ → String → ChatError

-- the service and the JSON of one call
pub record Service : Type 0 where
  pub reply : OpenaiRequest → ℕ → Attempt
  pub waits : ℕ → Bool
  pub marshals : OpenaiRequest → Bool
  pub decode_response : String → Option OpenaiResponse
  pub decode_text : String → Option String

-- what the call does: a wait of so many seconds, or a request
pub data Action : Type 0 where
  wait : ℕ → Action
  request : OpenaiRequest → Action

unfoldable pub content_text : (String → Option String) → String → String
content_text decode_text raw = elim (decode_text raw) [ some text ↦ text | none ↦ raw ]

unfoldable pub to_chat_response : (String → Option String) → OpenaiResponse → ChatResponse
unfolding content_text
to_chat_response decode_text r = elim r.choices [
  | [] ↦ record { id = r.id; content = ""; tool_calls = []; finish_reason = ""; usage = r.usage }
  | choice ∷ _ ↦ record {
    id = r.id;
    content = content_text decode_text choice.message.content;
    tool_calls = choice.message.tool_calls;
    finish_reason = choice.finish_reason;
    usage = r.usage;
  }
]

abbrev pub is_retried : ℕ → Bool
is_retried code = eqb code 429 || eqb code 502 || eqb code 503

-- the end of an attempt: the result of the call, or the error with which the loop continues
pub data Ended : Type 0 where
  returns : Result ChatError ChatResponse → Ended
  continues : ChatError → Ended

unfoldable pub parsed : Service → String → Result ChatError ChatResponse
unfolding to_chat_response
parsed service body = elim (service.decode_response body) [
  | none ↦ err not_parsed
  | some r ↦ ok (to_chat_response service.decode_text r)
]

unfoldable pub after_attempt : Service → Attempt → Ended
unfolding parsed
after_attempt service not_created = returns (err not_created_request)
after_attempt service not_done = continues do_request
after_attempt service not_read = continues read_response
after_attempt service (status code body) =
    if is_retried code
    then continues (api_error code body)
    else if leb 400 code
    then returns (err (api_error code body))
    else returns (parsed service body)

abbrev pub backoff : ℕ → ℕ
backoff attempt = 2 ^ (attempt - 1)

-- a request that can be created is sent
abbrev pub sent : OpenaiRequest → Attempt → List Action → List Action
sent req not_created done = done
sent req _ done = done ++ request req ∷ []

-- the loop from an attempt on, with the attempts that are left, the error so far and the actions
unfoldable pub try_from :
    Service
    → OpenaiRequest
    → ℕ
    → ℕ
    → ChatError
    → List Action
    → Result ChatError ChatResponse × List Action
unfolding after_attempt
try_from service req zero attempt last done = (err last, done)
try_from service req (suc left) attempt last done =
    let waited = if eqb attempt 0 then done else done ++ wait (backoff attempt) ∷ [] in
    let attempted = service.reply req attempt in
    elim (if eqb attempt 0 then true else service.waits attempt) [
      | false ↦ (err cancelled, waited)
      | true ↦ elim (after_attempt service attempted) [
        | returns result ↦ (result, sent req attempted waited)
        | continues error ↦
            try_from service req left (attempt + 1) error (sent req attempted waited)
      ]
    ]

abbrev pub max_retries : ℕ
max_retries = 3

unfoldable pub openai_request : OpenaiCompatProvider → ChatRequest → OpenaiRequest
unfolding parse_model_string
openai_request p req = record {
  model = (parse_model_string p.name (if req.model == "" then p.default_model else req.model)).1;
  messages = req.messages;
  tools = req.tools;
}

unfoldable pub chat :
    Service → OpenaiCompatProvider → ChatRequest → Result ChatError ChatResponse × List Action
unfolding try_from openai_request
chat service p req =
    let body = openai_request p req in
    if service.marshals body
    then try_from service body (max_retries + 1) 0 no_error []
    else (err not_marshalled, [])

-- `ChatStream` is `Chat`, and gives no chunk
unfoldable pub chat_stream :
    Service → OpenaiCompatProvider → ChatRequest → Result ChatError ChatResponse × List Action
unfolding chat
chat_stream service p req = chat service p req
