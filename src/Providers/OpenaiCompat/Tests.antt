-- ===== src/Providers/OpenaiCompat/Tests.antt =====
-- providers/openai_compat.go: calls of services that are busy at first.
use openharness.Prelude.{ℕ, zero, suc, true, false, ◌≡◌, ◌≤◌, ◌⊎◌, refl, none, some, []}
use openharness.Prelude.Result.{ok, err}
use openharness.Providers.Models.{ChatRequest, Usage, parse_model_string, strip_provider, vendor}
use openharness.Providers.OpenaiCompat.{
  OpenaiCompatProvider, OpenaiRequest, OpenaiResponse, Attempt, not_done, status, no_error,
  not_marshalled, Service, chat, try_from, openai_request, after_attempt, parsed, to_chat_response,
}
use openharness.Providers.OpenaiCompat.Retries.{requests, seconds, chat_bounds}
use openharness.Providers.OpenaiCompat.Outcomes.{IsSettled, chat-IsSettled}

abbrev no_usage : Usage
no_usage = record {
  prompt_tokens = 0;
  completion_tokens = 0;
  total_tokens = 0;
  cache_creation_tokens = 0;
  cache_read_tokens = 0;
}

abbrev empty_response : OpenaiResponse
empty_response = record { id = "r"; choices = []; usage = no_usage }

-- busy twice, then a reply
busy_reply : OpenaiRequest → ℕ → Attempt
busy_reply req zero = status 429 "busy"
busy_reply req (suc zero) = status 503 "busy"
busy_reply req _ = status 200 "{}"

abbrev busy : Service
busy = record {
  reply = busy_reply;
  waits = λ i. true;
  marshals = λ r. true;
  decode_response = λ body. some empty_response;
  decode_text = λ raw. none;
}

abbrev down : Service
down = record busy { reply = λ req i. not_done }

abbrev a_provider : OpenaiCompatProvider
a_provider = record {
  name = "openrouter";
  api_base = "https://x";
  api_key = "k";
  default_model = "openrouter/a/b";
}

abbrev a_request : ChatRequest
a_request = record { messages = []; tools = []; model = ""; prompt_cache_system = false }

third_time :
    (chat busy a_provider a_request).0
    ≡ ok (record { id = "r"; content = ""; tool_calls = []; finish_reason = ""; usage = no_usage })
unfolding chat try_from openai_request after_attempt parsed to_chat_response busy_reply
third_time = refl

waits_and_requests :
    let actions = (chat down a_provider a_request).1 in
    (requests actions ≡ 4) × (seconds actions ≡ 7)
unfolding chat try_from openai_request after_attempt
waits_and_requests = (refl, refl)

model_sent : (openai_request a_provider a_request).model ≡ "a/b"
unfolding openai_request parse_model_string strip_provider vendor
model_sent = refl

chat_bounds_example :
    let actions = (chat busy a_provider a_request).1 in
    (requests actions ≤ 4) × (seconds actions ≤ 7)
chat_bounds_example = chat_bounds busy a_provider a_request

chat-IsSettled_example :
    let body = openai_request a_provider a_request in
    let result = (chat busy a_provider a_request).0 in
    ((busy.marshals body ≡ false) × (result ≡ err not_marshalled))
    ⊎ ((busy.marshals body ≡ true) × IsSettled busy body 4 0 no_error result)
chat-IsSettled_example = chat-IsSettled busy a_provider a_request
