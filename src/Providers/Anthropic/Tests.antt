-- ===== src/Providers/Anthropic/Tests.antt =====
-- providers/anthropic.go: requests and a short stream.
use openharness.Prelude.{String, true, false, ◌≡◌, refl, Option, none, some, [], ◌∷◌, Has}
use openharness.Prelude.Result.{ok, err}
use openharness.Providers.Models.{Message, ChatRequest, parse_model_string, strip_provider, vendor}
use openharness.Providers.Anthropic.{
  AnthropicProvider, MessageParams, ClientError, unsupported_role, SdkMessage, StreamEvent,
  text_delta, other_event, Json, build_message_params, collect, collect_one, text_from_raw_content,
  tool_params,
}
use openharness.Providers.Anthropic.Requests.{
  AllSupported, is_supported, spoken, build_message_params-Hoists,
}
use openharness.Providers.Anthropic.Streams.{
  Stream, Streams, deltas, chat_stream, chat_stream-Streams, content_chunk, done_chunk, forwarded,
  read_stream, after_stream,
}

abbrev plain_json : Json
plain_json = record { decode_text = λ raw. some raw; decode_schema = λ raw. none }

abbrev message : String → String → Message
message role content = record { role = role; content = content; tool_calls = []; tool_call_id = "" }

abbrev a_client : AnthropicProvider
a_client = record { name = "anthropic"; api_key = "k"; default_model = "m" }

abbrev a_request : ChatRequest
a_request = record {
  messages = message "system" "be brief" ∷ message "user" "hi" ∷ message "system" "be kind" ∷ [];
  tools = [];
  model = "";
  prompt_cache_system = true;
}

abbrev a_params : MessageParams
a_params = record {
  model = "m";
  max_tokens = 4096;
  messages = spoken plain_json (message "user" "hi" ∷ []);
  system = some (record { text = "be brief\n\nbe kind"; cached = true });
  tools = [];
}

built : build_message_params plain_json a_client a_request ≡ ok a_params
unfolding build_message_params collect collect_one text_from_raw_content tool_params
    parse_model_string strip_provider vendor
built = refl

-- The reply of a tool cannot be sent.
tool_refused :
    build_message_params plain_json a_client
      (record a_request { messages = message "tool" "42" ∷ [] })
    ≡ err (unsupported_role "tool")
unfolding build_message_params collect collect_one text_from_raw_content
tool_refused = refl

build_message_params-Hoists_example :
    ((params : MessageParams)
      → build_message_params plain_json a_client a_request ≡ ok params
      → AllSupported a_request.messages × (params.messages ≡ spoken plain_json a_request.messages))
    × ((m : Message)
        → Has m a_request.messages
        → is_supported m ≡ false
        → (e : ClientError) × (build_message_params plain_json a_client a_request ≡ err e))
build_message_params-Hoists_example = build_message_params-Hoists plain_json a_client a_request

abbrev no_message : SdkMessage
no_message = record {
  id = "";
  stop_reason = "";
  content = [];
  input_tokens = 0;
  output_tokens = 0;
  cache_creation_input_tokens = 0;
  cache_read_input_tokens = 0;
}

abbrev hello_stream : MessageParams → Stream
hello_stream params = record {
  events = other_event ∷ text_delta "hel" ∷ text_delta "" ∷ text_delta "lo" ∷ [];
  fails = false;
}

abbrev same_message : SdkMessage → StreamEvent → Option SdkMessage
same_message msg event = some msg

two_deltas :
    (chat_stream plain_json hello_stream same_message no_message true a_client a_request).1
    ≡ content_chunk "hel" ∷ content_chunk "lo" ∷ done_chunk ∷ []
unfolding chat_stream read_stream after_stream forwarded build_message_params collect collect_one
    text_from_raw_content tool_params parse_model_string strip_provider vendor
two_deltas = refl

chat_stream-Streams_example :
    Streams
      (deltas (hello_stream a_params).events)
      (chat_stream plain_json hello_stream same_message no_message true a_client a_request)
chat_stream-Streams_example =
    chat_stream-Streams plain_json hello_stream same_message no_message a_client a_request a_params
      built
