-- ===== src/Providers/Anthropic/Streams.antt =====
-- providers/anthropic.go: ChatStream, and the chunks that its caller is given.
use openharness.Prelude.{
  String, Bool, true, false, ◌≡◌, refl, ap, sym, ◌∙◌, inl, inr, Bool-cases, Option, none, some,
  Option-cases, List, [], ◌∷◌, ◌++◌, ◌==◌, if◌then◌else◌,
}
use openharness.Prelude.Result.{Result, ok, err}
use openharness.Providers.Models.{ChatRequest, ChatResponse, StreamChunk}
use openharness.Providers.Anthropic.{
  AnthropicProvider, MessageParams, ClientError, not_accumulated, stream_failed, SdkMessage,
  StreamEvent, text_delta, other_event, Json, build_message_params, message_to_chat_response,
}
use mathlib.Core.List.{append_assoc, append-nil}

-- a stream of the SDK: its events, and whether it ends with an error
pub record Stream : Type 0 where
  pub events : List StreamEvent
  pub fails : Bool

abbrev pub content_chunk : String → StreamChunk
content_chunk text = record { content = text; done = false }

abbrev pub done_chunk : StreamChunk
done_chunk = record { content = ""; done = true }

-- the chunks that an event gives to a caller with a callback
unfoldable pub forwarded : Bool → StreamEvent → List StreamChunk
forwarded false event = []
forwarded true (text_delta text) = if text == "" then [] else content_chunk text ∷ []
forwarded true other_event = []

-- the loop over the events, with the message and the chunks so far
unfoldable pub read_stream :
    (SdkMessage → StreamEvent → Option SdkMessage)
    → Bool
    → List StreamEvent
    → SdkMessage
    → List StreamChunk
    → Option SdkMessage × List StreamChunk
unfolding forwarded
read_stream accumulate listens [] msg chunks = (some msg, chunks)
read_stream accumulate listens (event ∷ more) msg chunks = elim (accumulate msg event) [
  | none ↦ (none, chunks)
  | some next ↦ read_stream accumulate listens more next (chunks ++ forwarded listens event)
]

-- what follows the loop
unfoldable pub after_stream :
    Bool
    → Bool
    → Option SdkMessage × List StreamChunk
    → Result ClientError ChatResponse × List StreamChunk
unfolding message_to_chat_response
after_stream listens fails (none, chunks) = (err not_accumulated, chunks)
after_stream listens fails (some msg, chunks) =
    if fails
    then (err stream_failed, chunks)
    else (ok (message_to_chat_response msg), if listens then chunks ++ done_chunk ∷ [] else chunks)

unfoldable pub chat_stream :
    Json
    → (MessageParams → Stream)
    → (SdkMessage → StreamEvent → Option SdkMessage)
    → SdkMessage
    → Bool
    → AnthropicProvider
    → ChatRequest
    → Result ClientError ChatResponse × List StreamChunk
unfolding build_message_params read_stream after_stream
chat_stream json open_stream accumulate empty_message listens p req =
    elim (build_message_params json p req) [
      | err e ↦ (err e, [])
      | ok params ↦
          let stream = open_stream params in
          after_stream listens stream.fails
            (read_stream accumulate listens stream.events empty_message [])
    ]

-- the texts of the deltas, without the empty ones
unfoldable pub deltas : List StreamEvent → List StreamChunk
deltas [] = []
deltas (text_delta text ∷ more) =
    let rest = deltas more in if text == "" then rest else content_chunk text ∷ rest
deltas (other_event ∷ more) = deltas more

deltas-nil : [] ≡ deltas []
unfolding deltas
deltas-nil = refl

deltas-cons :
    (event : StreamEvent) (more : List StreamEvent)
    → forwarded true event ++ deltas more ≡ deltas (event ∷ more)
unfolding deltas forwarded
deltas-cons other_event more = refl
deltas-cons (text_delta text) more = elim (Bool-cases (text == "")) [
  | inl e ↦ rw (e) refl
  | inr e ↦ rw (e) refl
]

abbrev pub IsStart : List StreamChunk → List StreamChunk → Type 0
IsStart chunks all = (rest : List StreamChunk) × (chunks ++ rest ≡ all)

-- what the loop gives: all deltas, or a start of them with an error
abbrev pub Forwards : List StreamChunk → Option SdkMessage × List StreamChunk → Type 0
Forwards all (some msg, chunks) = chunks ≡ all
Forwards all (none, chunks) = IsStart chunks all

read_stream-Forwards :
    (accumulate : SdkMessage → StreamEvent → Option SdkMessage) (events : List StreamEvent)
    (msg : SdkMessage) (chunks : List StreamChunk)
    → Forwards (chunks ++ deltas events) (read_stream accumulate true events msg chunks)
unfolding read_stream
read_stream-Forwards accumulate [] msg chunks =
    sym (append-nil chunks) ∙ ap (λ d. chunks ++ d) deltas-nil
read_stream-Forwards accumulate (event ∷ more) msg chunks =
    elim (Option-cases (accumulate msg event)) [
      | inl failed ↦ rw (failed, read_stream) (deltas (event ∷ more), refl)
      | inr (next, e) ↦
          rw
            (
              e,
              read_stream,
              sym (deltas-cons event more),
              sym (append_assoc chunks (forwarded true event) (deltas more)),
            )
            (read_stream-Forwards accumulate more next (chunks ++ forwarded true event))
    ]

-- the chunks of a call: all deltas and the last chunk with a response, a start of them with an error
abbrev pub Streams : List StreamChunk → Result ClientError ChatResponse × List StreamChunk → Type 0
Streams all (ok response, chunks) = chunks ≡ all ++ done_chunk ∷ []
Streams all (err e, chunks) = IsStart chunks all

after_stream-Streams :
    (fails : Bool) (all : List StreamChunk) (read : Option SdkMessage × List StreamChunk)
    → Forwards all read
    → Streams all (after_stream true fails read)
unfolding after_stream
after_stream-Streams fails all (none, chunks) h = h
after_stream-Streams true all (some msg, chunks) h = ([], append-nil chunks ∙ h)
after_stream-Streams false all (some msg, chunks) h = ap (λ c. c ++ done_chunk ∷ []) h

-- For a request that can be sent, a call with a response has given its caller the texts of all deltas,
-- in order and without the empty ones, and then the chunk that is done. A call that ends with an error
-- has given a start of the texts and no chunk that is done.
pub chat_stream-Streams :
    (json : Json) (open_stream : MessageParams → Stream)
    (accumulate : SdkMessage → StreamEvent → Option SdkMessage) (empty_message : SdkMessage)
    (p : AnthropicProvider) (req : ChatRequest) (params : MessageParams)
    → build_message_params json p req ≡ ok params
    → Streams
        (deltas (open_stream params).events)
        (chat_stream json open_stream accumulate empty_message true p req)
unfolding chat_stream
chat_stream-Streams json open_stream accumulate empty_message p req params e =
    rw (e, chat_stream)
      (after_stream-Streams (open_stream params).fails (deltas (open_stream params).events) _
        (read_stream-Forwards accumulate (open_stream params).events empty_message []))
