-- ===== src/Providers/Anthropic/Requests.antt =====
-- providers/anthropic.go: the messages of a request.
use openharness.Prelude.{
  String, Bool, true, false, ◌≡◌, refl, ap, sym, ◌∙◌, inl, inr, List, [], ◌∷◌, ◌++◌, ◌==◌, ◌||◌,
  Has, Bool-cases, if◌then◌else◌, arith,
}
use openharness.Prelude.Result.{Result, ok, err, Result-cases}
use openharness.Providers.Models.{Message, ChatRequest}
use openharness.Providers.Anthropic.{
  AnthropicProvider, MessageParam, MessageParams, user, assistant, ClientError, unsupported_role,
  Json, Collected, text_from_raw_content, collect_one, collect, tool_params, build_message_params,
}
use mathlib.Core.List.{append_assoc, append-nil}
use mathlib.Core.Path.{subst}
use mathlib.Core.Bool.{true≢false}

abbrev pub is_supported : Message → Bool
is_supported m = m.role == "system" || m.role == "user" || m.role == "assistant"

-- a message as it is sent, or none for one that is not
abbrev pub spoken_one : Json → Message → List MessageParam
spoken_one json m =
    let text = text_from_raw_content json m.content in
    if m.role == "system"
    then []
    else if m.role == "user"
    then record { role = user; text = text } ∷ []
    else if m.role == "assistant"
    then record { role = assistant; text = text } ∷ []
    else []

abbrev pub spoken : Json → List Message → List MessageParam
spoken json [] = []
spoken json (m ∷ more) = spoken_one json m ++ spoken json more

abbrev pub AllSupported : List Message → Type 0
AllSupported [] = Unit
AllSupported (m ∷ more) = (is_supported m ≡ true) × AllSupported more

-- one message: it is supported and adds what is sent of it, or its role is the error
abbrev pub OneCollected : Json → Message → Collected → Result ClientError Collected → Type 0
OneCollected json m before (ok after) =
    (is_supported m ≡ true) × (after.1 ≡ before.1 ++ spoken_one json m)
OneCollected json m before (err e) = (is_supported m ≡ false) × (e ≡ unsupported_role m.role)

collect_one-Collected :
    (json : Json) (m : Message) (system : String) (messages : List MessageParam)
    → OneCollected json m (system, messages) (collect_one json m (system, messages))
unfolding collect_one
collect_one-Collected json m system messages = elim (Bool-cases (m.role == "system")) [
  | inl a ↦ rw (a, collect_one) (rw (a) refl, rw (a) (sym (append-nil messages)))
  | inr a ↦ elim (Bool-cases (m.role == "user")) [
    | inl b ↦ rw (a, b, collect_one) (rw (a, b) refl, rw (a, b) refl)
    | inr b ↦ elim (Bool-cases (m.role == "assistant")) [
      | inl c ↦ rw (a, b, c, collect_one) (rw (a, b, c) refl, rw (a, b, c) refl)
      | inr c ↦ rw (a, b, c, collect_one) (rw (a, b, c) refl, refl)
    ]
  ]
]

-- all messages: each is supported and they add what is sent of them, or one is not supported
abbrev pub AllCollected : Json → List Message → Collected → Result ClientError Collected → Type 0
AllCollected json ms before (ok after) = AllSupported ms × (after.1 ≡ before.1 ++ spoken json ms)
AllCollected json ms before (err e) =
    (m : Message) × Has m ms × (is_supported m ≡ false) × (e ≡ unsupported_role m.role)

later-Collected :
    (json : Json) (m : Message) (more : List Message) (before next : Collected)
    (result : Result ClientError Collected)
    → OneCollected json m before (ok next)
    → AllCollected json more next result
    → AllCollected json (m ∷ more) before result
later-Collected json m more before next (ok after) one rest = (
  (one.0, rest.0),
  rest.1
      ∙ ap (λ l. l ++ spoken json more) one.1
      ∙ append_assoc before.1 (spoken_one json m) (spoken json more),
)
later-Collected json m more before next (err e) one (bad, there, unsupported, same) =
    (bad, inr there, unsupported, same)

collect-Collected :
    (json : Json) (ms : List Message) (system : String) (messages : List MessageParam)
    → AllCollected json ms (system, messages) (collect json ms (system, messages))
unfolding collect
collect-Collected json [] system messages = (tt, sym (append-nil messages))
collect-Collected json (m ∷ more) system messages =
    let one = collect_one-Collected json m system messages in
    elim (Result-cases (collect_one json m (system, messages))) [
      | inl (next, e) ↦
          rw (e, collect)
            (later-Collected json m more (system, messages) next _
              (subst (OneCollected json m (system, messages)) e one)
              (collect-Collected json more next.0 next.1))
      | inr (x, e) ↦
          let bad = subst (OneCollected json m (system, messages)) e one in
          rw (e, collect) (m, inl refl, bad.0, bad.1)
    ]

messages_of :
    (a b : MessageParams)
    → ◌≡◌ {A = Result ClientError MessageParams} (ok a) (ok b)
    → b.messages ≡ a.messages
messages_of a b h =
    let same : b ≡ a = ground (arith, h) in ap (λ (q : MessageParams). q.messages) same

tools-kept :
    (json : Json) (p : AnthropicProvider) (req : ChatRequest) (collected : Collected)
    (params : MessageParams)
    → collect json req.messages ("", []) ≡ ok collected
    → build_message_params json p req ≡ ok params
    → params.messages ≡ collected.1
unfolding build_message_params
tools-kept json p req collected params e = elim (Result-cases (tool_params json req.tools)) [
  | inl (tools, t) ↦ rw (e, t, build_message_params) (λ h. messages_of _ params h)
  | inr (x, t) ↦ rw (e, t, build_message_params) (λ h. absurd (ground (arith, h)))
]

supported_of_Has :
    (m : Message) (ms : List Message) → AllSupported ms → Has m ms → is_supported m ≡ true
supported_of_Has m (x ∷ ms) all (inl same) = ap is_supported same ∙ all.0
supported_of_Has m (x ∷ ms) all (inr there) = supported_of_Has m ms all.1 there
supported_of_Has m [] all there = absurd there

refused :
    (json : Json) (p : AnthropicProvider) (req : ChatRequest) (e : ClientError)
    → collect json req.messages ("", []) ≡ err e
    → build_message_params json p req ≡ err e
unfolding build_message_params
refused json p req e failed = rw (failed, build_message_params) refl

-- A request that can be sent has only the roles system, user and assistant, and its messages are those
-- of the user and of the assistant, in order; their tool calls are not sent. A request with a message
-- of any other role, as that of a tool, is refused.
pub build_message_params-Hoists :
    (json : Json) (p : AnthropicProvider) (req : ChatRequest)
    → ((params : MessageParams)
        → build_message_params json p req ≡ ok params
        → AllSupported req.messages × (params.messages ≡ spoken json req.messages))
      × ((m : Message)
          → Has m req.messages
          → is_supported m ≡ false
          → (e : ClientError) × (build_message_params json p req ≡ err e))
build_message_params-Hoists json p req =
    let all = collect-Collected json req.messages "" [] in
    elim (Result-cases (collect json req.messages ("", []))) [
      | inl (collected, e) ↦
          let (supported, same) = subst (AllCollected json req.messages ("", [])) e all in
          (
            λ params built. (supported, tools-kept json p req collected params e built ∙ same),
            λ m there bad.
                absurd (true≢false (sym (supported_of_Has m req.messages supported there) ∙ bad)),
          )
      | inr (x, e) ↦
          let fails = refused json p req x e in
          (λ params built. absurd (ground (arith, fails, built)), λ m there bad. (x, fails))
    ]
