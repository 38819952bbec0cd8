-- ===== src/Providers/OpenaiCompat/Attempts.antt =====
-- providers/openai_compat.go: how an attempt ends, by its reply.
use openharness.Prelude.{
  ℕ, String, true, false, ◌≡◌, ◌≤◌, ◌<◌, refl, ◌⊎◌, inl, inr, Option, none, some, List, [], ◌∷◌,
  Bool-cases, Option-cases, eqb, leb, arith,
}
use openharness.Prelude.Result.{Result, ok, err}
use openharness.Providers.Models.{ChatResponse}
use openharness.Providers.OpenaiCompat.{
  OpenaiChoice, OpenaiResponse, Attempt, not_created, not_done, not_read, status, ChatError,
  not_created_request, do_request, read_response, not_parsed, api_error, Service, returns,
  continues, content_text, to_chat_response, is_retried, parsed, after_attempt,
}

-- the statuses after which a call is tried again
abbrev pub IsBusy : ℕ → Type 0
IsBusy code = (code ≡ 429) ⊎ ((code ≡ 502) ⊎ (code ≡ 503))

-- an attempt that is not the last one of the call, with its error
abbrev pub IsTransient : Attempt → ChatError → Type 0
IsTransient not_created e = ⊥
IsTransient not_done e = e ≡ do_request
IsTransient not_read e = e ≡ read_response
IsTransient (status code body) e = IsBusy code × (e ≡ api_error code body)

-- a content that is a JSON string is decoded, and another one is taken as it is
abbrev pub IsContent : String → Option String → String → Type 0
IsContent raw (some text) content = content ≡ text
IsContent raw none content = content ≡ raw

-- what a response has from the first of the choices
abbrev pub IsChosen : Service → List OpenaiChoice → ChatResponse → Type 0
IsChosen service [] response =
    (response.content ≡ "") × (response.tool_calls ≡ []) × (response.finish_reason ≡ "")
IsChosen service (choice ∷ _) response =
    IsContent choice.message.content (service.decode_text choice.message.content) response.content
    × (response.tool_calls ≡ choice.message.tool_calls)
    × (response.finish_reason ≡ choice.finish_reason)

-- the result for a body that has been read
abbrev pub IsParsed : Service → Option OpenaiResponse → Result ChatError ChatResponse → Type 0
IsParsed service none result = result ≡ err not_parsed
IsParsed service (some r) result =
    (response : ChatResponse) × (result ≡ ok response)
    × (response.id ≡ r.id)
    × (response.usage ≡ r.usage)
    × IsChosen service r.choices response

-- an attempt that ends the call, with the result
abbrev pub IsFinal : Service → Attempt → Result ChatError ChatResponse → Type 0
IsFinal service not_created result = result ≡ err not_created_request
IsFinal service not_done result = ⊥
IsFinal service not_read result = ⊥
IsFinal service (status code body) result =
    (IsBusy code → ⊥)
    × (((400 ≤ code) × (result ≡ err (api_error code body)))
        ⊎ ((code < 400) × IsParsed service (service.decode_response body) result))

is_retried-IsBusy : (code : ℕ) → is_retried code ≡ true → IsBusy code
is_retried-IsBusy code h = elim (Bool-cases (eqb code 429)) [
  | inl a ↦ inl (ground (arith, a))
  | inr a ↦ elim (Bool-cases (eqb code 502)) [
    | inl b ↦ inr (inl (ground (arith, b)))
    | inr b ↦ inr (inr (ground (arith, h, a, b)))
  ]
]

is_retried-free : (code : ℕ) → is_retried code ≡ false → IsBusy code → ⊥
is_retried-free code h (inl a) = ground (arith, h, a)
is_retried-free code h (inr (inl b)) = ground (arith, h, b)
is_retried-free code h (inr (inr c)) = ground (arith, h, c)

module _ (service : Service) where
  content_text-IsContent :
      (raw : String)
      → IsContent raw (service.decode_text raw) (content_text service.decode_text raw)
  unfolding content_text
  content_text-IsContent raw = elim (Option-cases (service.decode_text raw)) [
    | inl e ↦ rw (e, content_text) refl
    | inr (text, e) ↦ rw (e, content_text) refl
  ]

  to_chat_response-IsChosen :
      (r : OpenaiResponse)
      → let response = to_chat_response service.decode_text r in
        (response.id ≡ r.id) × (response.usage ≡ r.usage) × IsChosen service r.choices response
  unfolding to_chat_response
  to_chat_response-IsChosen r = first r.choices refl
    where
      first :
          (l : List OpenaiChoice)
          → r.choices ≡ l
          → let response = to_chat_response service.decode_text r in
            (response.id ≡ r.id) × (response.usage ≡ r.usage) × IsChosen service r.choices response
      first [] e = rw (e, to_chat_response) (refl, refl, (refl, refl, refl))
      first (choice ∷ more) e =
          rw (e, to_chat_response)
            (refl, refl, (content_text-IsContent choice.message.content, refl, refl))

  parsed-IsParsed :
      (body : String) → IsParsed service (service.decode_response body) (parsed service body)
  unfolding parsed
  parsed-IsParsed body = elim (Option-cases (service.decode_response body)) [
    | inl e ↦ rw (e, parsed) refl
    | inr (r, e) ↦
        rw (e, parsed)
          (let (id, usage, chosen) = to_chat_response-IsChosen r in
            (to_chat_response service.decode_text r, refl, id, usage, chosen))
  ]

  pub after_attempt_cases :
      (a : Attempt)
      → ((result : Result ChatError ChatResponse) × (after_attempt service a ≡ returns result)
          × IsFinal service a result)
        ⊎ ((e : ChatError) × (after_attempt service a ≡ continues e) × IsTransient a e)
  unfolding after_attempt
  after_attempt_cases not_created = inl (err not_created_request, refl, refl)
  after_attempt_cases not_done = inr (do_request, refl, refl)
  after_attempt_cases not_read = inr (read_response, refl, refl)
  after_attempt_cases (status code body) = elim (Bool-cases (is_retried code)) [
    | inl busy ↦ inr (api_error code body, rw (busy) refl, (is_retried-IsBusy code busy, refl))
    | inr free ↦ elim (Bool-cases (leb 400 code)) [
      | inl refused ↦ inl (
        err (api_error code body),
        rw (free, refused) refl,
        (is_retried-free code free, inl (ground (arith, refused), refl)),
      )
      | inr fine ↦ inl (
        parsed service body,
        rw (free, fine) refl,
        (is_retried-free code free, inr (ground (arith, fine), parsed-IsParsed body)),
      )
    ]
  ]
