-- ===== src/Providers/OpenaiCompat/Retries.antt =====
-- providers/openai_compat.go: the attempts of a call.
use openharness.Prelude.{
  ℕ, zero, suc, true, ◌≡◌, ◌≤◌, refl, ◌⊎◌, inl, inr, List, [], ◌∷◌, ◌++◌, ◌+◌, Bool-cases, eqb,
  if◌then◌else◌, arith,
}
use openharness.Prelude.Result.{Result}
use openharness.Providers.Models.{ChatRequest, ChatResponse}
use openharness.Providers.OpenaiCompat.{
  OpenaiCompatProvider, OpenaiRequest, Attempt, not_created, not_done, not_read, status, ChatError,
  no_error, Service, Action, wait, request, Ended, returns, continues, after_attempt, backoff, sent,
  try_from, openai_request, chat,
}

abbrev pub requests : List Action → ℕ
requests [] = 0
requests (wait _ ∷ more) = requests more
requests (request _ ∷ more) = suc (requests more)

abbrev pub seconds : List Action → ℕ
seconds [] = 0
seconds (wait n ∷ more) = n + seconds more
seconds (request _ ∷ more) = seconds more

-- the longest wait before so many attempts
abbrev pub backoffs : ℕ → ℕ → ℕ
backoffs first zero = 0
backoffs first (suc left) = (if eqb first 0 then 0 else backoff first) + backoffs (first + 1) left

requests-append : (a b : List Action) → requests (a ++ b) ≡ requests a + requests b
requests-append [] b = omega arith
requests-append (wait _ ∷ a) b = requests-append a b
requests-append (request _ ∷ a) b = omega (arith, requests-append a b)

seconds-append : (a b : List Action) → seconds (a ++ b) ≡ seconds a + seconds b
seconds-append [] b = omega arith
seconds-append (wait n ∷ a) b = omega (arith, seconds-append a b)
seconds-append (request _ ∷ a) b = seconds-append a b

-- what an attempt adds at most
sent_bounds :
    (req : OpenaiRequest) (a : Attempt) (done : List Action)
    → (requests (sent req a done) ≤ requests done + 1) × (seconds (sent req a done) ≡ seconds done)
sent_bounds req not_created done = (omega arith, refl)
sent_bounds req not_done done = (
  omega (arith, requests-append done (request req ∷ [])),
  omega (arith, seconds-append done (request req ∷ [])),
)
sent_bounds req not_read done = (
  omega (arith, requests-append done (request req ∷ [])),
  omega (arith, seconds-append done (request req ∷ [])),
)
sent_bounds req (status _ _) done = (
  omega (arith, requests-append done (request req ∷ [])),
  omega (arith, seconds-append done (request req ∷ [])),
)

abbrev waited : ℕ → List Action → List Action
waited attempt done = if eqb attempt 0 then done else done ++ wait (backoff attempt) ∷ []

waited_bounds :
    (attempt : ℕ) (done : List Action)
    → (requests (waited attempt done) ≡ requests done)
      × (seconds (waited attempt done)
          ≡ seconds done + (if eqb attempt 0 then 0 else backoff attempt))
waited_bounds attempt done = elim (Bool-cases (eqb attempt 0)) [
  | inl first ↦ rw (first) (refl, omega arith)
  | inr later ↦ rw (later) (
    omega (arith, requests-append done (wait (backoff attempt) ∷ [])),
    omega (arith, seconds-append done (wait (backoff attempt) ∷ [])),
  )
]

Ended-cases :
    (e : Ended)
    → ((r : Result ChatError ChatResponse) × (e ≡ returns r))
      ⊎ ((x : ChatError) × (e ≡ continues x))
Ended-cases (returns r) = inl (r, refl)
Ended-cases (continues x) = inr (x, refl)

try_from_bounds :
    (service : Service) (req : OpenaiRequest) (left attempt : ℕ) (last : ChatError)
    (done : List Action)
    → let after = (try_from service req left attempt last done).1 in
      (requests after ≤ requests done + left)
      × (seconds after ≤ seconds done + backoffs attempt left)
unfolding try_from
try_from_bounds service req zero attempt last done = (omega arith, omega arith)
try_from_bounds service req (suc left) attempt last done =
    let w = waited_bounds attempt done in
    let a = service.reply req attempt in
    let s = sent_bounds req a (waited attempt done) in
    elim (Bool-cases (if eqb attempt 0 then true else service.waits attempt)) [
      | inr ended ↦ rw (ended, try_from) (omega (arith, w.0), omega (arith, w.1))
      | inl elapsed ↦ elim (Ended-cases (after_attempt service a)) [
        | inl (r, e) ↦ rw (elapsed, e, try_from) (omega (arith, w.0, s.0), omega (arith, w.1, s.1))
        | inr (x, e) ↦
            let rest =
              try_from_bounds service req left (attempt + 1) x (sent req a (waited attempt done)) in
            rw (elapsed, e, try_from)
              (omega (arith, w.0, s.0, rest.0), omega (arith, w.1, s.1, rest.1))
      ]
    ]

-- Every call ends after at most four requests and waits of at most seven seconds.
pub chat_bounds :
    (service : Service) (p : OpenaiCompatProvider) (req : ChatRequest)
    → let actions = (chat service p req).1 in (requests actions ≤ 4) × (seconds actions ≤ 7)
unfolding chat
chat_bounds service p req =
    let body = openai_request p req in
    let bounds = try_from_bounds service body 4 0 no_error [] in
    elim (Bool-cases (service.marshals body)) [
      | inl e ↦ rw (e, chat) (omega (arith, bounds.0), omega (arith, bounds.1))
      | inr e ↦ rw (e, chat) (omega arith, omega arith)
    ]
