-- ===== src/Providers/OpenaiCompat/Outcomes.antt =====
-- providers/openai_compat.go: which attempt decides the result of a call, and what the result is.
use openharness.Prelude.{
  ℕ, zero, suc, true, false, ◌≡◌, ◌≤◌, ◌<◌, refl, ◌⊎◌, inl, inr, List, [], ◌+◌, Bool-cases, eqb,
  if◌then◌else◌, arith,
}
use openharness.Prelude.Result.{Result, err}
use openharness.Providers.Models.{ChatRequest, ChatResponse}
use openharness.Providers.OpenaiCompat.{
  OpenaiCompatProvider, OpenaiRequest, ChatError, cancelled, no_error, not_marshalled, Service,
  Action, try_from, openai_request, chat,
}
use mathlib.Core.Path.{subst}
use openharness.Providers.OpenaiCompat.Attempts.{IsTransient, IsFinal, after_attempt_cases}

module _ (service : Service) (req : OpenaiRequest) where
  -- attempt `i` was made and is not the last one
  abbrev pub IsPassed : ℕ → Type 0
  IsPassed i =
      (0 < i → service.waits i ≡ true) × (e : ChatError) × IsTransient (service.reply req i) e

  abbrev pub AllPassed : ℕ → ℕ → Type 0
  AllPassed first n = (i : ℕ) → first ≤ i → i < n → IsPassed i

  -- the call ends with attempt `i`: the context ends during the wait before it, or the attempt is made
  -- and final
  abbrev pub EndsAt : ℕ → Result ChatError ChatResponse → Type 0
  EndsAt i result =
      ((0 < i) × (service.waits i ≡ false) × (result ≡ err cancelled))
      ⊎ ((0 < i → service.waits i ≡ true) × IsFinal service (service.reply req i) result)

  -- the error of the last of so many attempts
  abbrev pub IsLastError : ℕ → ℕ → ChatError → Result ChatError ChatResponse → Type 0
  IsLastError zero first last result = result ≡ err last
  IsLastError (suc left) first last result =
      (e : ChatError) × IsTransient (service.reply req (first + left)) e × (result ≡ err e)

  -- the result of so many attempts
  abbrev pub IsSettled : ℕ → ℕ → ChatError → Result ChatError ChatResponse → Type 0
  IsSettled left first last result =
      ((n : ℕ) × (first ≤ n) × (n < first + left) × AllPassed first n × EndsAt n result)
      ⊎ (AllPassed first (first + left) × IsLastError left first last result)

  AllPassed-cons : (first n : ℕ) → IsPassed first → AllPassed (first + 1) n → AllPassed first n
  AllPassed-cons first n one more i from below = elim (Bool-cases (eqb first i)) [
    | inl same ↦ subst IsPassed (ground (arith, same)) one
    | inr other ↦ more i (ground (arith, from, other)) below
  ]

  IsSettled-cons :
      (left first : ℕ) (last e : ChatError) (result : Result ChatError ChatResponse)
      → (0 < first → service.waits first ≡ true)
      → IsTransient (service.reply req first) e
      → IsSettled left (first + 1) e result
      → IsSettled (suc left) first last result
  IsSettled-cons left first last e result waited failed (inl (n, from, below, all, ends)) = inl (
    n,
    omega (arith, from),
    omega (arith, below),
    AllPassed-cons first n (waited, e, failed) all,
    ends,
  )
  IsSettled-cons zero first last e result waited failed (inr (all, same)) = inr (
    λ i from below.
        AllPassed-cons first (first + 1) (waited, e, failed)
          (λ j above under. absurd (omega (arith, above, under))) i from (omega (arith, below)),
    (e, subst (λ k. IsTransient (service.reply req k) e) (omega arith) failed, same),
  )
  IsSettled-cons (suc left) first last e result waited failed (inr (all, (x, at, same))) = inr (
    λ i from below.
        AllPassed-cons first (first + 1 + suc left) (waited, e, failed) all i from
          (omega (arith, below)),
    (x, subst (λ k. IsTransient (service.reply req k) x) (omega arith) at, same),
  )

  waited_before :
      (i : ℕ) → (if eqb i 0 then true else service.waits i) ≡ true → 0 < i → service.waits i ≡ true
  waited_before i h later = ground (arith, h, later)

  stopped_before :
      (i : ℕ)
      → (if eqb i 0 then true else service.waits i) ≡ false
      → (0 < i) × (service.waits i ≡ false)
  stopped_before i h = elim (Bool-cases (eqb i 0)) [
    | inl first ↦ absurd (ground (arith, h, first))
    | inr later ↦ (ground (arith, later), ground (arith, h, later))
  ]

  try_from-IsSettled :
      (left first : ℕ) (last : ChatError) (done : List Action)
      → IsSettled left first last (try_from service req left first last done).0
  unfolding try_from
  try_from-IsSettled zero first last done =
      inr (λ i from below. absurd (omega (arith, from, below)), refl)
  try_from-IsSettled (suc left) first last done =
      elim (Bool-cases (if eqb first 0 then true else service.waits first)) [
        | inr stopped ↦
            let (later, ended) = stopped_before first stopped in
            rw (stopped, try_from)
              (inl (
                first,
                omega arith,
                omega arith,
                λ i from below. absurd (omega (arith, from, below)),
                inl (later, ended, refl),
              ))
        | inl elapsed ↦ elim (after_attempt_cases service (service.reply req first)) [
          | inl (result, e, final) ↦
              rw (elapsed, e, try_from)
                (inl (
                  first,
                  omega arith,
                  omega arith,
                  λ i from below. absurd (omega (arith, from, below)),
                  inr (waited_before first elapsed, final),
                ))
          | inr (x, e, failed) ↦
              rw (elapsed, e, try_from)
                (IsSettled-cons left first last x _ (waited_before first elapsed) failed
                  (try_from-IsSettled left (first + 1) x _))
        ]
      ]

-- A request that cannot be encoded fails at once. Otherwise the first of four attempts that is final
-- gives the result: no request can be made, a status of 400 or more other than 429, 502 and 503 is an
-- error, and the body of a lower status is parsed. Every attempt before it ended without a reply, without
-- its body or with one of the three statuses. If the context ends during the wait before an attempt, the
-- call is cancelled, and if no attempt is final, the result is the error of the fourth.
pub chat-IsSettled :
    (service : Service) (p : OpenaiCompatProvider) (req : ChatRequest)
    → let body = openai_request p req in
      let result = (chat service p req).0 in
      ((service.marshals body ≡ false) × (result ≡ err not_marshalled))
      ⊎ ((service.marshals body ≡ true) × IsSettled service body 4 0 no_error result)
unfolding chat
chat-IsSettled service p req =
    let body = openai_request p req in
    elim (Bool-cases (service.marshals body)) [
      | inr e ↦ inl (e, rw (e, chat) refl)
      | inl e ↦ inr (e, rw (e, chat) (try_from-IsSettled service body 4 0 no_error []))
    ]
