-- ===== src/Prelude/Channel.antt =====
-- Go's buffered channels: what a send, a receive or a close does at one moment.
use Prim.Native.Nat.{ℕ, ◌≤◌, ◌<◌}
use mathlib.Core.Path.{◌≡◌, refl, ap, sym, ◌∙◌}
use mathlib.Core.Logic.{◌≢◌, ◌⊎◌, inl, inr}
use mathlib.Core.Bool.{Bool, true, false}
use mathlib.Core.List.{List, [], ◌∷◌, ◌++◌, append_assoc}
use native.Mathlib.Omega.{arith}
use openharness.Prelude.Tests.{ltb, lt→ltb, ltb→lt, if◌then◌else◌, Bool-cases}
use openharness.Prelude.Lists.{length, length-append, List-cases}

-- An operation on a channel goes through, waits, or panics.
pub data Outcome {ℓ} (A : Type ℓ) : Type ℓ where
  done : A → Outcome A
  blocked panicked : Outcome A

-- The code after an operation, which runs when the operation goes through.
unfoldable pub after {ℓ ℓ'} : {A : Type ℓ} {B : Type ℓ'} → Outcome A → (A → B) → Outcome B
after (done a) rest = done (rest a)
after blocked rest = blocked
after panicked rest = panicked

pub after-done {ℓ ℓ'} :
    {A : Type ℓ} {B : Type ℓ'} (o : Outcome A) (rest : A → B) {b : B}
    → after o rest ≡ done b
    → (a : A) × (o ≡ done a) × (b ≡ rest a)
unfolding after
after-done (done a) rest {b} e = (a, refl, cc)
after-done blocked rest e = absurd (cc)
after-done panicked rest e = absurd (cc)

pub after-panicked {ℓ ℓ'} :
    {A : Type ℓ} {B : Type ℓ'} (o : Outcome A) (rest : A → B)
    → after o rest ≡ panicked
    → o ≡ panicked
unfolding after
after-panicked (done a) rest e = absurd (cc)
after-panicked blocked rest e = absurd (cc)
after-panicked panicked rest e = refl

pub Outcome-cases {ℓ} :
    {A : Type ℓ} (o : Outcome A) → ((a : A) × (o ≡ done a)) ⊎ ((o ≡ blocked) ⊎ (o ≡ panicked))
Outcome-cases (done a) = inl (a, refl)
Outcome-cases blocked = inr (inl refl)
Outcome-cases panicked = inr (inr refl)

-- `sent` and `received` are the whole traffic so far, for the statements about it.
pub record Channel {ℓ} (A : Type ℓ) : Type ℓ where
  pub capacity : ℕ
  pub buffer : List A
  pub closed : Bool
  pub sent : List A
  pub received : List A

module _ {ℓ} {A : Type ℓ} where
  -- `make(chan A, capacity)`
  unfoldable pub make : ℕ → Channel A
  make capacity = record {
    capacity = capacity;
    buffer = [];
    closed = false;
    sent = [];
    received = [];
  }

  unfoldable pub push : A → Channel A → Channel A
  push a c = record c { buffer = c.buffer ++ a ∷ []; sent = c.sent ++ a ∷ [] }

  -- `c <- a`, without a waiting receiver
  unfoldable pub send : A → Channel A → Outcome (Channel A)
  unfolding push
  send a c =
      if c.closed
      then panicked
      else if ltb (length c.buffer) c.capacity
      then done (push a c)
      else blocked

  -- `close(c)`
  unfoldable pub close : Channel A → Outcome (Channel A)
  close c = if c.closed then panicked else done (record c { closed = true })

-- What `a, ok := <-c` gives: a value, or the end of a closed and empty channel.
pub data Receipt {ℓ} (A : Type ℓ) : Type ℓ where
  value : A → Receipt A
  eof : Receipt A

module _ {ℓ} {A : Type ℓ} where
  unfoldable pub receive : Channel A → Outcome (Receipt A × Channel A)
  receive c = elim c.buffer [
    | a ∷ rest ↦ done (value a, record c { buffer = rest; received = c.received ++ a ∷ [] })
    | [] ↦ if c.closed then done (eof, c) else blocked
  ]

  -- The buffer is within its capacity, and what was sent is what was received and what is buffered,
  -- in that order.
  pub record IsSound (c : Channel A) : Type ℓ where
    pub bounded : length c.buffer ≤ c.capacity
    pub in_order : c.sent ≡ c.received ++ c.buffer

  pub IsSound-push :
      (a : A) (c : Channel A) → IsSound c → length c.buffer < c.capacity → IsSound (push a c)
  unfolding push
  IsSound-push a c h room = record {
    bounded = omega (arith, length-append c.buffer (a ∷ []));
    in_order =
        ap (λ (x : List A). x ++ a ∷ []) h.in_order ∙ append_assoc c.received c.buffer (a ∷ []);
  }

  pub IsSound-shift :
      (a : A) (rest : List A) (c : Channel A)
      → IsSound c
      → c.buffer ≡ a ∷ rest
      → IsSound (record c { buffer = rest; received = c.received ++ a ∷ [] })
  IsSound-shift a rest c h front = record {
    bounded = omega (arith, h.bounded, ap length front);
    in_order =
        h.in_order
        ∙ (ap (λ (x : List A). c.received ++ x) front
            ∙ sym (append_assoc c.received (a ∷ []) rest));
  }

  send_closed : (a : A) (c : Channel A) → c.closed ≡ true → send a c ≡ panicked
  unfolding send
  send_closed a c shut = rw (shut, send) refl

  send_full :
      (a : A) (c : Channel A)
      → c.closed ≡ false
      → ltb (length c.buffer) c.capacity ≡ false
      → send a c ≡ blocked
  unfolding send
  send_full a c live full = rw (live, send) (rw full refl)

  pub send_room :
      (a : A) (c : Channel A)
      → c.closed ≡ false
      → length c.buffer < c.capacity
      → send a c ≡ done (push a c)
  unfolding send
  send_room a c live room = rw (live, send) (rw (lt→ltb (length c.buffer) c.capacity room) refl)

  pub send_open : (a : A) (c : Channel A) → c.closed ≡ false → send a c ≢ panicked
  send_open a c live e = elim (Bool-cases (ltb (length c.buffer) c.capacity)) [
    | inl room ↦ cc (send_room a c live (ltb→lt (length c.buffer) c.capacity room))
    | inr full ↦ cc (send_full a c live full)
  ]

  -- What a send, a receive and a close that go through have found.
  pub send_done :
      (a : A) (c d : Channel A)
      → send a c ≡ done d
      → (c.closed ≡ false) × (length c.buffer < c.capacity) × (d ≡ push a c)
  send_done a c d e = elim (Bool-cases c.closed) [
    | inl shut ↦ absurd (cc (send_closed a c shut))
    | inr live ↦ elim (Bool-cases (ltb (length c.buffer) c.capacity)) [
      | inl fits ↦
          let room = ltb→lt (length c.buffer) c.capacity fits in
          (live, room, cc (send_room a c live room))
      | inr full ↦ absurd (cc (send_full a c live full))
    ]
  ]

  pub close_open : (c : Channel A) → c.closed ≡ false → close c ≡ done (record c { closed = true })
  unfolding close
  close_open c live = rw (live, close) refl

  close_closed : (c : Channel A) → c.closed ≡ true → close c ≡ panicked
  unfolding close
  close_closed c shut = rw (shut, close) refl

  pub close_done :
      (c d : Channel A) → close c ≡ done d → (c.closed ≡ false) × (d ≡ record c { closed = true })
  close_done c d e = elim (Bool-cases c.closed) [
    | inl shut ↦ absurd (cc (close_closed c shut))
    | inr live ↦ (live, cc (close_open c live))
  ]

  pub receive_front :
      (a : A) (rest : List A) (c : Channel A)
      → c.buffer ≡ a ∷ rest
      → receive c ≡ done (value a, record c { buffer = rest; received = c.received ++ a ∷ [] })
  unfolding receive
  receive_front a rest c front = rw (front, receive) refl

  pub receive_end : (c : Channel A) → c.buffer ≡ [] → c.closed ≡ true → receive c ≡ done (eof, c)
  unfolding receive
  receive_end c nothing shut = rw nothing (rw shut refl)

  receive_wait : (c : Channel A) → c.buffer ≡ [] → c.closed ≡ false → receive c ≡ blocked
  unfolding receive
  receive_wait c nothing live = rw (nothing, receive) (rw live refl)

  pub receive_done :
      (x : Receipt A) (c d : Channel A)
      → receive c ≡ done (x, d)
      → ((a : A) × (rest : List A) × (c.buffer ≡ a ∷ rest)
          × (x ≡ value a)
          × (d ≡ record c { buffer = rest; received = c.received ++ a ∷ [] }))
        ⊎ ((c.buffer ≡ []) × (c.closed ≡ true) × (x ≡ eof) × (d ≡ c))
  receive_done x c d e = elim (List-cases c.buffer) [
    | inl nothing ↦ elim (Bool-cases c.closed) [
      | inl shut ↦
          inr (nothing, shut, cc (receive_end c nothing shut), cc (receive_end c nothing shut))
      | inr live ↦ absurd (cc (receive_wait c nothing live))
    ]
    | inr (a, rest, front) ↦
        inl (a, rest, front, cc (receive_front a rest c front), cc (receive_front a rest c front))
  ]
