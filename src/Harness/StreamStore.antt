-- ===== src/Harness/StreamStore.antt =====
-- harness/stream_store.go: an event stream that polls a session store. The store is code of the
-- runner; it is a parameter, of which the state at the moment of a call and the reply are seen.
pub mod Log
pub mod Rounds
pub mod Delivery
pub mod Terminal
mod Tests
use openharness.Prelude.{
  ℕ, String, Bool, true, false, ◌||◌, Option, none, some, List, [], ◌∷◌, ◌==◌, if◌then◌else◌,
}
use openharness.Prelude.Result.{Result, ok, err}
use openharness.Prelude.Int64.{inc}
use openharness.Prelude.Context.{ContextError, cancel_context}
use openharness.Harness.Types.{Event, event_run_completed, event_error}

-- `StoreBackedEventStream`, and whether its reader is past the test of `done` in `Next`
pub record Stream : Type 0 where
  pub session_id : String
  pub last_pos : ℕ
  pub context : Option ContextError
  pub done : Bool
  pub polling : Bool

-- `NewStoreBackedEventStream`
unfoldable pub new_stream : Option ContextError → String → Stream
new_stream ctx session_id = record {
  session_id = session_id;
  last_pos = 0;
  context = ctx;
  done = false;
  polling = false;
}

-- what `Next` returns
pub data Reply (E : Type 0) : Type 0 where
  event : Event → Reply E
  eof : Reply E
  failed : E → Reply E
  context_done : ContextError → Reply E

abbrev pub is_terminal : Event → Bool
is_terminal ev = ev.event_type == event_run_completed || ev.event_type == event_error

-- `Close`
unfoldable pub close : Stream → Stream
close st = record st { done = true; context = cancel_context st.context }

module _ {S E : Type 0} (get_events : S → String → ℕ → Result E (List Event)) where
  -- the head of the loop of `Next`
  unfoldable pub check : Stream → Option (Reply E) × Stream
  check st = if st.done then (some eof, st) else (none, record st { polling = true })

  unfoldable pub delivered : Event → Stream → Stream
  delivered ev st = record st {
    last_pos = inc ev.position;
    done = if is_terminal ev then true else st.done;
    polling = false;
  }

  -- the rest of one round of the loop, with the store as it is then; `ticks` says that the timer wins
  -- the `select`, which it must while the context is live
  unfoldable pub poll : S → Bool → Stream → Option (Reply E) × Stream
  unfolding delivered
  poll s ticks st = elim (get_events s st.session_id st.last_pos) [
    | err e ↦ (some (failed e), record st { polling = false })
    | ok (ev ∷ _) ↦ (some (event ev), delivered ev st)
    | ok [] ↦ elim st.context [
      | none ↦ (none, record st { polling = false })
      | some e ↦
          if ticks
          then (none, record st { polling = false })
          else (some (context_done e), record st { polling = false })
    ]
  ]

-- What happens to a stream: a step of its reader, or something beside it. A round of `Next` is read
-- in two steps, since `Close` can come between.
pub data Act (S : Type 0) : Type 0 where
  go_on : S → Bool → Act S
  shut : Act S
  expire : ContextError → Act S

module _ {S E : Type 0} (get_events : S → String → ℕ → Result E (List Event)) where
  unfoldable pub act : Act S → Stream → Option (Reply E) × Stream
  unfolding check poll close
  act (go_on s ticks) st = if st.polling then poll get_events s ticks st else check get_events st
  act shut st = (none, close st)
  act (expire e) st = elim st.context [
    | none ↦ (none, record st { context = some e })
    | some _ ↦ (none, st)
  ]

  abbrev pub received_of : Option (Reply E) → List Event → List Event
  received_of (some (event ev)) rest = ev ∷ rest
  received_of _ rest = rest

  -- the events that the calls of `Next` return along the acts, and the stream then
  unfoldable pub run : List (Act S) → Stream → List Event × Stream
  unfolding act
  run [] st = ([], st)
  run (a ∷ acts) st =
      let (reply, next) = act a st in
      let (events, last) = run acts next in (received_of reply events, last)
