-- ===== src/Lite/Runner.antt =====
-- harness/lite/runner.go: runs in goroutines. Each function here is what one goroutine does under one
-- lock, or one channel operation; `Runner.Steps` interleaves them. The clock, the loop factory (code
-- outside the repository) and the parent context act through arguments.
pub mod Steps
mod Outcomes
pub mod Invariant
pub mod Preservation
pub mod Final
pub mod Delivery
pub mod Progress
pub mod Runs
pub mod Isolation
pub mod Reports
mod Tests
use openharness.Prelude.{
  ℕ, String, Bool, true, false, ◌&&◌, Option, none, some, List, [], ◌∷◌, length, ltb, if◌then◌else◌,
}
use openharness.Prelude.Result.{Result, ok, err}
use openharness.Prelude.Context.{ContextError, canceled, deadline_exceeded, cancel_context}
use openharness.Prelude.Channel.{
  Outcome, after, done, blocked, panicked, Channel, make, send, push, close, receive, Receipt,
}
use openharness.Harness.Errors.{HarnessError, not_found, run_not_active}
use openharness.Harness.Types.{Time, Event, event_run_started, event_run_completed, event_error}

-- the texts that `runState.status` takes
pub data Status : Type 0 where
  running cancelled completed failed : Status

-- `Status` as it stands in a `RunStatus`
unfoldable pub status_text : Status → String
status_text running = "running"
status_text cancelled = "cancelled"
status_text completed = "completed"
status_text failed = "error"

-- Where the goroutine of `executeRun` stands, with its locals that are live there. The result of the
-- factory is `none` for nil, or the error's text.
pub data Place : Type 0 where
  starting : Place  -- before the send of `run.started`
  looping : Place  -- inside the factory
  returned : Option String → Place  -- before the lock
  reporting : Event → Place  -- before the send of the last event
  closing : Place  -- in the deferred function
  finished : Place

-- `runState`. The mutex of a run is held across a part of `Interrupt` only by the call whose event is
-- in `interrupting`.
pub record Run : Type 0 where
  pub status : Status
  pub context : Option ContextError
  pub events : Channel Event
  pub started_at : Time
  pub ended_at : Option Time
  pub err : String
  pub place : Place
  pub interrupting : Option Event

abbrev pub capacity : ℕ
capacity = 64

-- the run that `Dispatch` sets up, under a parent context that may be done already
unfoldable pub new_run : Time → Option ContextError → Run
unfolding make
new_run now parent = record {
  status = running;
  context = parent;
  events = make capacity;
  started_at = now;
  ended_at = none;
  err = "";
  place = starting;
  interrupting = none;
}

-- an event that `executeRun` makes
abbrev pub lifecycle : String → String → String → Time → Event
lifecycle event_type content run_id now = record {
  event_type = event_type;
  content = content;
  id = run_id;
  name = "";
  arguments = "";
  result = "";
  position = 0;
  timestamp = now;
}

-- the event of the end of a run gets the time at which it is sent, after the lock has been given up
abbrev pub stamped : Time → Event → Event
stamped now ev = record ev { timestamp = now }

-- a send by the goroutine of the run, which goes on at `next`
unfoldable pub send_and_go : Event → Place → Run → Outcome Run
unfolding after
send_and_go ev next r = after (send ev r.events) (λ c. record r { events = c; place = next })

-- `ctx.Err() == context.Canceled && rs.status == "cancelled"`
unfoldable pub was_cancelled : Option ContextError → Status → Bool
was_cancelled (some canceled) cancelled = true
was_cancelled _ _ = false

-- the part of `executeRun` under the lock, after the factory has returned
unfoldable pub settle : Time → String → Option String → Run → Run
unfolding was_cancelled
settle now run_id none r = record r {
  status = completed;
  ended_at = some now;
  place = reporting (lifecycle event_run_completed "" run_id now);
}
settle now run_id (some text) r =
    if was_cancelled r.context r.status
    then record r {
      ended_at = some now;
      place = reporting (lifecycle event_error "run cancelled" run_id now);
    }
    else record r {
      status = failed;
      err = text;
      ended_at = some now;
      place = reporting (lifecycle event_error text run_id now);
    }

-- the deferred function, which waits while an `Interrupt` holds the run's mutex
unfoldable pub close_events : Run → Outcome Run
unfolding close after
close_events r = elim r.interrupting [
  | some _ ↦ blocked
  | none ↦ after (close r.events) (λ c. record r { events = c; place = finished })
]

-- What the factory does next: it sends an event, or returns.
pub data Choice : Type 0 where
  emit : Event → Choice
  return : Option String → Choice

-- One step of the goroutine of `executeRun`, from a place.
unfoldable pub execute_at : Place → Choice → Time → String → Run → Outcome Run
unfolding send_and_go settle close_events
execute_at starting choice now run_id r =
    send_and_go (lifecycle event_run_started "" run_id now) looping r
execute_at looping (emit ev) now run_id r = send_and_go ev looping r
execute_at looping (return result) now run_id r = done (record r { place = returned result })
execute_at (returned result) choice now run_id r = done (settle now run_id result r)
execute_at (reporting ev) choice now run_id r = send_and_go (stamped now ev) closing r
execute_at closing choice now run_id r = close_events r
execute_at finished choice now run_id r = blocked

unfoldable pub execute : Choice → Time → String → Run → Outcome Run
unfolding execute_at
execute choice now run_id r = execute_at r.place choice now run_id r

-- `rs.status != "running"`
abbrev pub is_running : Status → Bool
is_running running = true
is_running _ = false

-- `Interrupt` up to its send: it has taken the mutex and passed both tests, or returns an error
unfoldable pub begin_interrupt : Event → Run → Result HarnessError Run
begin_interrupt ev r =
    if r.events.closed
    then err run_not_active
    else if is_running r.status
    then ok (record r { interrupting = some ev })
    else err run_not_active

-- the `select` of `Interrupt`, and the unlock: the event is sent, or dropped when the buffer is full
unfoldable pub end_interrupt : Run → Outcome (Bool × Run)
unfolding send
end_interrupt r = elim r.interrupting [
  | none ↦ blocked
  | some ev ↦ elim (send ev r.events) [
    | done c ↦ done (true, record r { events = c; interrupting = none })
    | blocked ↦ done (false, record r { interrupting = none })
    | panicked ↦ panicked
  ]
]

-- `Cancel` of a run that is there
unfoldable pub cancel_run : Run → Result HarnessError Run
cancel_run r =
    if is_running r.status
    then ok (record r { status = cancelled; context = cancel_context r.context })
    else err run_not_active

-- `Next` of the stream that `Dispatch` returned
unfoldable pub next : Run → Outcome (Receipt Event × Run)
unfolding receive after
next r = after (receive r.events) (λ z. (z.0, record r { events = z.1 }))
