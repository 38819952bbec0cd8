-- ===== src/Lite/Runner/Invariant.antt =====
-- harness/lite/runner.go: what holds of a run in every state it can come to.
use mathlib.Core.Path.{subst}
use openharness.Prelude.{
  ◌<◌, Bool, true, false, ◌≡◌, ◌≢◌, Option, none, some, List, [], ◌∷◌, ◌++◌, Has, Has-push,
}
use openharness.Prelude.Channel.{IsSound}
use openharness.Harness.Types.{Time, Event, event_run_started, event_run_completed, event_error}
use openharness.Lite.Runner.{
  Status, running, cancelled, completed, failed, Place, starting, looping, returned, reporting,
  closing, finished, Run, stamped,
}

-- the type of the last event of a run with this final status
abbrev pub IsLast : Status → Event → Type 0
IsLast running ev = ⊥
IsLast cancelled ev = ev.event_type ≡ event_error
IsLast completed ev = ev.event_type ≡ event_run_completed
IsLast failed ev = ev.event_type ≡ event_error

-- a status before the factory's result is recorded
abbrev pub IsOpen : Status → Type 0
IsOpen running = Unit {0}
IsOpen cancelled = Unit {0}
IsOpen completed = ⊥
IsOpen failed = ⊥

pub IsLast-stamped :
    (status : Status) (now : Time) (ev : Event) → IsLast status ev → IsLast status (stamped now ev)
IsLast-stamped running now ev h = h
IsLast-stamped cancelled now ev h = h
IsLast-stamped completed now ev h = h
IsLast-stamped failed now ev h = h

abbrev pub Sends : (Event → Type 0) → List Event → Type 0
Sends P sent = (ev : Event) × P ev × Has ev sent

-- The first event has been sent.
abbrev pub Started : List Event → Type 0
Started sent = Sends (λ (ev : Event). ev.event_type ≡ event_run_started) sent

-- What the place of the goroutine says of the other fields.
abbrev pub IsAt : Place → Status → Option Time → Bool → List Event → Type 0
IsAt starting status ended closed sent = IsOpen status × (ended ≡ none) × (closed ≡ false)
IsAt looping status ended closed sent =
    IsOpen status × (ended ≡ none) × (closed ≡ false) × Started sent
IsAt (returned result) status ended closed sent =
    IsOpen status × (ended ≡ none) × (closed ≡ false) × Started sent
IsAt (reporting ev) status ended closed sent =
    IsLast status ev × (ended ≢ none) × (closed ≡ false) × Started sent
IsAt closing status ended closed sent =
    Sends (IsLast status) sent × (ended ≢ none) × (closed ≡ false) × Started sent
IsAt finished status ended closed sent =
    Sends (IsLast status) sent × (ended ≢ none) × (closed ≡ true) × Started sent

-- Whoever holds the mutex of an open run has an open channel.
pub record IsValid (r : Run) : Type 0 where
  pub sound : IsSound r.events
  pub room : 0 < r.events.capacity
  pub held : (ev : Event) → r.interrupting ≡ some ev → r.events.closed ≡ false
  pub at : IsAt r.place r.status r.ended_at r.events.closed r.events.sent

pub IsAt-push :
    (ev : Event) (p : Place) (status : Status) (ended : Option Time) (closed : Bool)
    (sent : List Event)
    → IsAt p status ended closed sent
    → IsAt p status ended closed (sent ++ ev ∷ [])
IsAt-push ev starting status ended closed sent h = h
IsAt-push ev looping status ended closed sent (o, e, c, (s, t, h)) =
    (o, e, c, (s, t, Has-push s ev sent h))
IsAt-push ev (returned _) status ended closed sent (o, e, c, (s, t, h)) =
    (o, e, c, (s, t, Has-push s ev sent h))
IsAt-push ev (reporting _) status ended closed sent (o, e, c, (s, t, h)) =
    (o, e, c, (s, t, Has-push s ev sent h))
IsAt-push ev closing status ended closed sent ((l, u, g), e, c, (s, t, h)) =
    ((l, u, Has-push l ev sent g), e, c, (s, t, Has-push s ev sent h))
IsAt-push ev finished status ended closed sent ((l, u, g), e, c, (s, t, h)) =
    ((l, u, Has-push l ev sent g), e, c, (s, t, Has-push s ev sent h))

pub IsAt-cancel :
    (p : Place) (ended : Option Time) (closed : Bool) (sent : List Event)
    → IsAt p running ended closed sent
    → IsAt p cancelled ended closed sent
IsAt-cancel starting ended closed sent h = h
IsAt-cancel looping ended closed sent h = h
IsAt-cancel (returned _) ended closed sent h = h
IsAt-cancel (reporting _) ended closed sent h = absurd h.0
IsAt-cancel closing ended closed sent h = absurd h.0.1
IsAt-cancel finished ended closed sent h = absurd h.0.1

pub placed :
    (r : Run) (p : Place)
    → IsValid r
    → r.place ≡ p
    → IsAt p r.status r.ended_at r.events.closed r.events.sent
placed r p v at = subst (λ q. IsAt q r.status r.ended_at r.events.closed r.events.sent) at v.at
