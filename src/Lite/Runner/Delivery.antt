-- ===== src/Lite/Runner/Delivery.antt =====
-- harness/lite/runner.go: the channel of a run never panics, and its reader gets every event.
use mathlib.Core.Path.{subst}
use mathlib.Core.List.{append-nil}
use openharness.Prelude.{
  String, Bool, true, false, ◌≡◌, ◌≢◌, sym, ap, ◌∙◌, Option, none, List, ◌++◌, Option-cases, inl,
  inr,
}
use openharness.Prelude.Channel.{
  done, panicked, after-panicked, send, send_open, close, close_open, receive_done, eof,
}
use openharness.Harness.Types.{Time, Event}
use openharness.Lite.Runner.{
  Status, Place, starting, looping, returned, reporting, closing, finished, Run, Choice, emit,
  return, send_and_go, close_events, execute_at, execute, end_interrupt, next,
}
use openharness.Lite.Runner.Steps.{Reachable}
use openharness.Lite.Runner.Outcomes.{
  close_events_held, close_events_free, end_interrupt_open, next_done,
}
use openharness.Lite.Runner.Invariant.{IsLast, IsAt, Sends, Started}
use openharness.Lite.Runner.Preservation.{Reachable-IsValid}

send_and_go_open :
    (ev : Event) (p : Place) (r : Run) → r.events.closed ≡ false → send_and_go ev p r ≢ panicked
unfolding send_and_go
send_and_go_open ev p r live e =
    send_open ev r.events live
      (after-panicked (send ev r.events) (λ c. record r { events = c; place = p }) e)

close_events_open : (r : Run) → r.events.closed ≡ false → close_events r ≢ panicked
close_events_open r live e = elim (Option-cases r.interrupting) [
  | inl free ↦ cc (
    close_open r.events live,
    after-panicked (close r.events) (λ c. record r { events = c; place = finished })
        (sym (close_events_free r free) ∙ e),
  )
  | inr (ev, held) ↦ cc (close_events_held r ev held)
]

execute_at_open :
    (p : Place) (c : Choice) (now : Time) (run_id : String) (r : Run)
    → IsAt p r.status r.ended_at r.events.closed r.events.sent
    → execute_at p c now run_id r ≢ panicked
unfolding execute_at
execute_at_open starting c now run_id r h = send_and_go_open _ _ r h.2
execute_at_open looping (emit ev) now run_id r h = send_and_go_open ev _ r h.2
execute_at_open looping (return result) now run_id r h = λ e. cc
execute_at_open (returned result) c now run_id r h = λ e. cc
execute_at_open (reporting ev) c now run_id r h = send_and_go_open _ _ r h.2
execute_at_open closing c now run_id r h = close_events_open r h.2
execute_at_open finished c now run_id r h = λ e. cc

-- In no state that a dispatched run can come to does its goroutine or a call of `Interrupt` send on
-- the closed channel or close it again: neither of them panics.
pub no_panic :
    (run_id : String) (r : Run)
    → Reachable run_id r
    → ((c : Choice) (now : Time) → execute c now run_id r ≢ panicked) × (end_interrupt r ≢ panicked)
unfolding execute
no_panic run_id r reached =
    let v = Reachable-IsValid run_id r reached in
    (λ c now. execute_at_open r.place c now run_id r v.at, end_interrupt_open r v.held)

IsAt-closed :
    (p : Place) (status : Status) (ended : Option Time) (closed : Bool) (sent : List Event)
    → IsAt p status ended closed sent
    → closed ≡ true
    → Sends (IsLast status) sent × (ended ≢ none) × Started sent
IsAt-closed starting status ended closed sent h shut = absurd (cc (h.2))
IsAt-closed looping status ended closed sent h shut = absurd (cc (h.2))
IsAt-closed (returned _) status ended closed sent h shut = absurd (cc (h.2))
IsAt-closed (reporting _) status ended closed sent h shut = absurd (cc (h.2))
IsAt-closed closing status ended closed sent h shut = absurd (cc (h.2))
IsAt-closed finished status ended closed sent h shut = (h.0, h.1, h.3)

-- In every state that a dispatched run can come to: when `Next` gives the end of the stream, its
-- reader has received every event that was sent, in the order of the sends; a `run.started` is among them, and one event that fits the run's status:
-- `run.completed` when it is "completed", and `error` when it is "error" or "cancelled".
pub eof_delivers_all :
    (run_id : String) (r s : Run)
    → Reachable run_id r
    → next r ≡ done (eof, s)
    → (s.events.received ≡ s.events.sent)
      × Started s.events.received
      × Sends (IsLast s.status) s.events.received
eof_delivers_all run_id r s reached e =
    let v = Reachable-IsValid run_id r reached in
    let (c, got, s_is) = next_done eof r s e in
    elim (receive_done eof r.events c got) [
      | inl (a, rest, _, x, _) ↦ absurd (cc)
      | inr (nothing, shut, _, c_is) ↦
          let (last, _, started) =
            IsAt-closed r.place r.status r.ended_at r.events.closed r.events.sent v.at shut in
          let all : r.events.received ≡ r.events.sent = sym (
            v.sound.in_order
            ∙ (ap (λ (l : List Event). r.events.received ++ l) nothing
                ∙ append-nil r.events.received)) in
          rw s_is (
            rw c_is (
              all,
              subst Started (sym all) started,
              subst (Sends (IsLast r.status)) (sym all) last,
            ))
    ]
