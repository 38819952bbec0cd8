-- ===== src/Lite/Runner/Preservation.antt =====
-- harness/lite/runner.go: every step of a run keeps its invariant.
use mathlib.Core.Path.{subst}
use openharness.Prelude.{
  String, Bool, true, ◌≡◌, refl, Option, none, some, [], ◌∷◌, ◌++◌, Has-last, arith, Bool-cases,
  inl, inr,
}
use openharness.Prelude.Channel.{
  receive_done, done, make, push, Receipt, IsSound-push, IsSound-shift,
}
use openharness.Harness.Types.{Time, Event, event_run_started, event_error}
use openharness.Prelude.Context.{ContextError, canceled, deadline_exceeded}
use openharness.Lite.Runner.Outcomes.{
  send_and_go_done, end_interrupt_done, close_events_done, next_done, cancel_run_done,
  begin_interrupt_done,
}
use openharness.Lite.Runner.Steps.{
  Step, Steps, work, ask, answer, cancel, read, expire, here, more, Reachable,
}
use openharness.Lite.Runner.{
  Choice, emit, return, execute, execute_at, close_events, next, was_cancelled, lifecycle, stamped,
  new_run, send_and_go, settle, end_interrupt, Status, running, cancelled, completed, failed, Place,
  starting, looping, returned, reporting, closing, finished, Run,
}
use openharness.Lite.Runner.Invariant.{
  IsLast, IsLast-stamped, IsAt, IsValid, IsAt-push, IsAt-cancel, placed,
}

pub new_run-IsValid : (now : Time) (parent : Option ContextError) → IsValid (new_run now parent)
unfolding new_run make
new_run-IsValid now parent = record {
  sound = record { bounded = omega arith; in_order = refl };
  room = omega arith;
  held = λ ev e. refl;
  at = (tt, refl, refl);
}

send_and_go-IsValid :
    (ev : Event) (next : Place) (r s : Run)
    → IsValid r
    → IsAt next r.status r.ended_at r.events.closed (r.events.sent ++ ev ∷ [])
    → send_and_go ev next r ≡ done s
    → IsValid s
unfolding push
send_and_go-IsValid ev next r s v at e =
    let (live, room, s_is) = send_and_go_done ev next r s e in
    rw s_is record {
      sound = IsSound-push ev r.events v.sound room;
      room = v.room;
      held = v.held;
      at = at;
    }

end_interrupt-IsValid :
    (b : Bool) (r s : Run) → IsValid r → end_interrupt r ≡ done (b, s) → IsValid s
unfolding push
end_interrupt-IsValid b r s v e =
    let (ev, held, how) = end_interrupt_done b r s e in
    elim how [
      | inl (_, room, s_is) ↦ rw s_is record {
        sound = IsSound-push ev r.events v.sound room;
        room = v.room;
        held = λ _ _. v.held ev held;
        at = IsAt-push ev r.place r.status r.ended_at r.events.closed r.events.sent v.at;
      }
      | inr (_, s_is) ↦
          rw s_is record { sound = v.sound; room = v.room; held = λ _ _. v.held ev held; at = v.at }
    ]

close_events-IsValid :
    (r s : Run) → IsValid r → r.place ≡ closing → close_events r ≡ done s → IsValid s
close_events-IsValid r s v at e =
    let (free, live, s_is) = close_events_done r s e in
    let (l, ended, _, started) = placed r closing v at in
    rw s_is record {
      sound = record { bounded = v.sound.bounded; in_order = v.sound.in_order };
      room = v.room;
      held = λ ev held. absurd (cc);
      at = (l, ended, refl, started);
    }

next-IsValid : (x : Receipt Event) (r s : Run) → IsValid r → next r ≡ done (x, s) → IsValid s
next-IsValid x r s v e =
    let (c, got, s_is) = next_done x r s e in
    rw s_is (elim (receive_done x r.events c got) [
      | inl (a, rest, front, _, c_is) ↦ rw c_is record {
        sound = IsSound-shift a rest r.events v.sound front;
        room = v.room;
        held = v.held;
        at = v.at;
      }
      | inr (_, _, _, c_is) ↦ rw c_is v
    ])

IsLast-of_cancelled :
    (context : Option ContextError) (status : Status) (ev : Event)
    → was_cancelled context status ≡ true
    → ev.event_type ≡ event_error
    → IsLast status ev
unfolding was_cancelled
IsLast-of_cancelled (some canceled) cancelled ev gone e = e
IsLast-of_cancelled (some canceled) running ev gone e = absurd (cc)
IsLast-of_cancelled (some canceled) completed ev gone e = absurd (cc)
IsLast-of_cancelled (some canceled) failed ev gone e = absurd (cc)
IsLast-of_cancelled (some deadline_exceeded) status ev gone e = absurd (cc)
IsLast-of_cancelled none status ev gone e = absurd (cc)

settle-IsValid :
    (now : Time) (run_id : String) (result : Option String) (r : Run)
    → IsValid r
    → r.place ≡ returned result
    → IsValid (settle now run_id result r)
unfolding settle
settle-IsValid now run_id none r v at =
    let (o, e, live, started) = placed r (returned none) v at in
    record { sound = v.sound; room = v.room; held = v.held; at = (refl, λ e. cc, live, started) }
settle-IsValid now run_id (some text) r v at =
    let (o, e, live, started) = placed r (returned (some text)) v at in
    elim (Bool-cases (was_cancelled r.context r.status)) [
      | inl gone ↦
          rw (gone, settle)
            record {
              sound = v.sound;
              room = v.room;
              held = v.held;
              at = (
                IsLast-of_cancelled r.context r.status
                    (lifecycle event_error "run cancelled" run_id now) gone refl,
                λ e. cc,
                live,
                started,
              );
            }
      | inr stays ↦
          rw (stays, settle)
            record {
              sound = v.sound;
              room = v.room;
              held = v.held;
              at = (refl, λ e. cc, live, started);
            }
    ]

execute_at-IsValid :
    (p : Place) (c : Choice) (now : Time) (run_id : String) (r s : Run)
    → IsValid r
    → r.place ≡ p
    → execute_at p c now run_id r ≡ done s
    → IsValid s
unfolding execute_at
execute_at-IsValid starting c now run_id r s v at e =
    let (o, ended, live) = placed r starting v at in
    let ev = lifecycle event_run_started "" run_id now in
    send_and_go-IsValid ev looping r s v (o, ended, live, (ev, refl, Has-last ev r.events.sent)) e
execute_at-IsValid looping (emit ev) now run_id r s v at e =
    send_and_go-IsValid ev looping r s v
      (IsAt-push ev looping r.status r.ended_at r.events.closed r.events.sent
        (placed r looping v at))
      e
execute_at-IsValid looping (return result) now run_id r s v at e =
    let s_is : s ≡ record r { place = returned result } = cc in
    rw s_is record { sound = v.sound; room = v.room; held = v.held; at = placed r looping v at }
execute_at-IsValid (returned result) c now run_id r s v at e =
    let s_is : s ≡ settle now run_id result r = cc in
    rw s_is (settle-IsValid now run_id result r v at)
execute_at-IsValid (reporting ev) c now run_id r s v at e =
    let (last, ended, live, started) =
      IsAt-push (stamped now ev) (reporting ev) r.status r.ended_at r.events.closed r.events.sent
        (placed r (reporting ev) v at) in
    send_and_go-IsValid (stamped now ev) closing r s v
      (
        (
          stamped now ev,
          IsLast-stamped r.status now ev last,
          Has-last (stamped now ev) r.events.sent,
        ),
        ended,
        live,
        started,
      )
      e
execute_at-IsValid closing c now run_id r s v at e = close_events-IsValid r s v at e
execute_at-IsValid finished c now run_id r s v at e = absurd (cc)

pub Step-IsValid : (run_id : String) (r s : Run) → IsValid r → Step run_id r s → IsValid s
unfolding execute
Step-IsValid run_id r s v (work c now e) = execute_at-IsValid r.place c now run_id r s v refl e
Step-IsValid run_id r s v (ask ev free e) =
    let (live, on, s_is) = begin_interrupt_done ev r s e in
    rw s_is record { sound = v.sound; room = v.room; held = λ _ _. live; at = v.at }
Step-IsValid run_id r s v (answer b e) = end_interrupt-IsValid b r s v e
Step-IsValid run_id r s v (cancel e) =
    let (on, s_is) = cancel_run_done r s e in
    rw s_is record {
      sound = v.sound;
      room = v.room;
      held = v.held;
      at =
          IsAt-cancel r.place r.ended_at r.events.closed r.events.sent
            (subst (λ q. IsAt r.place q r.ended_at r.events.closed r.events.sent) on v.at);
    }
Step-IsValid run_id r s v (read x e) = next-IsValid x r s v e
Step-IsValid run_id r s v (expire e unset s_is) =
    rw s_is record { sound = v.sound; room = v.room; held = v.held; at = v.at }

pub Steps-IsValid : {run_id : String} {r s : Run} → IsValid r → Steps run_id r s → IsValid s
Steps-IsValid v here = v
Steps-IsValid {run_id} {r} {s} v (more {s = next} step rest) =
    Steps-IsValid (Step-IsValid run_id r next v step) rest

pub Reachable-IsValid : (run_id : String) (r : Run) → Reachable run_id r → IsValid r
Reachable-IsValid run_id r (now, parent, steps) = Steps-IsValid (new_run-IsValid now parent) steps
