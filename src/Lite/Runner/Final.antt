-- ===== src/Lite/Runner/Final.antt =====
-- harness/lite/runner.go: the recorded outcome of a run.
use openharness.Prelude.{sym, String, Bool, ◌≡◌, ◌≢◌, refl, ◌∙◌, Option, none, List, inl, inr}
use openharness.Prelude.Channel.{done, Channel}
use openharness.Harness.Types.{Time, Event}
use mathlib.Core.Path.{subst}
use openharness.Prelude.Context.{ContextError}
use openharness.Lite.Runner.{
  running, Place, starting, looping, returned, reporting, closing, finished, Run, Choice, emit,
  return, execute, execute_at,
}
use openharness.Lite.Runner.Steps.{
  Step, Steps, here, more, work, ask, answer, cancel, read, expire, Reachable,
}
use openharness.Lite.Runner.Outcomes.{
  send_and_go_done, close_events_done, end_interrupt_done, next_done, cancel_run_done,
  begin_interrupt_done,
}
use openharness.Lite.Runner.Invariant.{IsAt, IsValid}
use openharness.Lite.Runner.Preservation.{Step-IsValid, Reachable-IsValid}

-- The fields that `Status` reports are the same.
record SameOutcome (r s : Run) : Type 0 where
  status : s.status ≡ r.status
  ended_at : s.ended_at ≡ r.ended_at
  err : s.err ≡ r.err
  started_at : s.started_at ≡ r.started_at

keeping :
    (r : Run) (context : Option ContextError) (events : Channel Event) (place : Place)
    (interrupting : Option Event)
    → SameOutcome r (record r {
      context = context;
      events = events;
      place = place;
      interrupting = interrupting;
    })
keeping r context events place interrupting = record {
  status = refl;
  ended_at = refl;
  err = refl;
  started_at = refl;
}

execute_at-Same :
    (p : Place) (c : Choice) (now : Time) (run_id : String) (r s : Run)
    → IsAt p r.status r.ended_at r.events.closed r.events.sent
    → r.ended_at ≢ none
    → execute_at p c now run_id r ≡ done s
    → SameOutcome r s
unfolding execute_at
execute_at-Same starting c now run_id r s h ended e = absurd (ended h.1)
execute_at-Same looping (emit ev) now run_id r s h ended e = absurd (ended h.1)
execute_at-Same looping (return result) now run_id r s h ended e = absurd (ended h.1)
execute_at-Same (returned result) c now run_id r s h ended e = absurd (ended h.1)
execute_at-Same (reporting ev) c now run_id r s h ended e =
    let (_, _, s_is) = send_and_go_done _ closing r s e in rw s_is (keeping r _ _ _ _)
execute_at-Same closing c now run_id r s h ended e =
    let (_, _, s_is) = close_events_done r s e in rw s_is (keeping r _ _ _ _)
execute_at-Same finished c now run_id r s h ended e = absurd (cc)

running_has_not_ended :
    (p : Place) (ended : Option Time) (closed : Bool) (sent : List Event)
    → IsAt p running ended closed sent
    → ended ≡ none
running_has_not_ended starting ended closed sent h = h.1
running_has_not_ended looping ended closed sent h = h.1
running_has_not_ended (returned _) ended closed sent h = h.1
running_has_not_ended (reporting _) ended closed sent h = absurd h.0
running_has_not_ended closing ended closed sent h = absurd h.0.1
running_has_not_ended finished ended closed sent h = absurd h.0.1

Step-Same :
    (run_id : String) (r s : Run)
    → IsValid r
    → r.ended_at ≢ none
    → Step run_id r s
    → SameOutcome r s
unfolding execute
Step-Same run_id r s v ended (work c now e) = execute_at-Same r.place c now run_id r s v.at ended e
Step-Same run_id r s v ended (ask ev free e) =
    let (_, _, s_is) = begin_interrupt_done ev r s e in rw s_is (keeping r _ _ _ _)
Step-Same run_id r s v ended (answer b e) =
    let (_, _, how) = end_interrupt_done b r s e in
    elim how [
      | inl (_, _, s_is) ↦ rw s_is (keeping r _ _ _ _)
      | inr (_, s_is) ↦ rw s_is (keeping r _ _ _ _)
    ]
Step-Same run_id r s v ended (cancel e) =
    let (on, _) = cancel_run_done r s e in
    absurd (
      ended (
        running_has_not_ended r.place r.ended_at r.events.closed r.events.sent
          (subst (λ q. IsAt r.place q r.ended_at r.events.closed r.events.sent) on v.at)))
Step-Same run_id r s v ended (read x e) =
    let (_, _, s_is) = next_done x r s e in rw s_is (keeping r _ _ _ _)
Step-Same run_id r s v ended (expire x unset s_is) = rw s_is (keeping r _ _ _ _)

Steps-Same :
    {run_id : String} {r s : Run}
    → IsValid r
    → r.ended_at ≢ none
    → Steps run_id r s
    → SameOutcome r s
Steps-Same {s} v ended here = keeping s _ _ _ _
Steps-Same {run_id} {r} {s} v ended (more {s = t} step rest) =
    let a = Step-Same run_id r t v ended step in
    let b = Steps-Same (Step-IsValid run_id r t v step) (λ e. ended (sym a.ended_at ∙ e)) rest in
    record {
      status = b.status ∙ a.status;
      ended_at = b.ended_at ∙ a.ended_at;
      err = b.err ∙ a.err;
      started_at = b.started_at ∙ a.started_at;
    }

-- Once the end of a dispatched run is recorded, no step changes its status, its times or its error,
-- whatever is cancelled or interrupted later.
pub outcome_is_final :
    (run_id : String) (r s : Run)
    → Reachable run_id r
    → r.ended_at ≢ none
    → Steps run_id r s
    → (s.status ≡ r.status)
      × (s.ended_at ≡ r.ended_at)
      × (s.err ≡ r.err)
      × (s.started_at ≡ r.started_at)
outcome_is_final run_id r s reached ended steps =
    let h = Steps-Same (Reachable-IsValid run_id r reached) ended steps in
    (h.status, h.ended_at, h.err, h.started_at)
