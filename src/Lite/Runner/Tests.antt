-- ===== src/Lite/Runner/Tests.antt =====
-- harness/lite/runner.go: one run from its dispatch to the end of its stream.
use openharness.Prelude.{true, ◌≡◌, ◌≢◌, refl, none, some, [], ◌∷◌}
use openharness.Prelude.GoMap
use openharness.Prelude.Result.{ok}
use openharness.Prelude.Channel.{
  done, panicked, make, push, send, close, receive, after, value, eof,
}
use openharness.Harness.Types.{Time, Event, event_run_started, event_run_completed}
use openharness.Lite.Runner.{
  completed, looping, returned, reporting, closing, finished, Run, Choice, return, new_run,
  lifecycle, stamped, send_and_go, settle, close_events, execute_at, execute, end_interrupt, next,
}
use openharness.Lite.Runner.Steps.{Steps, Reachable, work, read}
use openharness.Lite.Runner.Invariant.{IsLast, Sends, Started}
use openharness.Lite.Runner.Delivery.{no_panic, eof_delivers_all}
use openharness.Lite.Runner.Progress.{can_finish}
use openharness.Lite.Runner.Runs
use openharness.Lite.Runner.Runs.{
  report_of, LiteRunner, new_lite_runner, dispatch, Moves, dispatched, stepped,
}
use openharness.Lite.Runner.Reports.{report_is_final}

abbrev started : Event
started = lifecycle event_run_started "" "a" 2

abbrev ended : Event
ended = lifecycle event_run_completed "" "a" 3

-- as it is sent
abbrev reported : Event
reported = stamped 4 ended

-- dispatched, started, returned from the factory, settled, reported, closed
abbrev at_dispatch : Run
at_dispatch = new_run 1 none

abbrev at_loop : Run
at_loop = record at_dispatch { events = push started at_dispatch.events; place = looping }

abbrev at_return : Run
at_return = record at_loop { place = returned none }

abbrev at_report : Run
at_report = record at_return { status = completed; ended_at = some 3; place = reporting ended }

abbrev at_close : Run
at_close = record at_report { events = push reported at_report.events; place = closing }

abbrev at_end : Run
at_end = record at_close { events = record at_close.events { closed = true }; place = finished }

abbrev all_read : Run
all_read = record at_end {
  events = record at_end.events { buffer = []; received = started ∷ reported ∷ [] };
}

abbrev one_read : Run
one_read = record at_end {
  events = record at_end.events { buffer = reported ∷ []; received = started ∷ [] };
}

to_report : Steps "a" at_dispatch at_report
unfolding execute execute_at send_and_go settle after send push make new_run
to_report =
    Steps.more (work (return none) 2 refl)
      (Steps.more (work (return none) 2 refl) (Steps.more (work (return none) 3 refl) Steps.here))

from_report : Steps "a" at_report all_read
unfolding execute execute_at send_and_go close_events close next receive after send push make
    new_run
from_report = Steps.more (work (return none) 4 refl) (
    Steps.more (work (return none) 4 refl) (
      Steps.more {s = one_read} (read (value started) refl)
        (Steps.more (read (value reported) refl) Steps.here)))

join : {r s t : Run} → Steps "a" r s → Steps "a" s t → Steps "a" r t
join Steps.here rest = rest
join (Steps.more first steps) rest = Steps.more first (join steps rest)

report-Reachable : Reachable "a" at_report
report-Reachable = (1, none, to_report)

read-Reachable : Reachable "a" all_read
read-Reachable = (1, none, join to_report from_report)

no_panic_example :
    ((c : Choice) (now : Time) → execute c now "a" at_report ≢ panicked)
    × (end_interrupt at_report ≢ panicked)
no_panic_example = no_panic "a" at_report report-Reachable

read_eof : next all_read ≡ done (eof, all_read)
unfolding next receive after push make new_run
read_eof = refl

eof_delivers_all_example :
    (all_read.events.received ≡ all_read.events.sent)
    × Started all_read.events.received
    × Sends (IsLast all_read.status) all_read.events.received
eof_delivers_all_example = eof_delivers_all "a" all_read all_read read-Reachable read_eof

can_finish_example :
    (s : Run) × Steps "a" at_report s × (s.place ≡ finished) × (s.events.buffer ≡ [])
can_finish_example = can_finish 5 "a" at_report report-Reachable

report_has_ended : at_report.ended_at ≢ none
report_has_ended e = cc

-- the runner at these moments
abbrev runner_at : Run → LiteRunner
runner_at run = record { runs = record { items = ("a", run) ∷ [] } }

lift : {r s : Run} → Steps "a" r s → Moves (runner_at r) (runner_at s)
unfolding GoMap.get GoMap.put GoMap.find
lift Steps.here = Moves.here
lift {r} {s} (Steps.more {s = t} step rest) =
    Moves.more (stepped "a" r t refl step refl) (lift rest)

dispatched-Moves : Moves new_lite_runner (runner_at at_dispatch)
unfolding dispatch new_lite_runner GoMap.get GoMap.put GoMap.empty
dispatched-Moves = Moves.more (dispatched 1 none "a" refl) Moves.here

join-Moves : {r s t : LiteRunner} → Moves r s → Moves s t → Moves r t
join-Moves Moves.here rest = rest
join-Moves (Moves.more first moves) rest = Moves.more first (join-Moves moves rest)

to_report-Moves : Moves new_lite_runner (runner_at at_report)
to_report-Moves = join-Moves dispatched-Moves (lift to_report)

report_found : GoMap.get (runner_at at_report).runs "a" ≡ some at_report
unfolding GoMap.get
report_found = refl

status_at_report : Runs.status "a" (runner_at at_report) ≡ ok (report_of "a" at_report)
unfolding Runs.status GoMap.get
status_at_report = refl

report_is_final_example : Runs.status "a" (runner_at all_read) ≡ ok (report_of "a" at_report)
report_is_final_example =
    report_is_final (runner_at at_report) (runner_at all_read) "a" (report_of "a" at_report)
      to_report-Moves status_at_report report_has_ended (lift from_report)

dispatched_once : dispatch 1 none "a" new_lite_runner ≡ ok (runner_at at_dispatch)
unfolding dispatch new_lite_runner GoMap.get GoMap.put GoMap.empty
dispatched_once = refl
