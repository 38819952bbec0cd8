-- ===== src/Lite/Runner/Runs.antt =====
-- harness/lite/runner.go: the map of runs, and the methods of `LiteRunner` on it.
use openharness.Prelude.{String, ◌≡◌, Option, none, some}
use openharness.Prelude.GoMap
use openharness.Prelude.GoMap.{GoMap}
use openharness.Prelude.Result.{Result, ok, err}
use openharness.Harness.Errors.{HarnessError, not_found, conflict}
use openharness.Harness.Types.{Time, Event, RunStatus}
use openharness.Prelude.Context.{ContextError}
use openharness.Lite.Runner.{Run, new_run, status_text, cancel_run, begin_interrupt}
use openharness.Lite.Runner.Steps.{Step}

pub record LiteRunner : Type 0 where
  pub runs : GoMap Run

unfoldable pub new_lite_runner : LiteRunner
unfolding GoMap.empty
new_lite_runner = record { runs = GoMap.empty }

-- `Dispatch`: the run is stored, and its goroutine starts
unfoldable pub dispatch :
    Time → Option ContextError → String → LiteRunner → Result HarnessError LiteRunner
unfolding GoMap.get GoMap.put new_run
dispatch now parent run_id r = elim (GoMap.get r.runs run_id) [
  | some _ ↦ err conflict
  | none ↦ ok (record r { runs = GoMap.put r.runs run_id (new_run now parent) })
]

-- `Resume`
abbrev pub resume : String → LiteRunner → Result HarnessError LiteRunner
resume run_id r = err not_found

-- a method that looks a run up and then changes it through its pointer
unfoldable pub on_run :
    (Run → Result HarnessError Run) → String → LiteRunner → Result HarnessError LiteRunner
unfolding GoMap.get GoMap.put
on_run f run_id r = elim (GoMap.get r.runs run_id) [
  | none ↦ err not_found
  | some run ↦ elim (f run) [
    | ok after ↦ ok (record r { runs = GoMap.put r.runs run_id after })
    | err e ↦ err e
  ]
]

-- `Interrupt` up to its send
abbrev pub interrupt : Event → String → LiteRunner → Result HarnessError LiteRunner
interrupt ev run_id r = on_run (begin_interrupt ev) run_id r

-- `Cancel`
abbrev pub cancel : String → LiteRunner → Result HarnessError LiteRunner
cancel run_id r = on_run cancel_run run_id r

abbrev pub report_of : String → Run → RunStatus
report_of run_id run = record {
  run_id = run_id;
  session_id = "";
  status = status_text run.status;
  started_at = run.started_at;
  ended_at = run.ended_at;
  error = run.err;
}

-- `Status`
unfoldable pub status : String → LiteRunner → Result HarnessError RunStatus
unfolding GoMap.get
status run_id r = elim (GoMap.get r.runs run_id) [
  | none ↦ err not_found
  | some run ↦ ok (report_of run_id run)
]

-- What can happen to a `LiteRunner`: a call that goes through, or a step of one of its runs, that is
-- of its goroutine, of the reader of its events or of an `Interrupt` that holds its mutex.
pub data Move (r s : LiteRunner) : Type 0 where
  dispatched :
      (now : Time) (ctx : Option ContextError) (run_id : String)
      → dispatch now ctx run_id r ≡ ok s
      → Move r s
  cancelled : (run_id : String) → cancel run_id r ≡ ok s → Move r s
  stepped :
      (run_id : String) (before after : Run)
      → GoMap.get r.runs run_id ≡ some before
      → Step run_id before after
      → s ≡ record r { runs = GoMap.put r.runs run_id after }
      → Move r s

pub data Moves : LiteRunner → LiteRunner → Type 0 where
  here : {r : LiteRunner} → Moves r r
  more : {r s t : LiteRunner} → Move r s → Moves s t → Moves r t
