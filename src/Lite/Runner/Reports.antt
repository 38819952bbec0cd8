-- ===== src/Lite/Runner/Reports.antt =====
-- harness/lite/runner.go: what `Dispatch` and `Status` promise of a runner with many runs.
use openharness.Prelude.{
  String, ◌≡◌, ◌≢◌, refl, sym, ap, ◌∙◌, Option, none, some, Option-cases, inl, inr,
}
use openharness.Prelude.GoMap
use openharness.Prelude.GoMap.{GoMap, get-empty, get-put_self, get-put_ne, get-put_cases}
use openharness.Prelude.Result.{ok, err}
use openharness.Harness.Errors.{conflict}
use openharness.Harness.Types.{Time, RunStatus}
use openharness.Prelude.Context.{ContextError}
use openharness.Lite.Runner.{Run, new_run}
use openharness.Lite.Runner.Steps.{Reachable}
use openharness.Lite.Runner.Final.{outcome_is_final}
use openharness.Lite.Runner.Runs
use openharness.Lite.Runner.Runs.{
  report_of, LiteRunner, new_lite_runner, dispatch, on_run, Move, Moves, dispatched, cancelled,
  stepped, here, more,
}
use openharness.Lite.Runner.Isolation.{
  dispatch_taken, dispatch_free, Moves-keep, Moves-AllReachable,
}

-- Every run of a runner that began empty is in a state that a dispatched run alone can come to,
-- whatever is dispatched, cancelled, interrupted, read and worked on, in whatever order.
pub runs-Reachable :
    (r : LiteRunner) (id : String) (run : Run)
    → Moves new_lite_runner r
    → GoMap.get r.runs id ≡ some run
    → Reachable id run
unfolding new_lite_runner
runs-Reachable r id run moves =
    Moves-AllReachable moves (λ j x found. absurd (cc (get-empty j))) id run

report_of_same :
    (id : String) (r s : Run)
    → s.status ≡ r.status
    → s.ended_at ≡ r.ended_at
    → s.err ≡ r.err
    → s.started_at ≡ r.started_at
    → report_of id s ≡ report_of id r
report_of_same id r s a b c d = rw a (rw b (rw c (rw d refl)))

status_found :
    (id : String) (r : LiteRunner) (report : RunStatus)
    → Runs.status id r ≡ ok report
    → (run : Run) × (GoMap.get r.runs id ≡ some run) × (report ≡ report_of id run)
unfolding Runs.status report_of
status_found id r report e = elim (Option-cases (GoMap.get r.runs id)) [
  | inl free ↦ absurd (cc (rw (free, Runs.status) at e))
  | inr (run, found) ↦ (run, found, cc (rw (found, Runs.status) at e))
]

status_of_found :
    (id : String) (r : LiteRunner) (run : Run)
    → GoMap.get r.runs id ≡ some run
    → Runs.status id r ≡ ok (report_of id run)
unfolding Runs.status
status_of_found id r run found = rw (found, Runs.status) refl

-- Once `Status` of a runner that began empty reports a run with an end time, it gives that same report
-- ever after, whatever happens to the runner.
pub report_is_final :
    (r s : LiteRunner) (id : String) (report : RunStatus)
    → Moves new_lite_runner r
    → Runs.status id r ≡ ok report
    → report.ended_at ≢ none
    → Moves r s
    → Runs.status id s ≡ ok report
unfolding report_of
report_is_final r s id report before e ended later =
    let (run, found, is) = status_found id r report e in
    let (run', found', steps) = Moves-keep id run later found in
    let over : run.ended_at ≢ none = rw is at ended in
    let (a, b, c, d) =
      outcome_is_final id run run' (runs-Reachable r id run before found) over steps in
    status_of_found id s run' found'
    ∙ ap (λ (x : RunStatus). ok x) (report_of_same id run run' a b c d ∙ sym is)

-- A run ID that has been dispatched is never free again: a later `Dispatch` of it is refused with
-- `ErrConflict`.
pub run_id_is_taken :
    (now now' : Time) (ctx ctx' : Option ContextError) (id : String) (r s t : LiteRunner)
    → dispatch now ctx id r ≡ ok s
    → Moves s t
    → dispatch now' ctx' id t ≡ err conflict
run_id_is_taken now now' ctx ctx' id r s t e later = elim (Option-cases (GoMap.get r.runs id)) [
  | inr (run, taken) ↦ absurd (cc (dispatch_taken now ctx id r run taken))
  | inl free ↦
      let s_is : s ≡ record r { runs = GoMap.put r.runs id (new_run now ctx) } =
        cc (dispatch_free now ctx id r free) in
      let (run, found, _) =
        Moves-keep id (new_run now ctx) later
          (rw s_is (get-put_self r.runs id (new_run now ctx))) in
      dispatch_taken now' ctx' id t run found
]
