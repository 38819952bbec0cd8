-- ===== src/Lite/Runner/Steps.antt =====
-- harness/lite/runner.go: the goroutines of one run, interleaved in any order.
use openharness.Prelude.{String, Bool, ◌≡◌, Option, none, some}
use openharness.Prelude.Result.{ok}
use openharness.Prelude.Channel.{done, Receipt}
use openharness.Harness.Types.{Time, Event}
use openharness.Prelude.Context.{ContextError}
use openharness.Lite.Runner
use openharness.Lite.Runner.{
  Run, Choice, new_run, execute, begin_interrupt, end_interrupt, cancel_run, next,
}

-- One step of some goroutine that has to do with the run: its own, a call of `Interrupt` in two
-- parts, of `Cancel` or of `Next`, or the end of the parent context.
pub data Step (run_id : String) (r s : Run) : Type 0 where
  work : (c : Choice) (now : Time) → Runner.execute c now run_id r ≡ done s → Step run_id r s
  ask : (ev : Event) → r.interrupting ≡ none → begin_interrupt ev r ≡ ok s → Step run_id r s
  answer : (sent : Bool) → end_interrupt r ≡ done (sent, s) → Step run_id r s
  cancel : cancel_run r ≡ ok s → Step run_id r s
  read : (x : Receipt Event) → Runner.next r ≡ done (x, s) → Step run_id r s
  expire :
      (e : ContextError) → r.context ≡ none → s ≡ record r { context = some e } → Step run_id r s

pub data Steps (run_id : String) : Run → Run → Type 0 where
  here : {r : Run} → Steps run_id r r
  more : {r s t : Run} → Step run_id r s → Steps run_id s t → Steps run_id r t

-- A state that a dispatched run can come to.
abbrev pub Reachable : String → Run → Type 0
Reachable run_id r =
    (now : Time) × (parent : Option ContextError) × Steps run_id (new_run now parent) r
