-- ===== src/Lite/Runner/Isolation.antt =====
-- harness/lite/runner.go: the runs of a `LiteRunner` side by side.
use mathlib.Core.Path.{subst}
use openharness.Prelude.{
  String, ◌≡◌, refl, ◌∙◌, Option, none, some, Option-cases, ◌⊎◌, inl, inr, Bool-cases, ◌==◌, eq_iff,
  arith,
}
use openharness.Prelude.GoMap
use openharness.Prelude.GoMap.{GoMap, get-empty, get-put_self, get-put_ne, get-put_cases}
use openharness.Prelude.Result.{Result, Result-cases, ok, err}
use openharness.Harness.Errors.{HarnessError, not_found, conflict}
use openharness.Harness.Types.{Time}
use openharness.Prelude.Context.{ContextError}
use openharness.Lite.Runner.{Run, new_run, cancel_run}
use openharness.Lite.Runner.Steps
use openharness.Lite.Runner.Steps.{Step, Steps, Reachable}
use openharness.Lite.Runner.Runs.{
  LiteRunner, dispatch, on_run, Move, Moves, dispatched, cancelled, stepped, here, more,
}

pub dispatch_taken :
    (now : Time) (ctx : Option ContextError) (id : String) (r : LiteRunner) (run : Run)
    → GoMap.get r.runs id ≡ some run
    → dispatch now ctx id r ≡ err conflict
unfolding dispatch
dispatch_taken now ctx id r run taken = rw (taken, dispatch) refl

pub dispatch_free :
    (now : Time) (ctx : Option ContextError) (id : String) (r : LiteRunner)
    → GoMap.get r.runs id ≡ none
    → dispatch now ctx id r ≡ ok (record r { runs = GoMap.put r.runs id (new_run now ctx) })
unfolding dispatch
dispatch_free now ctx id r free = rw (free, dispatch) refl

on_run_missing :
    (f : Run → Result HarnessError Run) (id : String) (r : LiteRunner)
    → GoMap.get r.runs id ≡ none
    → on_run f id r ≡ err not_found
unfolding on_run
on_run_missing f id r free = rw (free, on_run) refl

on_run_done :
    (f : Run → Result HarnessError Run) (id : String) (r : LiteRunner) (run after : Run)
    → GoMap.get r.runs id ≡ some run
    → f run ≡ ok after
    → on_run f id r ≡ ok (record r { runs = GoMap.put r.runs id after })
unfolding on_run
on_run_done f id r run after found went = rw (found, on_run) (rw (went, on_run) refl)

on_run_refused :
    (f : Run → Result HarnessError Run) (id : String) (r : LiteRunner) (run : Run)
    (e : HarnessError)
    → GoMap.get r.runs id ≡ some run
    → f run ≡ err e
    → on_run f id r ≡ err e
unfolding on_run
on_run_refused f id r run e found went = rw (found, on_run) (rw (went, on_run) refl)

-- A move adds a run under a free ID, or takes one run a step on.
record Moved (r s : LiteRunner) : Type 0 where
  id : String
  after : Run
  how :
      ((GoMap.get r.runs id ≡ none)
        × (now : Time) × (ctx : Option ContextError) × (after ≡ new_run now ctx))
      ⊎ ((before : Run) × (GoMap.get r.runs id ≡ some before) × Step id before after)
  stored : s ≡ record r { runs = GoMap.put r.runs id after }

on_run-done :
    (f : Run → Result HarnessError Run) (id : String) (r s : LiteRunner)
    → on_run f id r ≡ ok s
    → (before : Run) × (after : Run) × (GoMap.get r.runs id ≡ some before)
      × (f before ≡ ok after)
      × (s ≡ record r { runs = GoMap.put r.runs id after })
on_run-done f id r s e = elim (Option-cases (GoMap.get r.runs id)) [
  | inl free ↦ absurd (cc (on_run_missing f id r free))
  | inr (before, found) ↦ elim (Result-cases (f before)) [
    | inl (after, went) ↦
        (before, after, found, went, cc (on_run_done f id r before after found went))
    | inr (why, refused) ↦ absurd (cc (on_run_refused f id r before why found refused))
  ]
]

Move-Moved : (r s : LiteRunner) → Move r s → Moved r s
Move-Moved r s (dispatched now ctx id e) = elim (Option-cases (GoMap.get r.runs id)) [
  | inl free ↦ record {
    id = id;
    after = new_run now ctx;
    how = inl (free, now, ctx, refl);
    stored = cc (dispatch_free now ctx id r free);
  }
  | inr (run, taken) ↦ absurd (cc (dispatch_taken now ctx id r run taken))
]
Move-Moved r s (cancelled id e) =
    let (before, after, found, went, s_is) = on_run-done cancel_run id r s e in
    record { id = id; after = after; how = inr (before, found, Steps.cancel went); stored = s_is }
Move-Moved r s (stepped id before after found step s_is) = record {
  id = id;
  after = after;
  how = inr (before, found, step);
  stored = s_is;
}

Steps-one : {id : String} {r s t : Run} → Steps id r s → Step id s t → Steps id r t
Steps-one Steps.here step = Steps.more step Steps.here
Steps-one (Steps.more first rest) step = Steps.more first (Steps-one rest step)

-- A move leaves each run where it was, or takes it a step on.
Move-keeps :
    (r s : LiteRunner) (id : String) (run : Run)
    → Move r s
    → GoMap.get r.runs id ≡ some run
    → (later : Run) × (GoMap.get s.runs id ≡ some later) × Steps id run later
Move-keeps r s id run move found =
    let m = Move-Moved r s move in
    elim (Bool-cases (m.id == id)) [
      | inr other ↦ (
        run,
        rw m.stored
            (get-put_ne r.runs m.id id m.after (λ e. ground (arith, eq_iff m.id id, e)) ∙ found),
        Steps.here,
      )
      | inl same ↦
          let at = (eq_iff m.id id).0 same in
          let held : GoMap.get r.runs m.id ≡ some run = rw at found in
          elim m.how [
            | inl (free, _, _, _) ↦ absurd (cc (free, held))
            | inr (before, there, step) ↦
                let is : before ≡ run = cc (there, held) in
                (
                  m.after,
                  rw m.stored (
                      subst (λ j. GoMap.get (GoMap.put r.runs m.id m.after) j ≡ some m.after) at
                        (get-put_self r.runs m.id m.after)),
                  subst (λ j. Steps j run m.after) at
                      (Steps.more (subst (λ x. Step m.id x m.after) is step) Steps.here),
                )
          ]
    ]

Steps-join : {id : String} {r s t : Run} → Steps id r s → Steps id s t → Steps id r t
Steps-join Steps.here rest = rest
Steps-join (Steps.more first steps) rest = Steps.more first (Steps-join steps rest)

pub Moves-keep :
    {r s : LiteRunner} (id : String) (run : Run)
    → Moves r s
    → GoMap.get r.runs id ≡ some run
    → (later : Run) × (GoMap.get s.runs id ≡ some later) × Steps id run later
Moves-keep id run here found = (run, found, Steps.here)
Moves-keep {r} {s} id run (more {s = next} move rest) found =
    let (a, at_a, to_a) = Move-keeps r next id run move found in
    let (b, at_b, to_b) = Moves-keep id a rest at_a in (b, at_b, Steps-join to_a to_b)

abbrev pub AllReachable : LiteRunner → Type 0
AllReachable r = (id : String) (run : Run) → GoMap.get r.runs id ≡ some run → Reachable id run

Move-AllReachable : (r s : LiteRunner) → Move r s → AllReachable r → AllReachable s
Move-AllReachable r s move all id run found =
    let m = Move-Moved r s move in
    elim (get-put_cases r.runs m.id id m.after (rw m.stored at found)) [
      | inr (_, held) ↦ all id run held
      | inl (at, is) ↦
          subst (λ j. Reachable j run) at
            (subst (Reachable m.id) is (elim m.how [
              | inl (_, now, ctx, is_new) ↦ (now, ctx, rw is_new Steps.here)
              | inr (before, there, step) ↦
                  let (now, ctx, steps) = all m.id before there in (now, ctx, Steps-one steps step)
            ]))
    ]

pub Moves-AllReachable : {r s : LiteRunner} → Moves r s → AllReachable r → AllReachable s
Moves-AllReachable here all = all
Moves-AllReachable {r} (more {s = next} move rest) all =
    Moves-AllReachable rest (Move-AllReachable r next move all)
