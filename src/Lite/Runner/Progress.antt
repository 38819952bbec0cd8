-- ===== src/Lite/Runner/Progress.antt =====
-- harness/lite/runner.go: a run whose events are read does not get stuck.
use openharness.Prelude.{
  ◌<◌, String, true, false, ◌≡◌, refl, ap, ◌∙◌, Option, none, some, List, [], ◌∷◌, ◌++◌, length,
  Bool-cases, Option-cases, inl, inr,
}
use openharness.Prelude.Channel.{done, after, send_room, push, close_open, receive_front, value}
use openharness.Harness.Types.{Time, Event, event_run_started, event_error}
use openharness.Lite.Runner.{
  Place, starting, looping, returned, reporting, closing, finished, Run, Choice, return,
  was_cancelled, lifecycle, stamped, settle, send_and_go, execute_at, execute, next,
}
use openharness.Lite.Runner.Steps.{Steps, here, more, work, answer, read, Reachable}
use openharness.Lite.Runner.Outcomes.{close_events_free, end_interrupt_sent}
use openharness.Lite.Runner.Invariant.{IsValid, placed}
use openharness.Lite.Runner.Preservation.{Step-IsValid, Steps-IsValid, Reachable-IsValid}

Steps-trans :
    {run_id : String} {r s t : Run} → Steps run_id r s → Steps run_id s t → Steps run_id r t
Steps-trans here rest = rest
Steps-trans (more step steps) rest = more step (Steps-trans steps rest)

-- An empty buffer, and no call of `Interrupt` on its way.
record Quiet (run_id : String) (r s : Run) : Type 0 where
  steps : Steps run_id r s
  empty : s.events.buffer ≡ []
  free : s.interrupting ≡ none
  same : s.place ≡ r.place

abbrev shifted : Event → List Event → Run → Run
shifted a rest r = record r {
  events = record r.events { buffer = rest; received = r.events.received ++ a ∷ [] };
}

next_front :
    (a : Event) (rest : List Event) (r : Run)
    → r.events.buffer ≡ a ∷ rest
    → next r ≡ done (value a, shifted a rest r)
unfolding next after
next_front a rest r front =
    ap (λ o. after o (λ z. (z.0, record r { events = z.1 }))) (receive_front a rest r.events front)

-- The reader empties the buffer.
drain :
    (run_id : String) (l : List Event) (r : Run)
    → r.events.buffer ≡ l
    → (s : Run) × Steps run_id r s
      × (s.events.buffer ≡ [])
      × (s.interrupting ≡ r.interrupting)
      × (s.place ≡ r.place)
drain run_id [] r e = (r, here, e, refl, refl)
drain run_id (a ∷ rest) r e =
    let (s, steps, empty, free, same) = drain run_id rest (shifted a rest r) refl in
    (s, more (read (value a) (next_front a rest r e)) steps, empty, free, same)

-- A call of `Interrupt` ends, and the reader empties the buffer.
quieten : (run_id : String) (r : Run) → IsValid r → (s : Run) × Quiet run_id r s
unfolding push
quieten run_id r v =
    let (a, to_a, nothing, held_a, place_a) = drain run_id r.events.buffer r refl in
    elim (Option-cases r.interrupting) [
      | inl free ↦
          (a, record { steps = to_a; empty = nothing; free = held_a ∙ free; same = place_a })
      | inr (ev, held) ↦
          let w = Steps-IsValid v to_a in
          let room : length a.events.buffer < a.events.capacity = rw nothing w.room in
          let went =
            end_interrupt_sent a ev (push ev a.events) (held_a ∙ held)
              (send_room ev a.events (w.held ev (held_a ∙ held)) room) in
          let b = record a { events = push ev a.events; interrupting = none } in
          let (c, to_c, empty, free, place_c) = drain run_id b.events.buffer b refl in
          (
            c,
            record {
              steps = Steps-trans to_a (more (answer true went) to_c);
              empty = empty;
              free = free;
              same = place_c ∙ place_a;
            },
          )
    ]

-- The run can come to its end, with everything received.
abbrev Ends : String → Run → Type 0
Ends run_id r = (s : Run) × Steps run_id r s × (s.place ≡ finished) × (s.events.buffer ≡ [])

Ends-more : {run_id : String} {r t : Run} → Steps run_id r t → Ends run_id t → Ends run_id r
Ends-more steps (s, rest, at, empty) = (s, Steps-trans steps rest, at, empty)

execute_here :
    (p : Place) (c : Choice) (now : Time) (run_id : String) (r : Run)
    → r.place ≡ p
    → execute c now run_id r ≡ execute_at p c now run_id r
unfolding execute
execute_here p c now run_id r at = ap (λ q. execute_at q c now run_id r) at

Ends-send :
    (p q : Place) (ev : Event) (c : Choice) (now : Time) (run_id : String) (r : Run)
    → ((s : Run) → execute_at p c now run_id s ≡ send_and_go ev q s)
    → ((s : Run) → IsValid s → s.place ≡ p → s.events.closed ≡ false)
    → ((s : Run) → IsValid s → s.place ≡ q → Ends run_id s)
    → IsValid r
    → r.place ≡ p
    → Ends run_id r
unfolding send_and_go after
Ends-send p q ev c now run_id r does live rest v at =
    let (s, h) = quieten run_id r v in
    let w = Steps-IsValid v h.steps in
    let here_p = h.same ∙ at in
    let room : length s.events.buffer < s.events.capacity = rw h.empty w.room in
    let t = record s { events = push ev s.events; place = q } in
    let went : execute c now run_id s ≡ done t =
      execute_here p c now run_id s here_p
      ∙ does s
      ∙ ap (λ o. after o (λ x. record s { events = x; place = q }))
          (send_room ev s.events (live s w here_p) room) in
    let step = work c now went in
    Ends-more (Steps-trans h.steps (more step here)) (rest t (Step-IsValid run_id s t w step) refl)

Ends-closing :
    (now : Time) (run_id : String) (r : Run) → IsValid r → r.place ≡ closing → Ends run_id r
unfolding execute_at after
Ends-closing now run_id r v at =
    let (s, h) = quieten run_id r v in
    let w = Steps-IsValid v h.steps in
    let live : s.events.closed ≡ false = (placed s closing w (h.same ∙ at)).2 in
    let t = record s { events = record s.events { closed = true }; place = finished } in
    let went : execute (return none) now run_id s ≡ done t =
      execute_here closing (return none) now run_id s (h.same ∙ at)
      ∙ close_events_free s h.free
      ∙ ap (λ o. after o (λ x. record s { events = x; place = finished }))
          (close_open s.events live) in
    (t, Steps-trans h.steps (more (work (return none) now went) here), refl, h.empty)

Ends-reporting :
    (ev : Event) (now : Time) (run_id : String) (r : Run)
    → IsValid r
    → r.place ≡ reporting ev
    → Ends run_id r
unfolding execute_at
Ends-reporting ev now run_id r v at =
    Ends-send (reporting ev) closing (stamped now ev) (return none) now run_id r (λ s. refl)
      (λ s w here. (placed s (reporting ev) w here).2) (Ends-closing now run_id) v at

settle_reports :
    (now : Time) (run_id : String) (result : Option String) (r : Run)
    → (ev : Event) × ((settle now run_id result r).place ≡ reporting ev)
unfolding settle
settle_reports now run_id none r = (_, refl)
settle_reports now run_id (some text) r = elim (Bool-cases (was_cancelled r.context r.status)) [
  | inl gone ↦ (lifecycle event_error "run cancelled" run_id now, rw (gone, settle) refl)
  | inr stays ↦ (lifecycle event_error text run_id now, rw (stays, settle) refl)
]

Ends-returned :
    (result : Option String) (now : Time) (run_id : String) (r : Run)
    → IsValid r
    → r.place ≡ returned result
    → Ends run_id r
unfolding execute_at
Ends-returned result now run_id r v at =
    let t = settle now run_id result r in
    let step =
      work (return none) now (execute_here (returned result) (return none) now run_id r at) in
    let (ev, at_t) = settle_reports now run_id result r in
    Ends-more (more step here)
      (Ends-reporting ev now run_id t (Step-IsValid run_id r t v step) at_t)

Ends-looping :
    (result : Option String) (now : Time) (run_id : String) (r : Run)
    → IsValid r
    → r.place ≡ looping
    → Ends run_id r
unfolding execute_at
Ends-looping result now run_id r v at =
    let t = record r { place = returned result } in
    let step = work (return result) now (execute_here looping (return result) now run_id r at) in
    Ends-more (more step here)
      (Ends-returned result now run_id t (Step-IsValid run_id r t v step) refl)

Ends-starting :
    (result : Option String) (now : Time) (run_id : String) (r : Run)
    → IsValid r
    → r.place ≡ starting
    → Ends run_id r
unfolding execute_at
Ends-starting result now run_id r v at =
    Ends-send starting looping (lifecycle event_run_started "" run_id now) (return none) now run_id
      r (λ s. refl) (λ s w here. (placed s starting w here).2) (Ends-looping result now run_id) v at

Ends-finished : (run_id : String) (r : Run) → IsValid r → r.place ≡ finished → Ends run_id r
Ends-finished run_id r v at = let (s, h) = quieten run_id r v in (s, h.steps, h.same ∙ at, h.empty)

Ends-at :
    (p : Place) (result : Option String) (now : Time) (run_id : String) (r : Run)
    → IsValid r
    → r.place ≡ p
    → Ends run_id r
Ends-at starting result now run_id r = Ends-starting result now run_id r
Ends-at looping result now run_id r = Ends-looping result now run_id r
Ends-at (returned x) result now run_id r = Ends-returned x now run_id r
Ends-at (reporting ev) result now run_id r = Ends-reporting ev now run_id r
Ends-at closing result now run_id r = Ends-closing now run_id r
Ends-at finished result now run_id r = Ends-finished run_id r

-- From every state that a dispatched run can come to, there are steps after which its goroutine has
-- finished and the reader has emptied the channel.
pub can_finish :
    (now : Time) (run_id : String) (r : Run)
    → Reachable run_id r
    → (s : Run) × Steps run_id r s × (s.place ≡ finished) × (s.events.buffer ≡ [])
can_finish now run_id r reached =
    Ends-at r.place none now run_id r (Reachable-IsValid run_id r reached) refl
