-- ===== src/Lite/Runner/Outcomes.antt =====
-- harness/lite/runner.go: what each step of a run has found and has changed when it goes through.
use openharness.Prelude.{
  ◌<◌, Bool, true, false, ◌≡◌, refl, sym, ap, ◌∙◌, ◌≢◌, none, some, length, Bool-cases,
  Option-cases, ◌⊎◌, inl, inr,
}
use openharness.Prelude.Result.{ok, err}
use openharness.Prelude.Channel.{
  Outcome-cases, after, after-done, send_open, done, blocked, panicked, Channel, send, send_done,
  push, close, close_done, receive, Receipt,
}
use openharness.Harness.Types.{Event}
use openharness.Harness.Errors.{run_not_active}
use openharness.Prelude.Context.{cancel_context}
use openharness.Lite.Runner.{
  Status, running, cancelled, completed, failed, Place, finished, Run, send_and_go, close_events,
  is_running, begin_interrupt, end_interrupt, cancel_run, next,
}

pub send_and_go_done :
    (ev : Event) (next : Place) (r s : Run)
    → send_and_go ev next r ≡ done s
    → (r.events.closed ≡ false)
      × (length r.events.buffer < r.events.capacity)
      × (s ≡ record r { events = push ev r.events; place = next })
unfolding send_and_go
send_and_go_done ev next r s e =
    let (c, went, s_is) =
      after-done (send ev r.events) (λ c. record r { events = c; place = next }) e in
    let (live, room, c_is) = send_done ev r.events c went in
    (live, room, s_is ∙ ap (λ x. record r { events = x; place = next }) c_is)

pub close_events_held : (r : Run) (ev : Event) → r.interrupting ≡ some ev → close_events r ≡ blocked
unfolding close_events
close_events_held r ev held = rw (held, close_events) refl

pub close_events_free :
    (r : Run)
    → r.interrupting ≡ none
    → close_events r ≡ after (close r.events) (λ c. record r { events = c; place = finished })
unfolding close_events
close_events_free r free = rw free refl

pub close_events_done :
    (r s : Run)
    → close_events r ≡ done s
    → (r.interrupting ≡ none)
      × (r.events.closed ≡ false)
      × (s ≡ record r { events = record r.events { closed = true }; place = finished })
close_events_done r s e = elim (Option-cases r.interrupting) [
  | inl free ↦
      let (c, shut, s_is) =
        after-done (close r.events) (λ c. record r { events = c; place = finished })
          (sym (close_events_free r free) ∙ e) in
      let (live, c_is) = close_done r.events c shut in
      (free, live, s_is ∙ ap (λ x. record r { events = x; place = finished }) c_is)
  | inr (ev, held) ↦ absurd (cc (close_events_held r ev held))
]

pub next_done :
    (x : Receipt Event) (r s : Run)
    → next r ≡ done (x, s)
    → (c : Channel Event) × (receive r.events ≡ done (x, c)) × (s ≡ record r { events = c })
unfolding next
next_done x r s e =
    let (z, got, at) = after-done (receive r.events) (λ z. (z.0, record r { events = z.1 })) e in
    (
      z.1,
      got ∙ ap (λ (y : Receipt Event). done (y, z.1)) (sym (ap (λ p. p.0) at)),
      ap (λ p. p.1) at,
    )

-- `end_interrupt`, by what the channel says.
pub end_interrupt_idle : (r : Run) → r.interrupting ≡ none → end_interrupt r ≡ blocked
unfolding end_interrupt
end_interrupt_idle r idle = rw (idle, end_interrupt) refl

pub end_interrupt_sent :
    (r : Run) (ev : Event) (c : Channel Event)
    → r.interrupting ≡ some ev
    → send ev r.events ≡ done c
    → end_interrupt r ≡ done (true, record r { events = c; interrupting = none })
unfolding end_interrupt
end_interrupt_sent r ev c held went = rw (held, end_interrupt) (rw (went, end_interrupt) refl)

pub end_interrupt_dropped :
    (r : Run) (ev : Event)
    → r.interrupting ≡ some ev
    → send ev r.events ≡ blocked
    → end_interrupt r ≡ done (false, record r { interrupting = none })
unfolding end_interrupt
end_interrupt_dropped r ev held full = rw (held, end_interrupt) (rw (full, end_interrupt) refl)

end_interrupt_broken :
    (r : Run) (ev : Event)
    → r.interrupting ≡ some ev
    → send ev r.events ≡ panicked
    → end_interrupt r ≡ panicked
unfolding end_interrupt
end_interrupt_broken r ev held broke = rw (held, end_interrupt) (rw (broke, end_interrupt) refl)

pub end_interrupt_done :
    (b : Bool) (r s : Run)
    → end_interrupt r ≡ done (b, s)
    → (ev : Event) × (r.interrupting ≡ some ev)
      × (((b ≡ true)
            × (length r.events.buffer < r.events.capacity)
            × (s ≡ record r { events = push ev r.events; interrupting = none }))
          ⊎ ((b ≡ false) × (s ≡ record r { interrupting = none })))
end_interrupt_done b r s e = elim (Option-cases r.interrupting) [
  | inl idle ↦ absurd (cc (end_interrupt_idle r idle))
  | inr (ev, held) ↦ elim (Outcome-cases (send ev r.events)) [
    | inl (c, went) ↦
        let (live, room, c_is) = send_done ev r.events c went in
        (
          ev,
          held,
          inl (
            cc (end_interrupt_sent r ev c held went),
            room,
            cc (end_interrupt_sent r ev c held went),
          ),
        )
    | inr (inl full) ↦ (
      ev,
      held,
      inr (cc (end_interrupt_dropped r ev held full), cc (end_interrupt_dropped r ev held full)),
    )
    | inr (inr broke) ↦ absurd (cc (end_interrupt_broken r ev held broke))
  ]
]

pub end_interrupt_open :
    (r : Run)
    → ((ev : Event) → r.interrupting ≡ some ev → r.events.closed ≡ false)
    → end_interrupt r ≢ panicked
end_interrupt_open r live e = elim (Option-cases r.interrupting) [
  | inl idle ↦ cc (end_interrupt_idle r idle)
  | inr (ev, held) ↦ elim (Outcome-cases (send ev r.events)) [
    | inl (c, went) ↦ cc (end_interrupt_sent r ev c held went)
    | inr (inl full) ↦ cc (end_interrupt_dropped r ev held full)
    | inr (inr broke) ↦ send_open ev r.events (live ev held) broke
  ]
]

Status-cases : (status : Status) → (status ≡ running) ⊎ (is_running status ≡ false)
Status-cases running = inl refl
Status-cases cancelled = inr refl
Status-cases completed = inr refl
Status-cases failed = inr refl

cancel_run_on :
    (r : Run)
    → r.status ≡ running
    → cancel_run r ≡ ok (record r { status = cancelled; context = cancel_context r.context })
unfolding cancel_run
cancel_run_on r on = rw on refl

pub cancel_run_off : (r : Run) → is_running r.status ≡ false → cancel_run r ≡ err run_not_active
unfolding cancel_run
cancel_run_off r off = rw (off, cancel_run) refl

begin_interrupt_shut :
    (ev : Event) (r : Run) → r.events.closed ≡ true → begin_interrupt ev r ≡ err run_not_active
unfolding begin_interrupt
begin_interrupt_shut ev r shut = rw (shut, begin_interrupt) refl

begin_interrupt_on :
    (ev : Event) (r : Run)
    → r.events.closed ≡ false
    → r.status ≡ running
    → begin_interrupt ev r ≡ ok (record r { interrupting = some ev })
unfolding begin_interrupt
begin_interrupt_on ev r live on = rw live (rw on refl)

begin_interrupt_off :
    (ev : Event) (r : Run)
    → r.events.closed ≡ false
    → is_running r.status ≡ false
    → begin_interrupt ev r ≡ err run_not_active
unfolding begin_interrupt
begin_interrupt_off ev r live off = rw (live, begin_interrupt) (rw off refl)

pub cancel_run_done :
    (r s : Run)
    → cancel_run r ≡ ok s
    → (r.status ≡ running)
      × (s ≡ record r { status = cancelled; context = cancel_context r.context })
cancel_run_done r s e = elim (Status-cases r.status) [
  | inl on ↦ (on, cc (cancel_run_on r on))
  | inr off ↦ absurd (cc (cancel_run_off r off))
]

pub begin_interrupt_done :
    (ev : Event) (r s : Run)
    → begin_interrupt ev r ≡ ok s
    → (r.events.closed ≡ false) × (r.status ≡ running) × (s ≡ record r { interrupting = some ev })
begin_interrupt_done ev r s e = elim (Bool-cases r.events.closed) [
  | inl shut ↦ absurd (cc (begin_interrupt_shut ev r shut))
  | inr live ↦ elim (Status-cases r.status) [
    | inl on ↦ (live, on, cc (begin_interrupt_on ev r live on))
    | inr off ↦ absurd (cc (begin_interrupt_off ev r live off))
  ]
]
