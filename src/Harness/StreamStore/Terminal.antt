-- ===== src/Harness/StreamStore/Terminal.antt =====
-- harness/stream_store.go: a terminal event is the last that the stream returns.
use mathlib.Core.Path.{subst}
use openharness.Prelude.{
  ℕ, String, Bool, true, false, ◌≡◌, refl, sym, ap, ◌∙◌, Option, none, some, List, [], ◌∷◌,
  Bool-cases, Option-cases, List-cases, ◌⊎◌, inl, inr, if◌then◌else◌,
}
use openharness.Prelude.Result.{Result, Result-cases, ok}
use openharness.Prelude.Context.{ContextError}
use openharness.Harness.Types.{Event}
use openharness.Harness.StreamStore.{
  Stream, Reply, event, eof, is_terminal, close, check, delivered, poll, Act, go_on, shut, expire,
  act, received_of, run,
}

module _ {S E : Type 0} (get_events : S → String → ℕ → Result E (List Event)) where
  -- A stream that is done, with its reader outside a round.
  record Over (st : Stream) : Type 0 where
    done : st.done ≡ true
    idle : st.polling ≡ false

  -- The rest of the acts give no event.
  act-Over :
      (a : Act S) (st : Stream)
      → Over st
      → Over (act get_events a st).1
        × ((l : List Event) → received_of get_events (act get_events a st).0 l ≡ l)
  unfolding act check close
  act-Over (go_on s ticks) st h =
      rw (h.idle, act) (rw (h.done, check) (record { done = refl; idle = refl }, λ l. refl))
  act-Over shut st h = (record { done = refl; idle = h.idle }, λ l. refl)
  act-Over (expire e) st h = elim (Option-cases st.context) [
    | inl live ↦ rw (live, act) (record { done = h.done; idle = h.idle }, λ l. refl)
    | inr (x, over) ↦ rw (over, act) (h, λ l. refl)
  ]

  run-Over : (acts : List (Act S)) (st : Stream) → Over st → (run get_events acts st).0 ≡ []
  unfolding run
  run-Over [] st h = refl
  run-Over (a ∷ acts) st h =
      let (later, silent) = act-Over a st h in
      silent (run get_events acts (act get_events a st).1).0
      ∙ run-Over acts (act get_events a st).1 later

  poll-terminal :
      (s : S) (ticks : Bool) (st : Stream) (ev : Event)
      → (poll get_events s ticks st).0 ≡ some (event ev)
      → is_terminal ev ≡ true
      → Over (poll get_events s ticks st).1
  unfolding poll delivered
  poll-terminal s ticks st ev e t = elim (Result-cases (get_events s st.session_id st.last_pos)) [
    | inr (x, got) ↦ absurd (cc (rw (got, poll) at e))
    | inl (events, got) ↦ elim (List-cases events) [
      | inl nothing ↦ absurd (quiet (rw (nothing) at got))
      | inr (first, more, some_ev) ↦
          let got' : get_events s st.session_id st.last_pos ≡ ok (first ∷ more) =
            rw some_ev at got in
          let is : first ≡ ev = cc (rw (got', poll) at e) in
          rw (got', poll) record { done = rw (ap is_terminal is ∙ t) refl; idle = refl }
    ]
  ]
    where
      still :
          (x : ContextError) (b : Bool)
          → (let o : Option (Reply E) × Stream =
                if b
                then (none, record st { polling = false })
                else (some (Reply.context_done x), record st { polling = false }) in
              o.0 ≡ some (event ev))
          → ⊥
      still x true h = cc
      still x false h = cc

      quiet : get_events s st.session_id st.last_pos ≡ ok [] → ⊥
      quiet got = elim (Option-cases st.context) [
        | inl live ↦ cc (rw (live, poll) at rw (got, poll) at e)
        | inr (x, over) ↦ still x ticks (rw (over, poll) at rw (got, poll) at e)
      ]

  no_event : (st : Stream) (ev : Event) → (check get_events st).0 ≡ some (event ev) → ⊥
  unfolding check
  no_event st ev e = elim (Bool-cases st.done) [
    | inl over ↦ cc (rw (over, check) at e)
    | inr live ↦ cc (rw (live, check) at e)
  ]

  -- A terminal event that an act gives ends the stream.
  act-terminal :
      (a : Act S) (st : Stream) (ev : Event)
      → (act get_events a st).0 ≡ some (event ev)
      → is_terminal ev ≡ true
      → Over (act get_events a st).1
  unfolding act check
  act-terminal (go_on s ticks) st ev e t = elim (Bool-cases st.polling) [
    | inl inside ↦
        let at : act get_events (go_on s ticks) st ≡ poll get_events s ticks st = rw inside refl in
        subst (λ o. Over o.1) (sym at) (poll-terminal s ticks st ev (sym (ap (λ o. o.0) at) ∙ e) t)
    | inr idle ↦
        let at : act get_events (go_on s ticks) st ≡ check get_events st = rw idle refl in
        absurd (no_event st ev (sym (ap (λ o. o.0) at) ∙ e))
  ]
  act-terminal shut st ev e t = absurd (cc)
  act-terminal (expire x) st ev e t = elim (Option-cases st.context) [
    | inl live ↦ absurd (cc (rw (live, act) at e))
    | inr (y, over) ↦ absurd (cc (rw (over, act) at e))
  ]

  reply_cases :
      (r : Option (Reply E))
      → ((l : List Event) → received_of get_events r l ≡ l) ⊎ ((ev : Event) × (r ≡ some (event ev)))
  reply_cases none = inl (λ l. refl)
  reply_cases (some (event ev)) = inr (ev, refl)
  reply_cases (some eof) = inl (λ l. refl)
  reply_cases (some (Reply.failed e)) = inl (λ l. refl)
  reply_cases (some (Reply.context_done e)) = inl (λ l. refl)

  -- Only the last event can be terminal.
  abbrev pub NoneAfterTerminal : List Event → Type 0
  NoneAfterTerminal [] = Unit {0}
  NoneAfterTerminal (ev ∷ more) = (is_terminal ev ≡ true → more ≡ []) × NoneAfterTerminal more

  -- A terminal event is the last that the calls of `Next` return, whatever the store gives later.
  pub run-NoneAfterTerminal :
      (acts : List (Act S)) (st : Stream) → NoneAfterTerminal (run get_events acts st).0
  unfolding run
  run-NoneAfterTerminal [] st = tt
  run-NoneAfterTerminal (a ∷ acts) st =
      let o = act get_events a st in
      let more = run-NoneAfterTerminal acts o.1 in
      elim (reply_cases o.0) [
        | inl silent ↦ subst NoneAfterTerminal (sym (silent (run get_events acts o.1).0)) more
        | inr (ev, at) ↦
            subst NoneAfterTerminal
              (ap (λ r. received_of get_events r (run get_events acts o.1).0) (sym at))
              (λ t. run-Over acts o.1 (act-terminal a st ev at t), more)
      ]
