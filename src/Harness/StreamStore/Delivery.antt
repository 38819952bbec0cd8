-- ===== src/Harness/StreamStore/Delivery.antt =====
-- harness/stream_store.go: the events of a session reach the reader in order, each once.
use openharness.Prelude.{
  ℕ, String, Bool, true, false, ◌≡◌, refl, sym, ap, ◌∙◌, Option, none, some, List, [], ◌∷◌, ◌++◌,
}
use openharness.Prelude.Result.{Result, ok}
use openharness.Prelude.Context.{ContextError}
use openharness.Harness.Types.{Event}
use openharness.Harness.StreamStore.{
  Stream, new_stream, Reply, event, check, Act, go_on, act, received_of, run,
}
use openharness.Harness.StreamStore.Log.{since, Ascends, since-Ascends}
use openharness.Harness.StreamStore.Rounds.{
  AllBefore, Sees, act-Acted, act_idle, act_polling, poll_event,
}

module _ {S E : Type 0} (get_events : S → String → ℕ → Result E (List Event))
    (log : S → String → List Event)
    (reads : (s : S) (id : String) (from : ℕ) (events : List Event)
      → get_events s id from ≡ ok events
      → events ≡ since from (log s id)) where
  received-append :
      (reply : Option (Reply E)) (a b : List Event)
      → received_of get_events reply a ++ b ≡ received_of get_events reply (a ++ b)
  received-append none a b = refl
  received-append (some (event ev)) a b = refl
  received-append (some Reply.eof) a b = refl
  received-append (some (Reply.failed e)) a b = refl
  received-append (some (Reply.context_done e)) a b = refl

  run-Sees :
      (acts : List (Act S)) (st : Stream) (id : String) (whole rest : List Event)
      → AllBefore get_events log reads id whole acts
      → Sees get_events log reads id whole rest st
      → (later : List Event) × (rest ≡ (run get_events acts st).0 ++ later)
        × Sees get_events log reads id whole later (run get_events acts st).1
  unfolding run
  run-Sees [] st id whole rest before h = (rest, refl, h)
  run-Sees (a ∷ acts) st id whole rest (first, before) h =
      let one = act-Acted get_events log reads a st id whole rest first h in
      let o = act get_events a st in
      let (later, split, sees) = run-Sees acts o.1 id whole one.later before one.sees in
      (
        later,
        one.split
            ∙ ap (received_of get_events o.0) split
            ∙ sym (received-append o.0 (run get_events acts o.1).0 later),
        sees,
      )

  cancel_left : (a b c : List Event) → a ++ b ≡ a ++ c → b ≡ c
  cancel_left [] b c e = e
  cancel_left (x ∷ a) b c e = cancel_left a b c (ap tail e)
    where
      tail : List Event → List Event
      tail [] = []
      tail (_ ∷ l) = l

  start-Sees :
      (id : String) (ctx : Option ContextError) (whole : List Event)
      → Ascends 0 whole
      → Sees get_events log reads id whole whole (new_stream ctx id)
  unfolding new_stream
  start-Sees id ctx whole asc = record {
    session = refl;
    ascends = asc;
    left = since-Ascends 0 whole asc;
  }

  check_live :
      (st : Stream) → st.done ≡ false → check get_events st ≡ (none, record st { polling = true })
  unfolding check
  check_live st live = rw live refl

  -- One call of `Next` that finds an event.
  one_call :
      (s : S) (ticks ticks' : Bool) (st : Stream) (ev : Event) (more : List Event)
      → st.polling ≡ false
      → st.done ≡ false
      → get_events s st.session_id st.last_pos ≡ ok (ev ∷ more)
      → (run get_events (go_on s ticks ∷ go_on s ticks' ∷ []) st).0 ≡ ev ∷ []
  unfolding run
  one_call s ticks ticks' st ev more idle live got =
      rw (act_idle get_events log reads s ticks st idle ∙ check_live st live) (
        rw
          (act_polling get_events log reads s ticks' (record st { polling = true }) refl
            ∙ poll_event get_events log reads s ticks' (record st { polling = true }) ev more got)
          refl)

  -- Where a read of the store that succeeds gives the events from the position on, the positions of a
  -- session's log grow inside an int64, and each poll sees a beginning of the log, the calls of `Next`
  -- of a new stream return a beginning of it: its events in order, none twice and none left out, whatever
  -- polls fail or find nothing and whenever the stream is closed or its context ends.
  pub run-Prefix :
      (acts : List (Act S)) (id : String) (ctx : Option ContextError) (whole : List Event)
      → AllBefore get_events log reads id whole acts
      → Ascends 0 whole
      → (later : List Event) × (whole ≡ (run get_events acts (new_stream ctx id)).0 ++ later)
  run-Prefix acts id ctx whole before asc =
      let (later, split, _) =
        run-Sees acts (new_stream ctx id) id whole whole before (start-Sees id ctx whole asc) in
      (later, split)

  -- Nothing is lost: under the conditions that such reads give the events from the position on, that
  -- the positions grow inside an int64 and that the polls so far saw beginnings of the log, if the
  -- reader is not inside a poll and the stream is not done, then a call of `Next` that finds an
  -- up-to-date store, whose read succeeds, returns the next event of the log.
  pub next_event :
      (acts : List (Act S)) (id : String) (ctx : Option ContextError) (whole later : List Event)
      (ev : Event) (s : S) (ticks ticks' : Bool) (events : List Event)
      → AllBefore get_events log reads id whole acts
      → Ascends 0 whole
      → whole ≡ (run get_events acts (new_stream ctx id)).0 ++ ev ∷ later
      → log s id ≡ whole
      → (let st = (run get_events acts (new_stream ctx id)).1 in
          (st.polling ≡ false) × (st.done ≡ false) × (get_events s id st.last_pos ≡ ok events))
      → (run get_events
          (go_on s ticks ∷ go_on s ticks' ∷ [])
          (run get_events acts (new_stream ctx id)).1).0
        ≡ ev ∷ []
  next_event acts id ctx whole later ev s ticks ticks' events before asc split now
        (idle, live, got) =
      let st = (run get_events acts (new_stream ctx id)).1 in
      let (left, cut, sees) =
        run-Sees acts (new_stream ctx id) id whole whole before (start-Sees id ctx whole asc) in
      let next : left ≡ ev ∷ later =
        cancel_left (run get_events acts (new_stream ctx id)).0 left (ev ∷ later)
          (sym cut ∙ split) in
      let shown : events ≡ ev ∷ later =
        reads s id st.last_pos events got ∙ ap (since st.last_pos) now ∙ sees.left ∙ next in
      one_call s ticks ticks' st ev later idle live (
        ap (λ j. get_events s j st.last_pos) sees.session
        ∙ got
        ∙ ap (λ (l : List Event). ok l) shown)
