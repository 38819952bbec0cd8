-- ===== src/Harness/StreamStore/Rounds.antt =====
-- harness/stream_store.go: what one step of the reader leaves of the log.
use openharness.Prelude.{
  ℕ, ◌+◌, ◌<◌, String, Bool, true, false, ◌≡◌, refl, sym, ap, ◌∙◌, Option, none, some, List, [],
  ◌∷◌, ◌++◌, arith, Bool-cases, Option-cases, List-cases, inl, inr, if◌then◌else◌,
}
use openharness.Prelude.Result.{Result, Result-cases, ok, err}
use openharness.Prelude.Int64.{inc, sign_bit}
use openharness.Prelude.Context.{ContextError, cancel_context}
use openharness.Harness.Types.{Event}
use openharness.Harness.StreamStore.{
  Stream, Reply, event, close, check, delivered, poll, Act, go_on, shut, expire, act, received_of,
}
use openharness.Harness.StreamStore.Log.{since, Ascends, since-append, since_next}

module _ {S E : Type 0} (get_events : S → String → ℕ → Result E (List Event))
    (log : S → String → List Event)
    (reads : (s : S) (id : String) (from : ℕ) (events : List Event)
      → get_events s id from ≡ ok events
      → events ≡ since from (log s id)) where
  -- The session log only grows: at the moment of a call it is a prefix of the later one.
  abbrev pub Before : String → List Event → Act S → Type 0
  Before id whole (go_on s ticks) = (more : List Event) × (whole ≡ log s id ++ more)
  Before id whole shut = Unit {0}
  Before id whole (expire e) = Unit {0}

  abbrev pub AllBefore : String → List Event → List (Act S) → Type 0
  AllBefore id whole [] = Unit {0}
  AllBefore id whole (a ∷ acts) = Before id whole a × AllBefore id whole acts

  -- The stream has the rest of the log before it.
  pub record Sees (id : String) (whole rest : List Event) (st : Stream) : Type 0 where
    pub session : st.session_id ≡ id
    pub ascends : Ascends st.last_pos rest
    pub left : since st.last_pos whole ≡ rest

  -- What one act has done.
  pub record Acted (id : String) (whole rest : List Event) (o : Option (Reply E) × Stream)
      : Type 0 where
    pub later : List Event
    pub split : rest ≡ received_of get_events o.0 later
    pub sees : Sees id whole later o.1

  with_flags :
      (id : String) (whole rest : List Event) (st : Stream) (context : Option ContextError)
      (done polling : Bool)
      → Sees id whole rest st
      → Sees id whole rest (record st { context = context; done = done; polling = polling })
  with_flags id whole rest st context done polling h = record {
    session = h.session;
    ascends = h.ascends;
    left = h.left;
  }

  poll_failed :
      (s : S) (ticks : Bool) (st : Stream) (e : E)
      → get_events s st.session_id st.last_pos ≡ err e
      → poll get_events s ticks st ≡ (some (Reply.failed e), record st { polling = false })
  unfolding poll
  poll_failed s ticks st e got = rw (got, poll) refl

  pub poll_event :
      (s : S) (ticks : Bool) (st : Stream) (ev : Event) (more : List Event)
      → get_events s st.session_id st.last_pos ≡ ok (ev ∷ more)
      → poll get_events s ticks st ≡ (some (event ev), delivered get_events ev st)
  unfolding poll
  poll_event s ticks st ev more got = rw (got, poll) refl

  -- A round without an event leaves the position.
  poll_empty :
      (s : S) (ticks : Bool) (st : Stream) (id : String) (whole rest : List Event)
      → get_events s st.session_id st.last_pos ≡ ok []
      → Sees id whole rest st
      → Acted id whole rest (poll get_events s ticks st)
  unfolding poll
  poll_empty s ticks st id whole rest got h = elim (Option-cases st.context) [
    | inl live ↦
        rw (got, poll)
          (rw (live, poll)
            record {
              later = rest;
              split = refl;
              sees = with_flags id whole rest st st.context st.done false h;
            })
    | inr (e, over) ↦ rw (got, poll) (rw (over, poll) (settled e ticks))
  ]
    where
      settled :
          (e : ContextError) (b : Bool)
          → Acted id whole rest (
              if b
              then (none, record st { polling = false })
              else (some (Reply.context_done e), record st { polling = false }))
      settled e true = record {
        later = rest;
        split = refl;
        sees = with_flags id whole rest st st.context st.done false h;
      }
      settled e false = record {
        later = rest;
        split = refl;
        sees = with_flags id whole rest st st.context st.done false h;
      }

  delivered-Sees :
      (id : String) (whole rest : List Event) (ev : Event) (st : Stream)
      → Sees id whole (ev ∷ rest) st
      → Sees id whole rest (delivered get_events ev st)
  unfolding delivered
  delivered-Sees id whole rest ev st h =
      let room : ev.position + 1 < sign_bit = h.ascends.1 in
      let at : inc ev.position ≡ ev.position + 1 = omega arith in
      record {
        session = h.session;
        ascends = rw at h.ascends.2;
        left = rw at (since_next st.last_pos ev rest whole h.ascends h.left);
      }

  -- What a poll of an earlier log shows first is what the reader has next.
  first_left :
      (s : S) (ticks : Bool) (st : Stream) (id : String) (whole rest : List Event) (ev : Event)
      (more : List Event)
      → get_events s st.session_id st.last_pos ≡ ok (ev ∷ more)
      → Before id whole (go_on s ticks)
      → Sees id whole rest st
      → (later : List Event) × (rest ≡ ev ∷ later)
  first_left s ticks st id whole rest ev more got (tail, split) h =
      let shown : ev ∷ more ≡ since st.last_pos (log s id) =
        reads s st.session_id st.last_pos (ev ∷ more) got
        ∙ ap (λ j. since st.last_pos (log s j)) h.session in
      (
        more ++ since st.last_pos tail,
        sym h.left
            ∙ ap (since st.last_pos) split
            ∙ since-append st.last_pos (log s id) tail
            ∙ ap (λ (l : List Event). l ++ since st.last_pos tail) (sym shown),
      )

  poll-Acted :
      (s : S) (ticks : Bool) (st : Stream) (id : String) (whole rest : List Event)
      → Before id whole (go_on s ticks)
      → Sees id whole rest st
      → Acted id whole rest (poll get_events s ticks st)
  poll-Acted s ticks st id whole rest before h =
      elim (Result-cases (get_events s st.session_id st.last_pos)) [
        | inr (e, got) ↦ rw (poll_failed s ticks st e got) record {
          later = rest;
          split = refl;
          sees = with_flags id whole rest st st.context st.done false h;
        }
        | inl (events, got) ↦ elim (List-cases events) [
          | inl nothing ↦ poll_empty s ticks st id whole rest (rw nothing at got) h
          | inr (ev, more, some_ev) ↦
              let got' = rw some_ev at got in
              let (later, split) = first_left s ticks st id whole rest ev more got' before h in
              rw (poll_event s ticks st ev more got') record {
                later = later;
                split = split;
                sees = delivered-Sees id whole later ev st (rw split at h);
              }
        ]
      ]

  check-Acted :
      (st : Stream) (id : String) (whole rest : List Event)
      → Sees id whole rest st
      → Acted id whole rest (check get_events st)
  unfolding check
  check-Acted st id whole rest h = elim (Bool-cases st.done) [
    | inl over ↦
        rw (over, check)
          record {
            later = rest;
            split = refl;
            sees = with_flags id whole rest st st.context true st.polling h;
          }
    | inr open_yet ↦
        rw (open_yet, check)
          record {
            later = rest;
            split = refl;
            sees = with_flags id whole rest st st.context false true h;
          }
  ]

  pub act_polling :
      (s : S) (ticks : Bool) (st : Stream)
      → st.polling ≡ true
      → act get_events (go_on s ticks) st ≡ poll get_events s ticks st
  unfolding act
  act_polling s ticks st inside = rw inside refl

  pub act_idle :
      (s : S) (ticks : Bool) (st : Stream)
      → st.polling ≡ false
      → act get_events (go_on s ticks) st ≡ check get_events st
  unfolding act
  act_idle s ticks st idle = rw idle refl

  pub act-Acted :
      (a : Act S) (st : Stream) (id : String) (whole rest : List Event)
      → Before id whole a
      → Sees id whole rest st
      → Acted id whole rest (act get_events a st)
  unfolding act close
  act-Acted (go_on s ticks) st id whole rest before h = elim (Bool-cases st.polling) [
    | inl inside ↦ rw (act_polling s ticks st inside) (poll-Acted s ticks st id whole rest before h)
    | inr idle ↦ rw (act_idle s ticks st idle) (check-Acted st id whole rest h)
  ]
  act-Acted shut st id whole rest before h = record {
    later = rest;
    split = refl;
    sees = with_flags id whole rest st (cancel_context st.context) true st.polling h;
  }
  act-Acted (expire e) st id whole rest before h = elim (Option-cases st.context) [
    | inl live ↦
        rw (live, act)
          record {
            later = rest;
            split = refl;
            sees = with_flags id whole rest st (some e) st.done st.polling h;
          }
    | inr (x, over) ↦ rw (over, act) record { later = rest; split = refl; sees = h }
  ]
