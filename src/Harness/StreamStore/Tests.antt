-- ===== src/Harness/StreamStore/Tests.antt =====
-- harness/stream_store.go: a stream over a store that holds one log, like the mock of the tests.
use openharness.Prelude.{ℕ, String, true, false, ◌≡◌, refl, none, List, [], ◌∷◌, ◌++◌, arith}
use openharness.Prelude.Result.{Result, ok}
use openharness.Harness.Types.{Event, event_run_started, event_run_completed}
use openharness.Harness.StreamStore.{new_stream, check, delivered, poll, Act, go_on, act, run}
use openharness.Harness.StreamStore.Log.{since, Ascends}
use openharness.Harness.StreamStore.Rounds.{AllBefore}
use openharness.Harness.StreamStore.Delivery.{run-Prefix}
use openharness.Harness.StreamStore.Terminal.{NoneAfterTerminal, run-NoneAfterTerminal}

abbrev mock_get_events : List Event → String → ℕ → Result (Unit {0}) (List Event)
mock_get_events log id from = ok (since from log)

abbrev mock_log : List Event → String → List Event
mock_log log id = log

mock_reads :
    (s : List Event) (id : String) (from : ℕ) (events : List Event)
    → mock_get_events s id from ≡ ok events
    → events ≡ since from (mock_log s id)
mock_reads s id from events e = cc

abbrev at_position : String → ℕ → Event
at_position event_type n = record {
  event_type = event_type;
  content = "";
  id = "";
  name = "";
  arguments = "";
  result = "";
  position = n;
  timestamp = 0;
}

abbrev whole : List Event
whole = at_position event_run_started 0 ∷ at_position event_run_completed 4 ∷ []

abbrev early : List Event
early = at_position event_run_started 0 ∷ []

-- the first event from an early log, and an empty poll of it
abbrev acts : List (Act (List Event))
acts = go_on early true ∷ go_on early true ∷ go_on early true ∷ go_on early true ∷ []

whole-Ascends : Ascends 0 whole
whole-Ascends = (omega arith, omega arith, (omega arith, omega arith, tt))

abbrev BeforeWhole : Type 0
BeforeWhole = AllBefore mock_get_events mock_log mock_reads "s" whole acts

acts-Before : BeforeWhole
acts-Before =
    let cut : (more : List Event) × (whole ≡ early ++ more) =
      (at_position event_run_completed 4 ∷ [], refl) in
    (cut, (cut, (cut, (cut, tt))))

run-Prefix_example :
    (later : List Event) × (whole ≡ (run mock_get_events acts (new_stream none "s")).0 ++ later)
run-Prefix_example =
    run-Prefix mock_get_events mock_log mock_reads acts "s" none whole acts-Before whole-Ascends

acts_read_one :
    whole
    ≡ (run mock_get_events acts (new_stream none "s")).0 ++ at_position event_run_completed 4 ∷ []
unfolding run act check poll delivered new_stream since
acts_read_one = refl

reader_ready :
    let st = (run mock_get_events acts (new_stream none "s")).1 in
    (st.polling ≡ false)
    × (st.done ≡ false)
    × (mock_get_events whole "s" st.last_pos ≡ ok (at_position event_run_completed 4 ∷ []))
unfolding run act check poll delivered new_stream since
reader_ready = (refl, refl, refl)

run-NoneAfterTerminal_example :
    NoneAfterTerminal mock_get_events (run mock_get_events acts (new_stream none "s")).0
run-NoneAfterTerminal_example = run-NoneAfterTerminal mock_get_events acts (new_stream none "s")
