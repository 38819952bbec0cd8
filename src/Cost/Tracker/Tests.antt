-- ===== src/Cost/Tracker/Tests.antt =====
-- cost/tracker.go: budgets at a small log, with formats that print a number as that many letters.
use openharness.Prelude.{
  ℕ, zero, suc, ◌+◌, ◌*◌, ◌/◌, ◌≤◌, ◌<◌, String, ◌≡◌, ◌≢◌, refl, Option, some, [], ◌∷◌, eqb,
  if◌then◌else◌, arith,
}
use openharness.Prelude.Result.{ok}
use openharness.Cost.Tracker.{
  Stamp, Record, Formats, Tracker, missing, rows, breaks, within, add_record, check_budget,
  read_records, is_even_table, all_of_width,
}
use openharness.Cost.Tracker.Totals.{total_of, this_day, this_month, for_each, IsNear, to_second}
use openharness.Cost.Tracker.Budget.{IsFormats, add_records, check_budget_bounds}
use Prim.Native.Char.{Char, code}

letters : Char → ℕ → String → String
letters c zero rest = rest
letters c (suc n) rest = String.◌∷◌ c (letters c n rest)

counted : ℕ → String → ℕ
counted k String.[] = 0
counted k (String.◌∷◌ c s) = (if eqb (code c) k then 1 else 0) + counted k s

counted-letters :
    (k : ℕ) (c : Char) (n : ℕ) (rest : String)
    → counted k (letters c n rest) ≡ (if eqb (code c) k then n else 0) + counted k rest
unfolding counted letters
counted-letters k c zero rest = ground arith
counted-letters k c (suc n) rest = ground (arith, counted-letters k c n rest)

counted-nil : (k : ℕ) → counted k "" ≡ 0
unfolding counted
counted-nil k = refl

show_time : Stamp → String
unfolding letters
show_time t =
    letters "y" t.year (letters "m" t.month (letters "d" t.day (letters "s" t.second_of_day "")))

read_time : String → Option Stamp
unfolding counted
read_time s = some (record {
  year = counted 121 s;
  month = counted 109 s;
  day = counted 100 s;
  second_of_day = counted 115 s;
  nanosecond = 0;
})

counted_time :
    (k : ℕ) (t : Stamp)
    → counted k (show_time t)
      ≡ (if eqb 121 k then t.year else 0)
        + ((if eqb 109 k then t.month else 0)
            + ((if eqb 100 k then t.day else 0) + (if eqb 115 k then t.second_of_day else 0)))
unfolding show_time
counted_time k t = ground (
  arith,
  counted-letters k "y" t.year
      (letters "m" t.month (letters "d" t.day (letters "s" t.second_of_day ""))),
  counted-letters k "m" t.month (letters "d" t.day (letters "s" t.second_of_day "")),
  counted-letters k "d" t.day (letters "s" t.second_of_day ""),
  counted-letters k "s" t.second_of_day "",
  counted-nil k,
)

in_letters : Formats
unfolding show_time read_time letters counted
in_letters = record {
  format_time = show_time;
  parse_time = read_time;
  itoa = λ n. letters "n" n "";
  atoi = counted 110;
  format_cost = λ c. letters "c" ((c + 50) / 100) "";
  parse_cost = λ s. counted 99 s * 100;
  add = λ a b. a + b + 1;
}

read-show_time : (t : Stamp) → read_time (show_time t) ≡ some (to_second t)
unfolding read_time
read-show_time t =
    let year : counted 121 (show_time t) ≡ t.year = ground (arith, counted_time 121 t) in
    let month : counted 109 (show_time t) ≡ t.month = ground (arith, counted_time 109 t) in
    let day : counted 100 (show_time t) ≡ t.day = ground (arith, counted_time 100 t) in
    let second : counted 115 (show_time t) ≡ t.second_of_day = ground (arith, counted_time 115 t) in
    λ i. some (record {
      year = year i;
      month = month i;
      day = day i;
      second_of_day = second i;
      nanosecond = 0;
    })

rounded-IsNear : (c : ℕ) → IsNear 50 (in_letters.parse_cost (in_letters.format_cost c)) c
unfolding in_letters
rounded-IsNear c =
    let read : counted 99 (letters "c" ((c + 50) / 100) "") ≡ (c + 50) / 100 =
      ground (arith, counted-letters 99 "c" ((c + 50) / 100) "", counted-nil 99) in
    (omega (arith, read), omega (arith, read))

in_letters-IsFormats : IsFormats in_letters 50 1 10000
unfolding in_letters
in_letters-IsFormats = record {
  times = λ t dated. read-show_time t;
  ints = λ n. ground (arith, counted-letters 110 "n" n "", counted-nil 110);
  costs = rounded-IsNear;
  sums = λ a b fits. (omega arith, omega arith);
}

abbrev today : Stamp
today = record { year = 2025; month = 6; day = 1; second_of_day = 60; nanosecond = 5 }

abbrev a_call : Record
a_call = record {
  timestamp = today;
  provider = "anthropic";
  model = "m";
  input_tokens = 10;
  output_tokens = 20;
  cost_usd = 1234;
  session_id = "s";
}

abbrev a_tracker : Tracker
a_tracker = record { daily_limit = 1000; monthly_limit = 0 }

calls_fit :
    total_of (this_month today) (a_call ∷ a_call ∷ []) + for_each (50 + 1) (a_call ∷ a_call ∷ [])
    ≤ 10000
unfolding total_of for_each
calls_fit = omega arith

check_budget_bounds_example :
    let records = a_call ∷ a_call ∷ [] in
    let day = total_of (this_day today) records in
    let month = total_of (this_month today) records in
    let slack = for_each (50 + 1) records in
    let result = check_budget in_letters a_tracker today (add_records in_letters records missing) in
    (0 < a_tracker.daily_limit → a_tracker.daily_limit + slack ≤ day → result ≢ within)
    × (0 < a_tracker.monthly_limit → a_tracker.monthly_limit + slack ≤ month → result ≢ within)
    × ((0 < a_tracker.daily_limit → day + slack < a_tracker.daily_limit)
        → (0 < a_tracker.monthly_limit → month + slack < a_tracker.monthly_limit)
        → result ≡ within)
check_budget_bounds_example =
    check_budget_bounds in_letters 50 1 10000 a_tracker today (a_call ∷ a_call ∷ [])
      in_letters-IsFormats (omega arith, (omega arith, tt)) calls_fit

-- A row of another width makes the reader fail, and then every call is allowed.
fails_open :
    check_budget in_letters a_tracker today (rows (("x" ∷ []) ∷ ("x" ∷ "y" ∷ []) ∷ [])) ≡ within
unfolding check_budget read_records is_even_table all_of_width
fails_open = refl

-- A write that fails is reported as a success.
lost_record : add_record in_letters (breaks missing) a_call missing ≡ (ok tt, missing)
unfolding add_record
lost_record = refl
