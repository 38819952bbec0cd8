-- ===== src/Cost/Tracker/Budget.antt =====
-- cost/tracker.go: the verdict after costs have been recorded.
use openharness.Prelude.{
  ℕ, String, true, ◌≡◌, ◌≢◌, ◌≤◌, ◌<◌, refl, ap, sym, ◌∙◌, some, List, [], ◌∷◌, ◌++◌, ◌+◌, arith,
  map,
}
use mathlib.Core.List.{append-nil, append_assoc}
use openharness.Prelude.Result.{ok}
use openharness.Cost.Tracker.{
  Stamp, Record, Formats, Tracker, File, missing, rows, works, within, record_row, with_row,
  add_record, row_record, row_records, all_of_width, is_even_table, read_records, verdict,
  check_budget,
}
use openharness.Cost.Tracker.Totals.{
  total_of, this_month, this_day, for_each, IsNear, to_second, total_of-day_month, added,
  add_up-added, logged, IsAdd, added-logged,
}

-- What Go's formats and its floats promise: a printed int parses to itself, a time with a year of four
-- digits to its second, and an amount with six decimals to one at most a micro-dollar away; a sum up
-- to a limit is at most so far from the exact one.
pub record IsFormats (fmt : Formats) (micro rounding limit : ℕ) : Type 0 where
  pub times : (t : Stamp) → t.year < 10000 → fmt.parse_time (fmt.format_time t) ≡ some (to_second t)
  pub ints : (n : ℕ) → fmt.atoi (fmt.itoa n) ≡ n
  pub costs : (c : ℕ) → IsNear micro (fmt.parse_cost (fmt.format_cost c)) c
  pub sums : IsAdd fmt rounding limit

-- The years have four digits.
abbrev pub AllDated : List Record → Type 0
AllDated [] = Unit
AllDated (r ∷ more) = (r.timestamp.year < 10000) × AllDated more

-- the log after recording, on a disk that works
unfoldable pub add_records : Formats → List Record → File → File
add_records fmt [] file = file
add_records fmt (r ∷ more) file = add_records fmt more (add_record fmt works r file).1

module _ (fmt : Formats) {micro rounding limit : ℕ} (law : IsFormats fmt micro rounding limit) where
  row_record-logged :
      (r : Record)
      → r.timestamp.year < 10000
      → row_record fmt (record_row fmt r) ≡ some (logged fmt r)
  unfolding row_record record_row
  row_record-logged r dated =
      rw (law.times r.timestamp dated, row_record)
        (λ i. some (record {
          timestamp = to_second r.timestamp;
          provider = r.provider;
          model = r.model;
          input_tokens = law.ints r.input_tokens i;
          output_tokens = law.ints r.output_tokens i;
          cost_usd = fmt.parse_cost (fmt.format_cost r.cost_usd);
          session_id = r.session_id;
        }))

  row_records-logged :
      (records : List Record)
      → AllDated records
      → row_records fmt (map (record_row fmt) records) ≡ map (logged fmt) records
  unfolding row_records
  row_records-logged [] dated = refl
  row_records-logged (r ∷ more) dated =
      rw (row_record-logged r dated.0, row_records)
        (ap (λ l. logged fmt r ∷ l) (row_records-logged more dated.1))

  all_of_width-rows : (records : List Record) → all_of_width 7 (map (record_row fmt) records) ≡ true
  unfolding all_of_width record_row
  all_of_width-rows [] = refl
  all_of_width-rows (r ∷ more) = all_of_width-rows more

  is_even_table-rows : (records : List Record) → is_even_table (map (record_row fmt) records) ≡ true
  unfolding is_even_table record_row
  is_even_table-rows [] = refl
  is_even_table-rows (r ∷ more) = all_of_width-rows more

  add_records-rows :
      (records : List Record) (table : List (List String))
      → add_records fmt records (rows table) ≡ rows (table ++ map (record_row fmt) records)
  unfolding add_records add_record with_row
  add_records-rows [] table = ap rows (sym (append-nil table))
  add_records-rows (r ∷ more) table =
      add_records-rows more (table ++ record_row fmt r ∷ [])
      ∙ ap rows (append_assoc table (record_row fmt r ∷ []) (map (record_row fmt) more))

  -- Reading after recording gives the records, each as it is read back.
  pub read_records-add_records :
      (records : List Record)
      → AllDated records
      → read_records fmt (add_records fmt records missing) ≡ ok (map (logged fmt) records)
  unfolding read_records add_records add_record with_row
  read_records-add_records [] dated = refl
  read_records-add_records (r ∷ more) dated =
      ap (read_records fmt) (add_records-rows more (record_row fmt r ∷ []))
      ∙ rw (is_even_table-rows (r ∷ more)) (ap ok (row_records-logged (r ∷ more) dated))

  check_budget-add_records :
      (t : Tracker) (now : Stamp) (records : List Record)
      → AllDated records
      → check_budget fmt t now (add_records fmt records missing)
        ≡ verdict t
            (added fmt (this_day now) (map (logged fmt) records) 0)
            (added fmt (this_month now) (map (logged fmt) records) 0)
  unfolding check_budget
  check_budget-add_records t now records dated =
      rw (read_records-add_records records dated, check_budget, add_up-added) refl

verdict-within :
    (t : Tracker) (daily monthly : ℕ)
    → (0 < t.daily_limit → daily < t.daily_limit)
    → (0 < t.monthly_limit → monthly < t.monthly_limit)
    → verdict t daily monthly ≡ within
unfolding verdict
verdict-within t daily monthly day month = ground (arith, day, month)

verdict-daily :
    (t : Tracker) (daily monthly : ℕ)
    → 0 < t.daily_limit
    → t.daily_limit ≤ daily
    → verdict t daily monthly ≢ within
unfolding verdict
verdict-daily t daily monthly set reached = λ e. ground (arith, set, reached, e)

verdict-monthly :
    (t : Tracker) (daily monthly : ℕ)
    → 0 < t.monthly_limit
    → t.monthly_limit ≤ monthly
    → verdict t daily monthly ≢ within
unfolding verdict
verdict-monthly t daily monthly set reached = λ e. ground (arith, set, reached, e)

-- Where the formats and the floats keep their promises up to a limit: what the costs of the day and of
-- the month decide, once they are all recorded on a disk that works. With a slack of a micro-dollar and
-- the error of one addition for each record, and a month that fits under the limit of the promise, the
-- budget is exceeded where a total is past its limit by the slack, and the call is allowed where every
-- total is under its limit by more.
pub check_budget_bounds :
    (fmt : Formats) (micro rounding limit : ℕ) (t : Tracker) (now : Stamp) (records : List Record)
    → IsFormats fmt micro rounding limit
    → AllDated records
    → let day = total_of (this_day now) records in
      let month = total_of (this_month now) records in
      let slack = for_each (micro + rounding) records in
      let result = check_budget fmt t now (add_records fmt records missing) in
      month + slack ≤ limit
      → (0 < t.daily_limit → t.daily_limit + slack ≤ day → result ≢ within)
        × (0 < t.monthly_limit → t.monthly_limit + slack ≤ month → result ≢ within)
        × ((0 < t.daily_limit → day + slack < t.daily_limit)
            → (0 < t.monthly_limit → month + slack < t.monthly_limit)
            → result ≡ within)
check_budget_bounds fmt micro rounding limit t now records law dated fits =
    let read = check_budget-add_records fmt law t now records dated in
    let month =
      added-logged fmt micro rounding limit law.costs law.sums (this_month now) records (λ r. refl)
        fits in
    let day =
      added-logged fmt micro rounding limit law.costs law.sums (this_day now) records (λ r. refl)
        (omega (arith, fits, total_of-day_month now records)) in
    (
      λ set past. rw (read) (verdict-daily t _ _ set (omega (arith, past, day.0, day.1))),
      λ set past. rw (read) (verdict-monthly t _ _ set (omega (arith, past, month.0, month.1))),
      λ d m. rw (read) (
          verdict-within t _ _ (λ set. omega (arith, d set, day.0, day.1))
            (λ set. omega (arith, m set, month.0, month.1))),
    )
