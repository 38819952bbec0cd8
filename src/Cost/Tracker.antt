-- ===== src/Cost/Tracker.antt =====
-- cost/tracker.go: the log of costs, a CSV file, and the budget that is checked against it.
-- The file is given by the rows that the CSV reader sees, and Go's formats of a time, an int and a
-- float are parameters, and so is the addition of two floats. A float is the number of times that it
-- has the smallest positive one, 2^-1074, of which every finite float64 is a multiple. A limit that is
-- not positive is 0, and costs are not negative.
pub mod Totals
pub mod Budget
mod Tests
use openharness.Prelude.{
  ℕ, String, Bool, true, false, Option, none, some, List, [], ◌∷◌, ◌++◌, ◌&&◌, ◌+◌, length, ltb,
  leb, eqb, if◌then◌else◌,
}
use openharness.Prelude.Result.{Result, ok, err}

-- a `time.Time` with the date that it has in its own zone
pub record Stamp : Type 0 where
  pub year : ℕ
  pub month : ℕ
  pub day : ℕ
  pub second_of_day : ℕ
  pub nanosecond : ℕ

pub record Record : Type 0 where
  pub timestamp : Stamp
  pub provider : String
  pub model : String
  pub input_tokens : ℕ
  pub output_tokens : ℕ
  pub cost_usd : ℕ
  pub session_id : String

-- `Format` and `Parse` of a time, `strconv.Itoa` and `Atoi`, `%.6f` and `ParseFloat`, and `+` of floats
pub record Formats : Type 0 where
  pub format_time : Stamp → String
  pub parse_time : String → Option Stamp
  pub itoa : ℕ → String
  pub atoi : String → ℕ
  pub format_cost : ℕ → String
  pub parse_cost : String → ℕ
  pub add : ℕ → ℕ → ℕ

pub record Tracker : Type 0 where
  pub daily_limit : ℕ
  pub monthly_limit : ℕ

-- the CSV file: its rows, or what keeps the reader from them
pub data File : Type 0 where
  missing unreadable garbled : File
  rows : List (List String) → File

-- a write that fails does so when the writer is flushed, and leaves some file behind
pub data Disk : Type 0 where
  works not_opened : Disk
  breaks : File → Disk

pub data TrackerError : Type 0 where
  not_opened_log not_read : TrackerError

pub data Verdict : Type 0 where
  within : Verdict
  daily_exceeded monthly_exceeded : ℕ → ℕ → Verdict

unfoldable pub record_row : Formats → Record → List String
record_row fmt r =
    fmt.format_time r.timestamp
    ∷ r.provider
    ∷ r.model
    ∷ fmt.itoa r.input_tokens
    ∷ fmt.itoa r.output_tokens
    ∷ fmt.format_cost r.cost_usd
    ∷ r.session_id
    ∷ []

-- a row at the end of the file, which `O_CREATE` makes
unfoldable pub with_row : List String → File → File
with_row row missing = rows (row ∷ [])
with_row row unreadable = unreadable
with_row row garbled = garbled
with_row row (rows old) = rows (old ++ row ∷ [])

-- `Record`: the error of the flush is not looked at
unfoldable pub add_record : Formats → Disk → Record → File → Result TrackerError Unit × File
unfolding record_row with_row
add_record fmt works r file = (ok tt, with_row (record_row fmt r) file)
add_record fmt not_opened r file = (err not_opened_log, file)
add_record fmt (breaks left) r file = (ok tt, left)

-- the record of a row of seven fields or more whose time parses
unfoldable pub row_record : Formats → List String → Option Record
row_record fmt (time ∷ provider ∷ model ∷ input ∷ output ∷ cost ∷ session ∷ _) =
    elim (fmt.parse_time time) [
      | none ↦ none
      | some timestamp ↦ some (record {
        timestamp = timestamp;
        provider = provider;
        model = model;
        input_tokens = fmt.atoi input;
        output_tokens = fmt.atoi output;
        cost_usd = fmt.parse_cost cost;
        session_id = session;
      })
    ]
row_record fmt _ = none

unfoldable pub row_records : Formats → List (List String) → List Record
unfolding row_record
row_records fmt [] = []
row_records fmt (row ∷ more) = elim (row_record fmt row) [
  | none ↦ row_records fmt more
  | some r ↦ r ∷ row_records fmt more
]

-- `csv.Reader` wants as many fields in each row as in the first
unfoldable pub all_of_width : ℕ → List (List String) → Bool
all_of_width n [] = true
all_of_width n (row ∷ more) = eqb (length row) n && all_of_width n more

unfoldable pub is_even_table : List (List String) → Bool
unfolding all_of_width
is_even_table [] = true
is_even_table (row ∷ more) = all_of_width (length row) more

unfoldable pub read_records : Formats → File → Result TrackerError (List Record)
unfolding row_records is_even_table
read_records fmt missing = ok []
read_records fmt unreadable = err not_read
read_records fmt garbled = err not_read
read_records fmt (rows table) =
    if is_even_table table then ok (row_records fmt table) else err not_read

abbrev pub same_month : Stamp → Stamp → Bool
same_month a b = eqb a.year b.year && eqb a.month b.month

-- the loop of `CheckBudget`, with the daily and the monthly total
unfoldable pub add_up : Formats → Stamp → List Record → ℕ → ℕ → ℕ × ℕ
add_up fmt now [] daily monthly = (daily, monthly)
add_up fmt now (r ∷ more) daily monthly =
    let month_only = add_up fmt now more daily (fmt.add monthly r.cost_usd) in
    let both = add_up fmt now more (fmt.add daily r.cost_usd) (fmt.add monthly r.cost_usd) in
    let other = add_up fmt now more daily monthly in
    if same_month r.timestamp now
    then (if eqb r.timestamp.day now.day then both else month_only)
    else other

unfoldable pub verdict : Tracker → ℕ → ℕ → Verdict
verdict t daily monthly =
    if ltb 0 t.daily_limit && leb t.daily_limit daily
    then daily_exceeded daily t.daily_limit
    else if ltb 0 t.monthly_limit && leb t.monthly_limit monthly
    then monthly_exceeded monthly t.monthly_limit
    else within

-- a log that cannot be read allows the call
unfoldable pub check_budget : Formats → Tracker → Stamp → File → Verdict
unfolding read_records add_up verdict
check_budget fmt t now file = elim (read_records fmt file) [
  | err _ ↦ within
  | ok records ↦ let totals = add_up fmt now records 0 0 in verdict t totals.0 totals.1
]
