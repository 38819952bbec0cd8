-- ===== src/Cost/Tracker/Totals.antt =====
-- cost/tracker.go: the totals of the loop, and how far they are from the sums of the costs recorded.
use openharness.Prelude.{
  ℕ, Bool, ◌≡◌, ◌≤◌, refl, List, [], ◌∷◌, ◌&&◌, ◌+◌, eqb, if◌then◌else◌, inl, inr, Bool-cases,
  arith, map,
}
use openharness.Cost.Tracker.{Stamp, Record, Formats, same_month, add_up}

-- the sum of the costs of the records that pass a test
unfoldable pub total_of : (Record → Bool) → List Record → ℕ
total_of test [] = 0
total_of test (r ∷ more) = (if test r then r.cost_usd else 0) + total_of test more

abbrev pub this_month : Stamp → Record → Bool
this_month now r = same_month r.timestamp now

abbrev pub this_day : Stamp → Record → Bool
this_day now r = same_month r.timestamp now && eqb r.timestamp.day now.day

-- so much for each record
unfoldable pub for_each : ℕ → List Record → ℕ
for_each amount [] = 0
for_each amount (r ∷ more) = amount + for_each amount more

-- Two amounts are at most so far apart.
abbrev pub IsNear : ℕ → ℕ → ℕ → Type 0
IsNear within a b = (a ≤ b + within) × (b ≤ a + within)

-- the time that RFC 3339 keeps
abbrev pub to_second : Stamp → Stamp
to_second t = record t { nanosecond = 0 }

pub total_of-day_month :
    (now : Stamp) (records : List Record)
    → total_of (this_day now) records ≤ total_of (this_month now) records
unfolding total_of
total_of-day_month now [] = omega arith
total_of-day_month now (r ∷ more) = elim (Bool-cases (same_month r.timestamp now)) [
  | inr other ↦ rw (other) (omega (arith, total_of-day_month now more))
  | inl month ↦ elim (Bool-cases (eqb r.timestamp.day now.day)) [
    | inl day ↦ rw (month, day) (omega (arith, total_of-day_month now more))
    | inr other ↦ rw (month, other) (omega (arith, total_of-day_month now more))
  ]
]

module _ (fmt : Formats) where
  -- one total of the loop
  unfoldable pub added : (Record → Bool) → List Record → ℕ → ℕ
  added test [] total = total
  added test (r ∷ more) total = added test more (if test r then fmt.add total r.cost_usd else total)

  pub add_up-added :
      (now : Stamp) (records : List Record) (daily monthly : ℕ)
      → add_up fmt now records daily monthly
        ≡ (added (this_day now) records daily, added (this_month now) records monthly)
  unfolding add_up added
  add_up-added now [] daily monthly = refl
  add_up-added now (r ∷ more) daily monthly = elim (Bool-cases (same_month r.timestamp now)) [
    | inr other ↦ rw (other, add_up) (add_up-added now more daily monthly)
    | inl month ↦ elim (Bool-cases (eqb r.timestamp.day now.day)) [
      | inl day ↦
          rw (month, day, add_up)
            (add_up-added now more (fmt.add daily r.cost_usd) (fmt.add monthly r.cost_usd))
      | inr other ↦
          rw (month, other, add_up) (add_up-added now more daily (fmt.add monthly r.cost_usd))
    ]
  ]

  -- a record as it is read back
  abbrev pub logged : Record → Record
  logged r = record r {
    timestamp = to_second r.timestamp;
    cost_usd = fmt.parse_cost (fmt.format_cost r.cost_usd);
  }

  -- Up to a limit an addition is off by at most `rounding`.
  abbrev pub IsAdd : ℕ → ℕ → Type 0
  IsAdd rounding limit = (a b : ℕ) → a + b ≤ limit → IsNear rounding (fmt.add a b) (a + b)

  added-IsNear :
      (rounding limit : ℕ)
      → IsAdd rounding limit
      → (test : Record → Bool) (records : List Record) (total : ℕ)
      → total + total_of test records + for_each rounding records ≤ limit
      → IsNear
          (for_each rounding records)
          (added test records total)
          (total + total_of test records)
  unfolding added total_of for_each
  added-IsNear rounding limit adds test [] total fits = (omega arith, omega arith)
  added-IsNear rounding limit adds test (r ∷ more) total fits = elim (Bool-cases (test r)) [
    | inr other ↦
        let rest =
          added-IsNear rounding limit adds test more total (omega (arith, rw other at fits)) in
        rw (other) (omega (arith, rest.0), omega (arith, rest.1))
    | inl counted ↦
        let within = rw counted at fits in
        let step = adds total r.cost_usd (omega (arith, within)) in
        let rest =
          added-IsNear rounding limit adds test more (fmt.add total r.cost_usd)
            (omega (arith, within, step.0)) in
        rw (counted) (omega (arith, rest.0, step.0), omega (arith, rest.1, step.1))
  ]

  total_of-logged :
      (micro : ℕ)
      → ((c : ℕ) → IsNear micro (fmt.parse_cost (fmt.format_cost c)) c)
      → (test : Record → Bool) (records : List Record) → ((r : Record) → test (logged r) ≡ test r)
      → IsNear (for_each micro records) (total_of test (map logged records)) (total_of test records)
  unfolding total_of for_each
  total_of-logged micro near test [] same = (omega arith, omega arith)
  total_of-logged micro near test (r ∷ more) same =
      let rest = total_of-logged micro near test more same in
      let one = near r.cost_usd in
      elim (Bool-cases (test r)) [
        | inl counted ↦
            rw (same r, counted) (omega (arith, rest.0, one.0), omega (arith, rest.1, one.1))
        | inr other ↦ rw (same r, other) (omega (arith, rest.0), omega (arith, rest.1))
      ]

  for_each-map :
      (amount : ℕ) (records : List Record)
      → for_each amount (map logged records) ≡ for_each amount records
  unfolding for_each
  for_each-map amount [] = refl
  for_each-map amount (r ∷ more) = omega (arith, for_each-map amount more)

  for_each-sum :
      (a b : ℕ) (records : List Record)
      → for_each (a + b) records ≡ for_each a records + for_each b records
  unfolding for_each
  for_each-sum a b [] = omega arith
  for_each-sum a b (r ∷ more) = omega (arith, for_each-sum a b more)

  -- A total of the records as they are read back is off by at most a micro-dollar and the error of an
  -- addition for each record.
  pub added-logged :
      (micro rounding limit : ℕ)
      → ((c : ℕ) → IsNear micro (fmt.parse_cost (fmt.format_cost c)) c)
      → IsAdd rounding limit
      → (test : Record → Bool) (records : List Record) → ((r : Record) → test (logged r) ≡ test r)
      → total_of test records + for_each (micro + rounding) records ≤ limit
      → IsNear
          (for_each (micro + rounding) records)
          (added test (map logged records) 0)
          (total_of test records)
  added-logged micro rounding limit near adds test records same fits =
      let logs = total_of-logged micro near test records same in
      let split = for_each-sum micro rounding records in
      let kept = for_each-map rounding records in
      let sums =
        added-IsNear rounding limit adds test (map logged records) 0
          (omega (arith, fits, logs.0, split, kept)) in
      (omega (arith, sums.0, logs.0, split, kept), omega (arith, sums.1, logs.1, split, kept))
