-- ===== src/Cost.antt =====
-- What model calls cost, and the budget (cost). An amount of money is a number of hundredths of a
-- micro-dollar: a `float64` is read as the exact amount.
pub mod Pricing
pub mod Tracker
