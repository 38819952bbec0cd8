-- ===== src/Harness/StreamStore/Log.antt =====
-- harness/stream_store.go: the log of a session as `GetEvents` shows it.
use openharness.Prelude.{
  ℕ, ◌+◌, ◌≤◌, ◌<◌, ◌≡◌, refl, sym, ap, ◌∙◌, List, [], ◌∷◌, ◌++◌, arith, leb, if◌then◌else◌,
  Bool-cases, inl, inr,
}
use openharness.Prelude.Int64.{sign_bit}
use openharness.Harness.Types.{Event}

-- the events at a position or after it
unfoldable pub since : ℕ → List Event → List Event
since from [] = []
since from (ev ∷ log) = if leb from ev.position then ev ∷ since from log else since from log

-- The positions grow from a first one on, and stay inside an int64.
abbrev pub Ascends : ℕ → List Event → Type 0
Ascends from [] = Unit {0}
Ascends from (ev ∷ log) =
    (from ≤ ev.position) × (ev.position + 1 < sign_bit) × Ascends (ev.position + 1) log

since_in :
    (from : ℕ) (ev : Event) (log : List Event)
    → from ≤ ev.position
    → since from (ev ∷ log) ≡ ev ∷ since from log
unfolding since
since_in from ev log h = ground arith

since_out :
    (from : ℕ) (ev : Event) (log : List Event)
    → ev.position < from
    → since from (ev ∷ log) ≡ since from log
unfolding since
since_out from ev log h = ground arith

pub since-append :
    (from : ℕ) (a b : List Event) → since from (a ++ b) ≡ since from a ++ since from b
unfolding since
since-append from [] b = refl
since-append from (ev ∷ a) b = elim (Bool-cases (leb from ev.position)) [
  | inl keep ↦ rw (keep, since) (ap (◌∷◌ ev) (since-append from a b))
  | inr skip ↦ rw (skip, since) (since-append from a b)
]

pub since-since : (n m : ℕ) (log : List Event) → n ≤ m → since m (since n log) ≡ since m log
unfolding since
since-since n m [] h = refl
since-since n m (ev ∷ log) h = ground (arith, since-since n m log h)

Ascends-weaken : (n m : ℕ) (log : List Event) → n ≤ m → Ascends m log → Ascends n log
Ascends-weaken n m [] h a = tt
Ascends-weaken n m (ev ∷ log) h (first, room, rest) = (omega arith, room, rest)

pub since-Ascends : (n : ℕ) (log : List Event) → Ascends n log → since n log ≡ log
unfolding since
since-Ascends n [] a = refl
since-Ascends n (ev ∷ log) (first, room, rest) =
    since_in n ev log first
    ∙ ap (◌∷◌ ev) (since-Ascends n log (Ascends-weaken n (ev.position + 1) log (omega arith) rest))

-- After the first event has been read, the rest of the log is left.
pub since_next :
    (n : ℕ) (ev : Event) (rest log : List Event)
    → Ascends n (ev ∷ rest)
    → since n log ≡ ev ∷ rest
    → since (ev.position + 1) log ≡ rest
since_next n ev rest log (first, room, asc) seen =
    sym (since-since n (ev.position + 1) log (omega arith))
    ∙ ap (since (ev.position + 1)) seen
    ∙ since_out (ev.position + 1) ev rest (omega arith)
    ∙ since-Ascends (ev.position + 1) rest asc
