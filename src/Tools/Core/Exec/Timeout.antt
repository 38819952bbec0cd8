-- ===== src/Tools/Core/Exec/Timeout.antt =====
-- tools/core/exec.go: the timeout of a command.
use openharness.Prelude.{
  ℕ, true, false, ◌≡◌, refl, ◌≤◌, ◌<◌, ◌⊎◌, inl, inr, ◌*◌, ◌%◌, ltb, if◌then◌else◌, arith,
  Bool-cases,
}
use openharness.Prelude.Int64.{is_pos, modulus, sign_bit}
use openharness.Tools.Core.Exec.{capped, timeout, max_timeout, default_timeout}

capped_bounds : (asked : ℕ) → (capped asked ≤ max_timeout) ⊎ (sign_bit ≤ capped asked)
capped_bounds asked = elim (Bool-cases (ltb max_timeout asked)) [
  | inr less ↦ inl (ground (arith, less))
  | inl more ↦ elim (Bool-cases (ltb asked sign_bit)) [
    | inl small ↦ inl (ground (arith, small, more))
    | inr large ↦ inr (ground (arith, large, more))
  ]
]

capped_small :
    (asked : ℕ)
    → asked < sign_bit
    → (capped asked ≤ max_timeout)
      × (capped asked ≡ (if ltb max_timeout asked then max_timeout else asked))
capped_small asked h = (ground (arith, h), ground (arith, h))

-- A timeout is at most 120 s, or negative, so that it has passed before the command starts. It is the
-- one asked for, or 120 s if that is less, where the milliseconds are positive and their nanoseconds
-- fit into an int64, and 30 s where they are not positive.
pub timeout_bounds :
    (timeout_ms : ℕ)
    → ((timeout timeout_ms ≤ max_timeout) ⊎ (sign_bit ≤ timeout timeout_ms))
      × ((is_pos timeout_ms ≡ true)
          → timeout_ms * 1000000 < sign_bit
          → (timeout timeout_ms ≤ max_timeout)
            × (timeout timeout_ms ≡ (
                if ltb max_timeout (timeout_ms * 1000000)
                then max_timeout
                else timeout_ms * 1000000)))
      × ((is_pos timeout_ms ≡ false) → timeout timeout_ms ≡ default_timeout)
unfolding timeout
timeout_bounds timeout_ms = (
  capped_bounds (if is_pos timeout_ms then timeout_ms * 1000000 % modulus else default_timeout),
  λ positive fits.
      let exact : timeout_ms * 1000000 % modulus ≡ timeout_ms * 1000000 = omega (arith, fits) in
      rw (positive, exact) (capped_small (timeout_ms * 1000000) fits),
  λ other. rw (other, timeout) refl,
)
