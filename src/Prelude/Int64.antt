-- ===== src/Prelude/Int64.antt =====
-- Go's `int` and `int64` as bit patterns below 2^64, in two's complement.
use Prim.Native.Nat.{ℕ, ◌+◌, ◌%◌, ◌^◌, ◌<◌}
use mathlib.Core.Logic.{◌≢◌}
use mathlib.Core.Bool.{Bool, ◌&&◌}
use native.Mathlib.Omega.{arith}
use openharness.Prelude.Tests.{ltb}

-- the least pattern with the sign bit
abbrev pub sign_bit : ℕ
sign_bit = 2 ^ 63

abbrev pub modulus : ℕ
modulus = 2 ^ 64

-- `x++`, `x.Add(1)`
abbrev pub inc : ℕ → ℕ
inc n = (n + 1) % modulus

-- `x > 0`
abbrev pub is_pos : ℕ → Bool
is_pos n = ltb 0 n && ltb n sign_bit

-- An increment is never the value itself.
pub inc-ne : (n : ℕ) → n < modulus → inc n ≢ n
inc-ne n h = λ e. omega arith
