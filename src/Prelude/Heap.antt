-- ===== src/Prelude/Heap.antt =====
-- Objects that are shared by reference: an address stands for a pointer, or for a Go map.
use Prim.Native.Nat.{ℕ, suc, ◌<◌}
use mathlib.Core.Path.{◌≡◌}
use mathlib.Core.Logic.{◌≢◌}
use mathlib.Core.Option.{Option, none, some}
use native.Mathlib.Omega.{arith}
use openharness.Prelude.Tests.{eqb, if◌then◌else◌}

pub record Heap {ℓ} (V : Type ℓ) : Type ℓ where
  pub next : ℕ
  pub at : ℕ → Option V

module _ {ℓ} {V : Type ℓ} where
  unfoldable pub new_heap : Heap V
  new_heap = record { next = 0; at = λ _. none }

  unfoldable pub read : Heap V → ℕ → Option V
  read h a = h.at a

  unfoldable pub write : ℕ → V → Heap V → Heap V
  write a v h = record h { at = λ b. if eqb a b then some v else h.at b }

  -- a new object, at `h.next`
  unfoldable pub alloc : V → Heap V → Heap V
  unfolding write
  alloc v h = record (write h.next v h) { next = suc h.next }

  pub read-write_self : (a : ℕ) (v : V) (h : Heap V) → read (write a v h) a ≡ some v
  unfolding read write
  read-write_self a v h = ground arith

  pub read-write_ne : (a b : ℕ) (v : V) (h : Heap V) → a ≢ b → read (write a v h) b ≡ read h b
  unfolding read write
  read-write_ne a b v h other = ground (arith, other)

  pub read-alloc_self : (v : V) (h : Heap V) → read (alloc v h) h.next ≡ some v
  unfolding read alloc write
  read-alloc_self v h = ground arith

  pub read-alloc_ne : (b : ℕ) (v : V) (h : Heap V) → b < h.next → read (alloc v h) b ≡ read h b
  unfolding read alloc write
  read-alloc_ne b v h below = ground arith
