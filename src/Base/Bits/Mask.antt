-- ===== src/Base/Bits/Mask.antt =====
-- `&` with a mask of low bits is a remainder; `&` and `|` with a single bit read and set it.
use Prim.Native.Nat.{ℕ, zero, suc, ◌+◌, ◌-◌, ◌*◌, ◌/◌, ◌%◌, ◌^◌, ◌≤◌, ◌<◌, bit_and, bit_or}
use mathlib.Core.Path.{◌≡◌, ap}
use mathlib.Core.Bool.{Bool, not, ◌||◌}
use native.Mathlib.Nat.{pow-suc, one-le-pow}
use native.Mathlib.Omega.{arith}
use modbusgw.Base.Tests.{◌==◌}
use modbusgw.Base.Bits.Step.{bit_and_step, bit_or_step}

-- `k` bounds the number of halvings.
bit_and-zero_below : (k a : ℕ) → a ≤ k → bit_and a 0 ≡ 0
bit_and-zero_below k zero h = omega (arith, bit_and_step 0 0)
bit_and-zero_below zero (suc a) h = absurd (omega arith)
bit_and-zero_below (suc k) (suc a) h =
    omega (arith, bit_and_step (suc a) 0, bit_and-zero_below k (suc a / 2) (omega arith))

bit_and-zero : (a : ℕ) → bit_and a 0 ≡ 0
bit_and-zero a = bit_and-zero_below a a (omega arith)

bit_or-zero_below : (k a : ℕ) → a ≤ k → bit_or a 0 ≡ a
bit_or-zero_below k zero h = omega (arith, bit_or_step 0 0)
bit_or-zero_below zero (suc a) h = absurd (omega arith)
bit_or-zero_below (suc k) (suc a) h =
    omega (arith, bit_or_step (suc a) 0, bit_or-zero_below k (suc a / 2) (omega arith))

bit_or-zero : (a : ℕ) → bit_or a 0 ≡ a
bit_or-zero a = bit_or-zero_below a a (omega arith)

pub mod_double : (a m : ℕ) → 0 < m → a % (2 * m) ≡ a / 2 % m * 2 + a % 2
mod_double a m h = grind arith

-- A mask of `k` low bits keeps the remainder by `2 ^ k`.
pub bit_and_mask : (k a : ℕ) → bit_and a (2 ^ k - 1) ≡ a % 2 ^ k
bit_and_mask zero a = omega (arith, bit_and-zero a)
bit_and_mask (suc k) a = ground (
  arith,
  bit_and_step a (2 ^ suc k - 1),
  pow-suc 2 k,
  one-le-pow k 2,
  mod_double a (2 ^ k),
  bit_and_mask k (a / 2),
)

-- Bit `k` of `a`.
abbrev pub bit : ℕ → ℕ → Bool
bit a zero = a % 2 == 1
bit a (suc k) = bit (a / 2) k

-- `a & (1 << k)` is not 0 exactly where bit `k` is set.
pub bit_and_single : (k a : ℕ) → (bit_and a (2 ^ k) == 0) ≡ not (bit a k)
bit_and_single zero a = ground (arith, bit_and_step a 1, bit_and-zero (a / 2))
bit_and_single (suc k) a =
    ground (arith, bit_and_step a (2 ^ suc k), pow-suc 2 k, bit_and_single k (a / 2))

bit_or-half : (a b : ℕ) → bit_or a b / 2 ≡ bit_or (a / 2) (b / 2)
bit_or-half a b = omega (arith, bit_or_step a b)

half_single : (j : ℕ) → 2 ^ suc j / 2 ≡ 2 ^ j
half_single j = omega (arith, pow-suc 2 j)

-- `a | (1 << k)` changes nothing below bit `k`.
pub bit_or_single-mod : (k a : ℕ) → bit_or a (2 ^ k) % 2 ^ k ≡ a % 2 ^ k
bit_or_single-mod zero a = omega arith
bit_or_single-mod (suc k) a = ground (
  arith,
  bit_or_step a (2 ^ suc k),
  pow-suc 2 k,
  one-le-pow k 2,
  mod_double (bit_or a (2 ^ suc k)) (2 ^ k),
  mod_double a (2 ^ k),
  ap (λ (t : ℕ). bit_or (a / 2) t % 2 ^ k) (half_single k),
  ap (λ (t : ℕ). t % 2 ^ k) (bit_or-half a (2 ^ suc k)),
  bit_or_single-mod k (a / 2),
)

-- `a | (1 << j)` sets bit `j` and no other.
pub bit-bit_or_single : (j k a : ℕ) → bit (bit_or a (2 ^ j)) k ≡ ((j == k) || bit a k)
bit-bit_or_single zero zero a = ground (arith, bit_or_step a 1)
bit-bit_or_single zero (suc k) a = rw (bit_or-half, bit_or-zero) (ground arith)
bit-bit_or_single (suc j) zero a = ground (arith, bit_or_step a (2 ^ suc j), pow-suc 2 j)
bit-bit_or_single (suc j) (suc k) a =
    rw (bit_or-half, half_single) (ground (arith, bit-bit_or_single j k (a / 2)))
