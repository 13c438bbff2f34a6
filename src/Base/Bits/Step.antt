-- ===== src/Base/Bits/Step.antt =====
-- The native bit operations are recursions on binary digits with a count of digits to go. Here the
-- count is dropped: each operation by one equation for its lowest digit.
use Prim.Native.Nat.{
  ℕ, zero, suc, ◌+◌, ◌*◌, ◌/◌, ◌%◌, ◌≤◌, ◌<◌, min, max, bit_and, bit_or, bit_xor, digits, differ,
  bit_and-bitwise, bit_or-bitwise, bit_xor-bitwise,
}
use mathlib.Core.Path.{◌≡◌, refl, sym, ap, ◌∙◌}
use native.Mathlib.Nat.{le_refl}
use native.Mathlib.Omega.{arith}

module _ (z : ℕ → ℕ) (f : ℕ → ℕ → ℕ) where
  -- Any count that is large enough gives what the number itself gives as a count.
  settled : (k n a b : ℕ) → n ≤ k → a ≤ n → digits z f n a b ≡ digits z f a a b
  settled k zero zero b p q = refl
  settled k zero (suc a) b p q = absurd (omega arith)
  settled k (suc n) zero b p q = refl
  settled zero (suc n) (suc a) b p q = absurd (omega arith)
  settled (suc k) (suc n) (suc a) b p q =
      let left = settled k n (suc a / 2) (b / 2) (omega arith) (omega arith) in
      let right = settled k a (suc a / 2) (b / 2) (omega arith) (omega arith) in
      ap (λ (t : ℕ). t * 2 + f (suc a % 2) (b % 2)) (left ∙ sym right)

  lowest :
      (a b : ℕ)
      → digits z f (suc a) (suc a) b
        ≡ digits z f (suc a / 2) (suc a / 2) (b / 2) * 2 + f (suc a % 2) (b % 2)
  lowest a b =
      ap (λ (t : ℕ). t * 2 + f (suc a % 2) (b % 2))
        (settled a a (suc a / 2) (b / 2) (le_refl a) (omega arith))

pub bit_and_step : (x y : ℕ) → bit_and x y ≡ bit_and (x / 2) (y / 2) * 2 + min (x % 2) (y % 2)
bit_and_step zero y = simp bit_and-bitwise (omega arith)
bit_and_step (suc x) y = simp bit_and-bitwise (lowest (λ rest. 0) min x y)

pub bit_or_step : (x y : ℕ) → bit_or x y ≡ bit_or (x / 2) (y / 2) * 2 + max (x % 2) (y % 2)
bit_or_step zero y = simp bit_or-bitwise (omega arith)
bit_or_step (suc x) y = simp bit_or-bitwise (lowest (λ rest. rest) max x y)

differ-mod_two : (x y : ℕ) → x < 2 → y < 2 → differ x y ≡ (x + y) % 2
differ-mod_two zero y p q = omega arith
differ-mod_two (suc zero) zero p q = omega arith
differ-mod_two (suc zero) (suc zero) p q = omega arith
differ-mod_two (suc zero) (suc (suc y)) p q = absurd (omega arith)
differ-mod_two (suc (suc x)) y p q = absurd (omega arith)

pub bit_xor_step : (a b : ℕ) → bit_xor a b ≡ bit_xor (a / 2) (b / 2) * 2 + (a % 2 + b % 2) % 2
bit_xor_step zero b = simp bit_xor-bitwise (omega arith)
bit_xor_step (suc a) b = simp bit_xor-bitwise (
    omega (
      arith,
      lowest (λ y. y) differ a b,
      differ-mod_two (suc a % 2) (b % 2) (omega arith) (omega arith),
    ))
