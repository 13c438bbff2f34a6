-- ===== src/Base/Bits/Xor.antt =====
-- Exclusive or: it undoes itself, it keeps a range, and it clears or keeps the bits of a byte.
use Prim.Native.Nat.{ℕ, zero, suc, ◌+◌, ◌*◌, ◌/◌, ◌%◌, ◌^◌, ◌≤◌, ◌<◌, bit_xor, bit_xor-bitwise}
use mathlib.Core.Path.{◌≡◌, refl, ap, sym, ◌∙◌}
use native.Mathlib.Nat.{pow-suc, one-le-pow}
use native.Mathlib.Omega.{arith}
use modbusgw.Base.Bits.Step.{bit_xor_step}
use modbusgw.Base.Bits.Mask.{mod_double}

xor-half : (a b : ℕ) → bit_xor a b / 2 ≡ bit_xor (a / 2) (b / 2)
xor-half a b = omega (arith, bit_xor_step a b)

xor-mod_two : (a b : ℕ) → bit_xor a b % 2 ≡ (a % 2 + b % 2) % 2
xor-mod_two a b = omega (arith, bit_xor_step a b)

-- `k` bounds the number of halvings.
xor_twice_below : (k a b : ℕ) → a ≤ k → b ≤ k → bit_xor (bit_xor a b) b ≡ a
xor_twice_below zero zero zero p q = refl
xor_twice_below zero zero (suc b) p q = absurd (omega arith)
xor_twice_below zero (suc a) b p q = absurd (omega arith)
xor_twice_below (suc k) a b p q = omega (
  arith,
  bit_xor_step (bit_xor a b) b,
  xor-mod_two a b,
  ap (λ (t : ℕ). bit_xor t (b / 2)) (xor-half a b),
  xor_twice_below k (a / 2) (b / 2) (omega arith) (omega arith),
)

xor_twice : (a b : ℕ) → bit_xor (bit_xor a b) b ≡ a
xor_twice a b = xor_twice_below (a + b) a b (omega arith) (omega arith)

xor_comm_below : (k a b : ℕ) → a ≤ k → b ≤ k → bit_xor a b ≡ bit_xor b a
xor_comm_below zero zero zero p q = refl
xor_comm_below zero zero (suc b) p q = absurd (omega arith)
xor_comm_below zero (suc a) b p q = absurd (omega arith)
xor_comm_below (suc k) a b p q = omega (
  arith,
  bit_xor_step a b,
  bit_xor_step b a,
  xor_comm_below k (a / 2) (b / 2) (omega arith) (omega arith),
)

pub xor_comm : (a b : ℕ) → bit_xor a b ≡ bit_xor b a
xor_comm a b = xor_comm_below (a + b) a b (omega arith) (omega arith)

-- `x ^= b` loses nothing of `x`.
pub xor_injective : (a a' b : ℕ) → bit_xor a b ≡ bit_xor a' b → a ≡ a'
xor_injective a a' b e = sym (xor_twice a b) ∙ ap (λ t. bit_xor t b) e ∙ xor_twice a' b

pub xor-lt : (k a b : ℕ) → a < 2 ^ k → b < 2 ^ k → bit_xor a b < 2 ^ k
xor-lt zero zero zero p q = omega (arith, bit_xor_step 0 0)
xor-lt zero zero (suc b) p q = absurd (omega arith)
xor-lt zero (suc a) b p q = absurd (omega arith)
xor-lt (suc k) a b p q = ground (
  arith,
  pow-suc 2 k,
  bit_xor_step a b,
  xor-lt k (a / 2) (b / 2) (omega (arith, pow-suc 2 k)) (omega (arith, pow-suc 2 k)),
)

zero_xor : (a : ℕ) → bit_xor 0 a ≡ a
zero_xor a = bit_xor-bitwise 0 a

pub xor_self : (a : ℕ) → bit_xor a a ≡ 0
xor_self a = ap (λ t. bit_xor t a) (sym (zero_xor a)) ∙ xor_twice 0 a

div_double : (a m : ℕ) → 0 < m → a / (2 * m) ≡ a / 2 / m
div_double a m h = grind arith

-- To clear the `k` low bits of `a`.
pub xor_clears : (k a : ℕ) → bit_xor a (a % 2 ^ k) ≡ a / 2 ^ k * 2 ^ k
xor_clears zero a =
    let e : a % 2 ^ 0 ≡ 0 = omega arith in
    ap (λ t. bit_xor a t) e ∙ xor_comm a 0 ∙ zero_xor a ∙ omega arith
xor_clears (suc k) a = ground (
  arith,
  bit_xor_step a (a % 2 ^ suc k),
  pow-suc 2 k,
  mod_double a (2 ^ k),
  div_double a (2 ^ k),
  one-le-pow k 2,
  xor_clears k (a / 2),
)

-- The bit just above the range of the rest.
pub xor_top_bit : (k a b : ℕ) → a < 2 ^ k → b < 2 ^ k → bit_xor a (2 ^ k + b) ≡ 2 ^ k + bit_xor a b
xor_top_bit zero zero zero p q = refl
xor_top_bit zero zero (suc b) p q = absurd (omega arith)
xor_top_bit zero (suc a) b p q = absurd (omega arith)
xor_top_bit (suc k) a b p q = ground (
  arith,
  pow-suc 2 k,
  bit_xor_step a (2 ^ suc k + b),
  bit_xor_step a b,
  xor_top_bit k (a / 2) (b / 2) (omega (arith, pow-suc 2 k)) (omega (arith, pow-suc 2 k)),
)
