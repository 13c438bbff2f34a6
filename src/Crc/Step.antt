-- ===== src/Crc/Step.antt =====
-- One round, one byte and the whole loop of the checksum: range and injectivity.
use modbusgw.Base.{
  ℕ, zero, suc, ◌+◌, ◌*◌, ◌/◌, ◌%◌, ◌^◌, ◌<◌, bit_xor, ◌≡◌, refl, ap, ◌∙◌, arith, [], ◌∷◌, Bytes,
  IsByte, All, ◌++◌,
}
use native.Mathlib.Nat.{pow-suc}
use modbusgw.Base.Bits.{bit_and_mask, xor-lt, xor_injective, xor_comm, xor_top_bit}
use modbusgw.Crc.{crc_bit, crc_rounds, crc_loop}

-- The polynomial has the top bit, so an odd register can be told from an even one afterwards.
xor-poly : (x : ℕ) → x < 2 ^ 15 → bit_xor x 0xA001 ≡ 2 ^ 15 + bit_xor x 0x2001
xor-poly x h = xor_top_bit 15 x 0x2001 h (omega arith)

crc_bit-lt : (c : ℕ) → c < 2 ^ 16 → crc_bit c < 2 ^ 16
unfolding crc_bit
crc_bit-lt c h = ground (arith, xor-lt 16 (c / 2) 0xA001)

crc_bit-even : (c : ℕ) → c % 2 ≡ 0 → crc_bit c ≡ c / 2
unfolding crc_bit
crc_bit-even c e = ground (arith, bit_and_mask 1 c)

crc_bit-odd : (c : ℕ) → c % 2 ≡ 1 → crc_bit c ≡ bit_xor (c / 2) 0xA001
unfolding crc_bit
crc_bit-odd c e = ground (arith, bit_and_mask 1 c)

crc_bit_injective : (c d : ℕ) → c < 2 ^ 16 → d < 2 ^ 16 → crc_bit c ≡ crc_bit d → c ≡ d
crc_bit_injective c d hc hd e = ground (
  arith,
  crc_bit-even c,
  crc_bit-odd c,
  crc_bit-even d,
  crc_bit-odd d,
  xor-poly (c / 2),
  xor-poly (d / 2),
  xor_injective (c / 2) (d / 2) 0xA001,
)

crc_rounds-lt : (n c : ℕ) → c < 2 ^ 16 → crc_rounds n c < 2 ^ 16
unfolding crc_rounds
crc_rounds-lt zero c h = h
crc_rounds-lt (suc n) c h = crc_rounds-lt n (crc_bit c) (crc_bit-lt c h)

crc_rounds_injective :
    (n c d : ℕ) → c < 2 ^ 16 → d < 2 ^ 16 → crc_rounds n c ≡ crc_rounds n d → c ≡ d
unfolding crc_rounds
crc_rounds_injective zero c d hc hd e = e
crc_rounds_injective (suc n) c d hc hd e =
    crc_bit_injective c d hc hd
      (crc_rounds_injective n (crc_bit c) (crc_bit d) (crc_bit-lt c hc) (crc_bit-lt d hd) e)

-- One pass of the loop over the bytes.
abbrev pub absorb : ℕ → ℕ → ℕ
absorb c b = crc_rounds 8 (bit_xor c b)

xor_byte-lt : (c b : ℕ) → c < 2 ^ 16 → b < 256 → bit_xor c b < 2 ^ 16
xor_byte-lt c b hc hb = xor-lt 16 c b hc (omega arith)

pub absorb-lt : (c b : ℕ) → c < 2 ^ 16 → b < 256 → absorb c b < 2 ^ 16
absorb-lt c b hc hb = crc_rounds-lt 8 (bit_xor c b) (xor_byte-lt c b hc hb)

absorb_injective : (c d b : ℕ) → c < 2 ^ 16 → d < 2 ^ 16 → b < 256 → absorb c b ≡ absorb d b → c ≡ d
absorb_injective c d b hc hd hb e = xor_injective c d b (
    crc_rounds_injective 8 (bit_xor c b) (bit_xor d b) (xor_byte-lt c b hc hb)
      (xor_byte-lt d b hd hb) e)

pub absorb_injective_byte :
    (c a b : ℕ) → c < 2 ^ 16 → a < 256 → b < 256 → absorb c a ≡ absorb c b → a ≡ b
absorb_injective_byte c a b hc ha hb e = xor_injective a b c (
    xor_comm a c
    ∙ crc_rounds_injective 8 (bit_xor c a) (bit_xor c b) (xor_byte-lt c a hc ha)
        (xor_byte-lt c b hc hb) e
    ∙ xor_comm c b)

pub crc_loop-lt : (xs : Bytes) (c : ℕ) → All IsByte xs → c < 2 ^ 16 → crc_loop xs c < 2 ^ 16
unfolding crc_loop
crc_loop-lt [] c bytes h = h
crc_loop-lt (b ∷ xs) c bytes h = crc_loop-lt xs (absorb c b) bytes.1 (absorb-lt c b h bytes.0)

pub crc_loop_injective :
    (xs : Bytes) (c d : ℕ)
    → All IsByte xs
    → c < 2 ^ 16
    → d < 2 ^ 16
    → crc_loop xs c ≡ crc_loop xs d
    → c ≡ d
unfolding crc_loop
crc_loop_injective [] c d bytes hc hd e = e
crc_loop_injective (b ∷ xs) c d bytes hc hd e = absorb_injective c d b hc hd bytes.0 (
    crc_loop_injective xs (absorb c b) (absorb d b) bytes.1 (absorb-lt c b hc bytes.0)
      (absorb-lt d b hd bytes.0) e)

pub crc_loop-append : (xs ys : Bytes) (c : ℕ) → crc_loop (xs ++ ys) c ≡ crc_loop ys (crc_loop xs c)
unfolding crc_loop
crc_loop-append [] ys c = refl
crc_loop-append (b ∷ xs) ys c = crc_loop-append xs ys (absorb c b)

mul-pow-suc : (q k : ℕ) → q * 2 ^ suc k ≡ 2 * (q * 2 ^ k)
mul-pow-suc q k = omega (arith, ap (λ (t : ℕ). q * t) (pow-suc 2 k))

-- Rounds on a register that ends in enough zeros only shift.
pub crc_rounds_shift : (n h : ℕ) → crc_rounds n (h * 2 ^ n) ≡ h
unfolding crc_rounds
crc_rounds_shift zero h = omega arith
crc_rounds_shift (suc n) h =
    ap (crc_rounds n) (
      crc_bit-even (h * 2 ^ suc n) (omega (arith, mul-pow-suc h n))
      ∙ omega (arith, mul-pow-suc h n))
    ∙ crc_rounds_shift n h
