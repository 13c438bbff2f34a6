-- ===== src/Crc/Laws.antt =====
-- What the checksum of modbusgw/utils/crc.py promises to those who frame and check with it.
use modbusgw.Base.{
  ℕ, ◌/◌, ◌%◌, ◌^◌, ◌<◌, ◌≡◌, ◌≢◌, sym, ap, ◌∙◌, arith, ◌∷◌, ◌++◌, Bytes, IsByte, All, All-append,
  le16,
}
use modbusgw.Base.Bits.{bit_and_mask, xor_clears, xor_self}
use modbusgw.Crc.{crc_rounds, crc_loop, crc16_modbus}
use modbusgw.Crc.Step.{
  absorb, absorb-lt, absorb_injective_byte, crc_loop-lt, crc_loop_injective, crc_loop-append,
  crc_rounds_shift,
}

-- The checksum fits the two bytes that every caller writes it to.
pub crc16_modbus-lt : (xs : Bytes) → crc16_modbus xs < 2 ^ 16
unfolding crc16_modbus
crc16_modbus-lt xs = omega (arith, bit_and_mask 16 (crc_loop xs 0xFFFF))

-- On bytes the final mask changes nothing.
crc16_modbus-eq-crc_loop : (xs : Bytes) → All IsByte xs → crc16_modbus xs ≡ crc_loop xs 0xFFFF
unfolding crc16_modbus
crc16_modbus-eq-crc_loop xs h =
    omega (arith, bit_and_mask 16 (crc_loop xs 0xFFFF), crc_loop-lt xs 0xFFFF h (omega arith))

-- A register that absorbs its own low byte moves its high byte down.
absorb_own_byte : (c : ℕ) → absorb c (c % 256) ≡ c / 256
absorb_own_byte c = ap (crc_rounds 8) (xor_clears 8 c) ∙ crc_rounds_shift 8 (c / 256)

absorb_self : (c : ℕ) → absorb c c ≡ 0
absorb_self c = ap (crc_rounds 8) (xor_self c) ∙ crc_rounds_shift 8 0

absorb_own_bytes : (c : ℕ) → crc_loop (le16 c) c ≡ 0
unfolding crc_loop
absorb_own_bytes c = ap (λ t. absorb t (c / 256)) (absorb_own_byte c) ∙ absorb_self (c / 256)

le16-IsByte : (c : ℕ) → c < 2 ^ 16 → All IsByte (le16 c)
le16-IsByte c h = omega arith

framed-IsByte : (xs : Bytes) → All IsByte xs → All IsByte (xs ++ le16 (crc16_modbus xs))
framed-IsByte xs h = All-append IsByte xs _ h (le16-IsByte _ (crc16_modbus-lt xs))

-- The checksum of a message of bytes that is followed by its own checksum, low byte first, is 0:
-- a receiver may check a frame with one pass over all of it.
pub crc16_modbus_residue :
    (xs : Bytes) → All IsByte xs → crc16_modbus (xs ++ le16 (crc16_modbus xs)) ≡ 0
crc16_modbus_residue xs h =
    crc16_modbus-eq-crc_loop _ (framed-IsByte xs h)
    ∙ ap (λ t. crc_loop (xs ++ le16 t) 0xFFFF) (crc16_modbus-eq-crc_loop xs h)
    ∙ crc_loop-append xs _ 0xFFFF
    ∙ absorb_own_bytes (crc_loop xs 0xFFFF)

-- Two messages of bytes that differ in exactly one byte have different checksums.
pub crc16_modbus_detects :
    (front back : Bytes) (a b : ℕ)
    → All IsByte front
    → All IsByte back
    → a < 256
    → b < 256
    → a ≢ b
    → crc16_modbus (front ++ (a ∷ back)) ≢ crc16_modbus (front ++ (b ∷ back))
unfolding crc_loop
crc16_modbus_detects front back a b hf hk ha hb ne e =
    let c = crc_loop front 0xFFFF in
    let hc : c < 2 ^ 16 = crc_loop-lt front 0xFFFF hf (omega arith) in
    let loop = λ (x : ℕ) (hx : x < 256).
      crc16_modbus-eq-crc_loop (front ++ (x ∷ back)) (All-append IsByte front _ hf (hx, hk))
      ∙ crc_loop-append front (x ∷ back) 0xFFFF in
    ne (
      absorb_injective_byte c a b hc ha hb (
        crc_loop_injective back (absorb c a) (absorb c b) hk (absorb-lt c a hc ha)
          (absorb-lt c b hc hb) (sym (loop a ha) ∙ e ∙ loop b hb)))
