-- ===== src/Client/Codecs/Rtu.antt =====
-- RTU frames of the client: one checksum for both programs, a round trip, and damage that is seen.
use modbusgw.Base.{
  All-append, ℕ, zero, suc, ◌^◌, ◌<◌, ◌≤◌, bit_and, bit_xor, [], ◌∷◌, ◌++◌, All, IsByte, ltb,
  if◌then◌else◌, length, length-append, Bytes, ok, raise, ◌>>=◌, value_error, le16,
  from_bytes_little, from_bytes_little-le16, but_last_two, last_two, ◌≡◌, ◌≢◌, refl, ap, ◌∙◌, arith,
}
use modbusgw.Crc.{crc_bit, crc_rounds, crc_loop, crc16_modbus}
use modbusgw.Crc.Laws.{crc16_modbus-lt}
use modbusgw.Crc.Frames.{IsFramed, IsFramed-differ, but_last_two-append, last_two-append}
use modbusgw.Client.Codecs.{
  shift_bit, shift_rounds, shift_loop, client_crc, build_rtu_frame, strip_rtu_frame,
}

shift_bit-eq-crc_bit : (crc : ℕ) → shift_bit crc ≡ crc_bit crc
unfolding shift_bit crc_bit
shift_bit-eq-crc_bit crc = ground arith

shift_rounds-eq-crc_rounds : (n crc : ℕ) → shift_rounds n crc ≡ crc_rounds n crc
unfolding shift_rounds crc_rounds
shift_rounds-eq-crc_rounds zero crc = refl
shift_rounds-eq-crc_rounds (suc n) crc =
    ap (shift_rounds n) (shift_bit-eq-crc_bit crc) ∙ shift_rounds-eq-crc_rounds n (crc_bit crc)

shift_loop-eq-crc_loop : (xs : Bytes) (crc : ℕ) → shift_loop xs crc ≡ crc_loop xs crc
unfolding shift_loop crc_loop
shift_loop-eq-crc_loop [] crc = refl
shift_loop-eq-crc_loop (x ∷ xs) crc =
    ap (shift_loop xs) (shift_rounds-eq-crc_rounds 8 (bit_xor crc x))
    ∙ shift_loop-eq-crc_loop xs (crc_rounds 8 (bit_xor crc x))

-- The checksum of the client is the one of the gateway.
pub client_crc-eq-crc16_modbus : (xs : Bytes) → client_crc xs ≡ crc16_modbus xs
unfolding client_crc crc16_modbus
client_crc-eq-crc16_modbus xs = ap (λ t. bit_and t 0xFFFF) (shift_loop-eq-crc_loop xs 0xFFFF)

pub client_crc-lt : (xs : Bytes) → client_crc xs < 2 ^ 16
client_crc-lt xs = omega (arith, client_crc-eq-crc16_modbus xs, crc16_modbus-lt xs)

pub build_rtu_frame-eq-ok : (adu : Bytes) → build_rtu_frame adu ≡ ok (adu ++ le16 (client_crc adu))
unfolding build_rtu_frame
build_rtu_frame-eq-ok adu = ground (arith, client_crc-lt adu)

-- A frame that the client builds strips to what it was built from, if that is two bytes or more; a
-- shorter one is refused.
pub strip_rtu_frame-build_rtu_frame :
    (adu : Bytes)
    → (build_rtu_frame adu >>= strip_rtu_frame)
      ≡ (if ltb (length adu) 2 then raise (value_error "RTU frame too short") else ok adu)
strip_rtu_frame-build_rtu_frame adu =
    let trailed = but_last_two-append adu (client_crc adu) in
    let trailer = last_two-append adu (client_crc adu) in
    rw (build_rtu_frame-eq-ok adu) (
      unfold strip_rtu_frame in
      ground (
        arith,
        trailed,
        trailer,
        length-append adu (le16 (client_crc adu)),
        ap client_crc trailed,
        ap from_bytes_little trailer,
        from_bytes_little-le16 (client_crc adu),
      ))

-- The last two bytes are the checksum of the others.
abbrev pub Checks : Bytes → Type 0
Checks frame = from_bytes_little (last_two frame) ≡ client_crc (but_last_two frame)

strip_rtu_frame-eq-ok :
    (frame : Bytes) {adu : Bytes}
    → strip_rtu_frame frame ≡ ok adu
    → (4 ≤ length frame) × Checks frame
unfolding strip_rtu_frame
strip_rtu_frame-eq-ok frame h = ground arith

pub strip_rtu_frame-accepts :
    (frame : Bytes)
    → 4 ≤ length frame
    → Checks frame
    → strip_rtu_frame frame ≡ ok (but_last_two frame)
unfolding strip_rtu_frame
strip_rtu_frame-accepts frame h c = ground arith

strip_rtu_frame-mismatch :
    (frame : Bytes)
    → 4 ≤ length frame
    → ¬ Checks frame
    → strip_rtu_frame frame ≡ raise (value_error "RTU CRC mismatch")
unfolding strip_rtu_frame
strip_rtu_frame-mismatch frame h n = ground arith

Checks-IsFramed : (frame : Bytes) → All IsByte frame → Checks frame → IsFramed frame
Checks-IsFramed frame h c = record {
  bytes = h;
  checked = c ∙ client_crc-eq-crc16_modbus (but_last_two frame);
}

-- A frame of bytes that `strip_rtu_frame` accepts and that is changed in exactly one byte, also in
-- one of the checksum, is refused with a checksum error.
pub strip_rtu_frame_detects :
    (front back : Bytes) (a b : ℕ) {adu : Bytes}
    → All IsByte front
    → All IsByte back
    → a < 256
    → b < 256
    → a ≢ b
    → strip_rtu_frame (front ++ (a ∷ back)) ≡ ok adu
    → strip_rtu_frame (front ++ (b ∷ back)) ≡ raise (value_error "RTU CRC mismatch")
strip_rtu_frame_detects front back a b hf hk ha hb ne h =
    let (long, good) = strip_rtu_frame-eq-ok (front ++ (a ∷ back)) h in
    let long' : 4 ≤ length (front ++ (b ∷ back)) =
      omega (arith, long, length-append front (a ∷ back), length-append front (b ∷ back)) in
    strip_rtu_frame-mismatch (front ++ (b ∷ back)) long' (λ bad.
      IsFramed-differ front back a b (omega arith) ne
        (Checks-IsFramed _ (All-append IsByte front (a ∷ back) hf (ha, hk)) good)
        (Checks-IsFramed _ (All-append IsByte front (b ∷ back) hf (hb, hk)) bad))
