-- ===== src/Client/Codecs.antt =====
-- modbusgw_client/codecs.py: RTU and Modbus/TCP frames around an application data unit.
pub mod Rtu
pub mod Mbap
mod Tests
use modbusgw.Base.{
  ℕ, zero, suc, ◌+◌, ◌-◌, ◌/◌, bit_and, bit_xor, List, [], ◌∷◌, ◌++◌, not, ◌==◌, ltb, if◌then◌else◌,
  length, take, drop, get_or, Bytes, Result, ok, raise, raise_if, ◌>>=◌, ◌>>◌, value_error,
  to_bytes_little, to_bytes_big, from_bytes_little, from_bytes_big, bytes_one, but_last_two,
  last_two,
}

-- `lsb = crc & 0x0001; crc >>= 1; if lsb: crc ^= 0xA001`
unfoldable pub shift_bit : ℕ → ℕ
shift_bit crc =
    let lsb = bit_and crc 0x0001 in
    let shifted = crc / 2 in if not (lsb == 0) then bit_xor shifted 0xA001 else shifted

unfoldable pub shift_rounds : ℕ → ℕ → ℕ
shift_rounds zero crc = crc
shift_rounds (suc n) crc = shift_rounds n (shift_bit crc)

unfoldable pub shift_loop : Bytes → ℕ → ℕ
shift_loop [] crc = crc
shift_loop (byte ∷ rest) crc = shift_loop rest (shift_rounds 8 (bit_xor crc byte))

-- `crc16_modbus` of the client
unfoldable pub client_crc : Bytes → ℕ
client_crc xs = bit_and (shift_loop xs 0xFFFF) 0xFFFF

pub build_rtu_frame : Bytes → Result Bytes
build_rtu_frame adu = do trailer ← to_bytes_little (client_crc adu); ok (adu ++ trailer)

pub strip_rtu_frame : Bytes → Result Bytes
strip_rtu_frame frame =
    if ltb (length frame) 4
    then raise (value_error "RTU frame too short")
    else if not (from_bytes_little (last_two frame) == client_crc (but_last_two frame))
    then raise (value_error "RTU CRC mismatch")
    else ok (but_last_two frame)

unfoldable pub build_mbap_frame : ℕ → Bytes → Result Bytes
build_mbap_frame transaction_id (unit_id ∷ function ∷ rest) = do
  let pdu = function ∷ rest
  id ← to_bytes_big transaction_id
  size ← to_bytes_big (length pdu + 1)
  unit ← bytes_one unit_id
  ok ((id ++ ((0 ∷ 0 ∷ []) ++ (size ++ unit))) ++ pdu)
build_mbap_frame transaction_id _ = raise (value_error "ADU must contain unit id and function")

-- `header[i:i + 2]` as a number
abbrev pub field : Bytes → ℕ → ℕ
field header i = from_bytes_big (take 2 (drop i header))

-- The test `length - 1 != len(pdu)` is one of integers: a length of 0 never passes.
pub parse_mbap_frame : Bytes → Bytes → Result (ℕ × Bytes)
parse_mbap_frame header pdu =
    if not (length header == 7)
    then raise (value_error "MBAP header must be 7 bytes")
    else if not (field header 2 == 0)
    then raise (value_error "Unsupported protocol id")
    else if not (field header 4 == length pdu + 1)
    then raise (value_error "MBAP length mismatch")
    else do unit ← bytes_one (get_or header 6 0); ok (field header 0, unit ++ pdu)
