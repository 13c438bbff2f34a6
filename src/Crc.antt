-- ===== src/Crc.antt =====
-- modbusgw/utils/crc.py: the checksum of Modbus RTU frames.
pub mod Step
pub mod Laws
pub mod Frames
mod Tests
use modbusgw.Base.{ℕ, zero, suc, ◌/◌, bit_and, bit_xor, List, [], ◌∷◌, ◌==◌, if◌then◌else◌, Bytes}

-- `if crc & 0x0001: crc = (crc >> 1) ^ 0xA001, else: crc >>= 1`
unfoldable pub crc_bit : ℕ → ℕ
crc_bit crc = if bit_and crc 0x0001 == 0 then crc / 2 else bit_xor (crc / 2) 0xA001

-- `for _ in range(8)`, with the count of rounds to go
unfoldable pub crc_rounds : ℕ → ℕ → ℕ
crc_rounds zero crc = crc
crc_rounds (suc n) crc = crc_rounds n (crc_bit crc)

-- `for byte in data`
unfoldable pub crc_loop : Bytes → ℕ → ℕ
crc_loop [] crc = crc
crc_loop (byte ∷ rest) crc = crc_loop rest (crc_rounds 8 (bit_xor crc byte))

unfoldable pub crc16_modbus : Bytes → ℕ
crc16_modbus xs = bit_and (crc_loop xs 0xFFFF) 0xFFFF
