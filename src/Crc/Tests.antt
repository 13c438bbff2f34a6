-- ===== src/Crc/Tests.antt =====
-- The checksum theorems at concrete frames, and known checksums.
use modbusgw.Base.{◌≡◌, ◌≢◌, refl, arith, [], ◌∷◌}
use modbusgw.Crc.{crc_bit, crc_rounds, crc_loop, crc16_modbus}
use modbusgw.Crc.Laws.{crc16_modbus_detects}

-- The request of ten holding registers of unit 1.
crc_known : crc16_modbus (1 ∷ 3 ∷ 0 ∷ 0 ∷ 0 ∷ 10 ∷ []) ≡ 0xCDC5
unfolding crc16_modbus crc_loop crc_rounds crc_bit
crc_known = refl

crc16_modbus_detects_example : crc16_modbus (1 ∷ 3 ∷ 7 ∷ []) ≢ crc16_modbus (1 ∷ 4 ∷ 7 ∷ [])
crc16_modbus_detects_example =
    crc16_modbus_detects (1 ∷ []) (7 ∷ []) 3 4 (omega arith) (omega arith) (omega arith)
      (omega arith) (omega arith)
