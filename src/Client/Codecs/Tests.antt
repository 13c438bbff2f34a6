-- ===== src/Client/Codecs/Tests.antt =====
-- The theorems on frames at a request for ten registers.
use modbusgw.Base.{[], ◌∷◌, ok, ◌≡◌, refl, Bytes}
use modbusgw.Crc.{crc16_modbus}
use modbusgw.Client.Codecs.{shift_bit, shift_rounds, shift_loop, client_crc, strip_rtu_frame}
use modbusgw.Client.Codecs.Rtu.{client_crc-eq-crc16_modbus}

-- Ten holding registers of unit 1, from register 0.
abbrev ten_registers : Bytes
ten_registers = 1 ∷ 3 ∷ 0 ∷ 0 ∷ 0 ∷ 10 ∷ []

accepted : strip_rtu_frame (1 ∷ 3 ∷ 0 ∷ 0 ∷ 0 ∷ 10 ∷ 0xC5 ∷ 0xCD ∷ []) ≡ ok ten_registers
unfolding strip_rtu_frame client_crc shift_loop shift_rounds shift_bit
accepted = refl

client_crc-eq-crc16_modbus_example : client_crc ten_registers ≡ crc16_modbus ten_registers
client_crc-eq-crc16_modbus_example = client_crc-eq-crc16_modbus ten_registers
