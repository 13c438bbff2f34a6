-- ===== src/Frontends/Rtu/Tests.antt =====
-- The theorems on the RTU frontend at one request, and at that request with a damaged address.
use modbusgw.Base.{true, [], ◌∷◌, Bytes, refl, arith}
use modbusgw.Crc.{crc_bit, crc_rounds, crc_loop, crc16_modbus}
use modbusgw.Crc.Frames.{IsFramed}
use modbusgw.Messages.Pdu.{new}
use modbusgw.Messages.Requests.{Request, request_methods, read_holding_registers_request}
use modbusgw.Bus.{GatewayBus, new_bus}
use modbusgw.Dispatcher.{Message}
use modbusgw.Frontends.Rtu.{RtuFrontend}

abbrev reading : Request
reading = new 1 (read_holding_registers_request 0 10)

abbrev reading_adu : Bytes
reading_adu = 1 ∷ 3 ∷ 0 ∷ 0 ∷ 0 ∷ 10 ∷ []

abbrev frontend : Bytes → RtuFrontend
frontend buffer = record { name = "rtu"; buffer = buffer; is_started = true }

abbrev bus : GatewayBus Message
bus = new_bus 4

good : IsFramed (1 ∷ 3 ∷ 0 ∷ 0 ∷ 0 ∷ 10 ∷ 0xC5 ∷ 0xCD ∷ [])
unfolding crc16_modbus crc_loop crc_rounds crc_bit
good = record { bytes = omega arith; checked = refl }
