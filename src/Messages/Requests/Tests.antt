-- ===== src/Messages/Requests/Tests.antt =====
-- The theorems on requests at a write of two registers.
use modbusgw.Base.{◌∷◌, [], none, ◌↔◌, ◌≡◌, ◌<◌, refl, ok, Bytes}
use modbusgw.Messages.Pdu.{new, to_adu}
use modbusgw.Messages.Requests.{
  Request, request_methods, request_from_adu, encode_request, request_code,
  write_multiple_registers_request, pack_values,
}
use modbusgw.Messages.Requests.Framing.{arrived, request_from_adu-to_adu}
use modbusgw.Messages.Requests.Limits.{FitsRequest, to_adu_returns_iff}

-- Registers 1 and 2 of unit 17 become 10 and 258; the second value is given with a 17th bit.
abbrev two_registers : Request
two_registers = new 17 (write_multiple_registers_request 1 (10 ∷ 0x10102 ∷ []))

abbrev two_registers_frame : Bytes
two_registers_frame = 17 ∷ 16 ∷ 0 ∷ 1 ∷ 0 ∷ 2 ∷ 4 ∷ 0 ∷ 10 ∷ 1 ∷ 2 ∷ []

two_registers_sent : (to_adu two_registers).0 ≡ ok two_registers_frame
unfolding to_adu encode_request request_code pack_values
two_registers_sent = refl

request_from_adu-to_adu_example :
    request_from_adu two_registers_frame none ≡ ok (arrived two_registers two_registers_frame none)
request_from_adu-to_adu_example = request_from_adu-to_adu two_registers none tt two_registers_sent

to_adu_returns_iff_example :
    ((adu : Bytes) × ((to_adu two_registers).0 ≡ ok adu))
    ↔ ((17 < 256) × FitsRequest two_registers.body)
to_adu_returns_iff_example = to_adu_returns_iff two_registers
