-- ===== src/Messages/Requests/Limits.antt =====
-- Which requests `to_adu` can write: the bounds that `struct` and `bytes` put on the fields.
use modbusgw.Base.{
  ◌*◌, ◌^◌, ◌<◌, ◌≤◌, ◌++◌, [], ◌∷◌, length, Bytes, be16, bit_and, ok, pack_hh-eq-ok, >>=-eq-ok,
  arith, ◌≡◌, ◌↔◌, refl, true, false,
}
use modbusgw.Base.Bits.{bit_and_mask}
use modbusgw.Messages.Pdu.{to_adu}
use modbusgw.Messages.Pdu.Framing.{to_adu-eq-ok, to_adu-encode}
use modbusgw.Messages.Coils.{pack_coils}
use modbusgw.Messages.Coils.RoundTrip.{length-pack_coils}
use modbusgw.Messages.Requests.{
  RequestBody, read_coils_request, read_discrete_inputs_request, read_holding_registers_request,
  read_input_registers_request, write_single_coil_request, write_single_register_request,
  write_multiple_coils_request, write_multiple_registers_request, raw_request, flag, word, Request,
  encode_request, request_methods, encode_value, request_code, pack_hhb,
}
use modbusgw.Messages.Requests.RoundTrip.{pack_hhb-eq-ok, pack_values-words, words}

-- The fields that fit: 16 bits for an address and a quantity, and a byte count of one byte.
abbrev pub FitsRequest : RequestBody → Type 0
FitsRequest (read_coils_request a q) = (a < 2 ^ 16) × (q < 2 ^ 16)
FitsRequest (read_discrete_inputs_request a q) = (a < 2 ^ 16) × (q < 2 ^ 16)
FitsRequest (read_holding_registers_request a q) = (a < 2 ^ 16) × (q < 2 ^ 16)
FitsRequest (read_input_registers_request a q) = (a < 2 ^ 16) × (q < 2 ^ 16)
FitsRequest (write_single_coil_request a _) = a < 2 ^ 16
FitsRequest (write_single_register_request a _) = a < 2 ^ 16
FitsRequest (write_multiple_coils_request a values) = (a < 2 ^ 16) × (length values ≤ 2040)
FitsRequest (write_multiple_registers_request a values) = (a < 2 ^ 16) × (length values ≤ 127)
FitsRequest (raw_request _ fc) = fc < 256

encode-FitsRequest :
    (body : RequestBody) {p : Bytes}
    → encode_request body ≡ ok p
    → request_code body < 256
    → FitsRequest body
unfolding encode_request request_code
encode-FitsRequest (read_coils_request a q) h c = ground (arith, pack_hh-eq-ok a q h)
encode-FitsRequest (read_discrete_inputs_request a q) h c = ground (arith, pack_hh-eq-ok a q h)
encode-FitsRequest (read_holding_registers_request a q) h c = ground (arith, pack_hh-eq-ok a q h)
encode-FitsRequest (read_input_registers_request a q) h c = ground (arith, pack_hh-eq-ok a q h)
encode-FitsRequest (write_single_coil_request a v) h c = (pack_hh-eq-ok a (encode_value v) h).0
encode-FitsRequest (write_single_register_request a v) h c =
    (pack_hh-eq-ok a (bit_and v 0xFFFF) h).0
encode-FitsRequest (write_multiple_coils_request a values) h c =
    let n = length (pack_coils values) in
    let (header, made, whole) = >>=-eq-ok (pack_hhb a (length values) n) _ h in
    omega (arith, pack_hhb-eq-ok a (length values) n made, length-pack_coils values)
encode-FitsRequest (write_multiple_registers_request a values) h c =
    let n = length values in
    let (header, made, whole) = >>=-eq-ok (pack_hhb a n (n * 2)) _ h in
    omega (arith, pack_hhb-eq-ok a n (n * 2) made)
encode-FitsRequest (raw_request payload fc) h c = c

abbrev Encodes : RequestBody → Type 0
Encodes body = (p : Bytes) × (encode_request body ≡ ok p) × (request_code body < 256)

FitsRequest-encode : (body : RequestBody) → FitsRequest body → Encodes body
unfolding encode_request request_code
FitsRequest-encode (read_coils_request a q) f = (be16 a ++ be16 q, ground arith, omega arith)
FitsRequest-encode (read_discrete_inputs_request a q) f =
    (be16 a ++ be16 q, ground arith, omega arith)
FitsRequest-encode (read_holding_registers_request a q) f =
    (be16 a ++ be16 q, ground arith, omega arith)
FitsRequest-encode (read_input_registers_request a q) f =
    (be16 a ++ be16 q, ground arith, omega arith)
FitsRequest-encode (write_single_coil_request a (flag true)) f =
    (be16 a ++ be16 0xFF00, ground arith, omega arith)
FitsRequest-encode (write_single_coil_request a (flag false)) f =
    (be16 a ++ be16 0, ground arith, omega arith)
FitsRequest-encode (write_single_coil_request a (word v)) f =
    (be16 a ++ be16 (bit_and v 0xFFFF), ground (arith, bit_and_mask 16 v), omega arith)
FitsRequest-encode (write_single_register_request a v) f =
    (be16 a ++ be16 (bit_and v 0xFFFF), ground (arith, bit_and_mask 16 v), omega arith)
FitsRequest-encode (write_multiple_coils_request a values) f =
    let n = length (pack_coils values) in
    (
      ((be16 a ++ be16 (length values)) ++ (n ∷ [])) ++ pack_coils values,
      ground (arith, length-pack_coils values),
      omega arith,
    )
FitsRequest-encode (write_multiple_registers_request a values) f =
    let n = length values in
    let header = (be16 a ++ be16 n) ++ (n * 2 ∷ []) in
    (header ++ words values, ground (arith, pack_values-words header values), omega arith)
FitsRequest-encode (raw_request payload fc) f = (payload, refl, f)

-- `to_adu` of a request returns exactly when the unit fits a byte, an address and a quantity fit
-- 16 bits, there are at most 2040 coils or 127 registers, and a raw function code fits a byte.
pub to_adu_returns_iff :
    (r : Request)
    → ((adu : Bytes) × ((to_adu r).0 ≡ ok adu)) ↔ ((r.unit_id < 256) × FitsRequest r.body)
to_adu_returns_iff r = (
  λ s. let (payload, e, shape, hu, hc) = to_adu-eq-ok r s.1 in (hu, encode-FitsRequest r.body e hc),
  λ f. let (payload, e, hc) = FitsRequest-encode r.body f.1 in (_, to_adu-encode r e f.0 hc),
)
