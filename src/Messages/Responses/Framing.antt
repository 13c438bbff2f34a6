-- ===== src/Messages/Responses/Framing.antt =====
-- Whole response frames.
use modbusgw.Base.{ℕ, true, false, Option, some, none, Bytes, drop, ok, ◌≡◌, refl, ap}
use modbusgw.Messages.Pdu.{to_adu}
use modbusgw.Messages.Pdu.Framing.{to_adu-eq-ok}
use modbusgw.Messages.Responses.{
  Response, ResponseBody, response_methods, response_from_adu, is_exception, read_coils_response,
  read_discrete_inputs_response, read_holding_registers_response, read_input_registers_response,
  write_single_coil_response, write_single_register_response, write_multiple_coils_response,
  write_multiple_registers_response, exception_response, raw_response,
}
use modbusgw.Messages.Responses.RoundTrip.{received, IsUnregistered, decode_response-encode}

-- The response that a frame of this one decodes to.
abbrev pub arrived : Response → Bytes → Option Bytes → Response
arrived r adu mbap = record {
  unit_id = r.unit_id;
  body = received r.body;
  raw = record { raw_pdu = some (drop 2 adu); raw_adu = some adu; mbap = mbap };
}

-- Whatever `to_adu` writes for a response, `from_adu` reads as a response of the same class, from
-- the same unit and with the same fields, where a register value is cut to 16 bits and the function
-- code of an exception to 7 bits, and with the frame and its payload attached. A raw response must
-- not carry the function code of a registered class, or one with the top bit.
pub response_from_adu-to_adu :
    (r : Response) (mbap : Option Bytes) {adu : Bytes}
    → IsUnregistered r.body
    → (to_adu r).0 ≡ ok adu
    → response_from_adu adu mbap ≡ ok (arrived r adu mbap)
unfolding response_from_adu
response_from_adu-to_adu r mbap u h =
    let (payload, e, shape, hu, hc) = to_adu-eq-ok r h in
    rw (shape, decode_response-encode r.body u e)

abbrev pub IsException : ResponseBody → Type 0
IsException body = (base_code : ℕ) × (code : ℕ) × (body ≡ exception_response base_code code)

-- A reply has the response that arrived as its exception if the answer is one, and as its response
-- otherwise; the other of the two is empty.
abbrev pub Sorts : ResponseBody → Response → Option Response → Option Response → Type 0
Sorts body came response exception =
    (IsException body → (response ≡ none) × (exception ≡ some came))
    × (¬ IsException body → (response ≡ some came) × (exception ≡ none))

pub received-IsException :
    (body : ResponseBody) → IsException body → is_exception (received body) ≡ true
received-IsException body (base_code, code, e) = ap (λ b. is_exception (received b)) e

pub received-no_exception :
    (body : ResponseBody) → ¬ IsException body → is_exception (received body) ≡ false
received-no_exception (exception_response base_code code) n = absurd (n (base_code, code, refl))
received-no_exception (read_coils_response _) n = refl
received-no_exception (read_discrete_inputs_response _) n = refl
received-no_exception (read_holding_registers_response _) n = refl
received-no_exception (read_input_registers_response _) n = refl
received-no_exception (write_single_coil_response _ _) n = refl
received-no_exception (write_single_register_response _ _) n = refl
received-no_exception (write_multiple_coils_response _ _) n = refl
received-no_exception (write_multiple_registers_response _ _) n = refl
received-no_exception (raw_response _ _) n = refl
