-- ===== src/Messages/Responses/Tests.antt =====
-- The round trip of responses at an exception.
use modbusgw.Base.{◌∷◌, [], none, ◌≡◌, refl, ok, Bytes}
use modbusgw.Messages.Pdu.{new, to_adu}
use modbusgw.Messages.Responses.{
  Response, response_methods, response_from_adu, encode_response, response_code, exception_response,
}
use modbusgw.Messages.Responses.Framing.{arrived, response_from_adu-to_adu}

-- Illegal data address, to a read of holding registers.
abbrev refusal : Response
refusal = new 17 (exception_response 3 2)

abbrev refusal_frame : Bytes
refusal_frame = 17 ∷ 131 ∷ 2 ∷ []

refusal_sent : (to_adu refusal).0 ≡ ok refusal_frame
unfolding to_adu encode_response response_code
refusal_sent = refl

response_from_adu-to_adu_example :
    response_from_adu refusal_frame none ≡ ok (arrived refusal refusal_frame none)
response_from_adu-to_adu_example = response_from_adu-to_adu refusal none tt refusal_sent
