-- ===== src/Messages/Requests/Framing.antt =====
-- Whole request frames.
use modbusgw.Base.{Option, some, Bytes, drop, ok, ◌≡◌}
use modbusgw.Messages.Pdu.{to_adu}
use modbusgw.Messages.Pdu.Framing.{to_adu-eq-ok}
use modbusgw.Messages.Requests.{Request, request_methods, request_from_adu}
use modbusgw.Messages.Requests.RoundTrip.{received, IsUnregistered, from_payload-encode}

-- The request that a frame of this one decodes to.
abbrev pub arrived : Request → Bytes → Option Bytes → Request
arrived r adu mbap = record {
  unit_id = r.unit_id;
  body = received r.body;
  raw = record { raw_pdu = some (drop 2 adu); raw_adu = some adu; mbap = mbap };
}

-- Whatever `to_adu` writes for a request, `from_adu` reads as a request of the same class, to the
-- same unit and with the same fields, where a register value is cut to 16 bits and the value of a
-- single coil has become the word that was sent, and with the frame and its payload attached. A
-- raw request must not carry the function code of a registered class.
pub request_from_adu-to_adu :
    (r : Request) (mbap : Option Bytes) {adu : Bytes}
    → IsUnregistered r.body
    → (to_adu r).0 ≡ ok adu
    → request_from_adu adu mbap ≡ ok (arrived r adu mbap)
unfolding request_from_adu
request_from_adu-to_adu r mbap u h =
    let (payload, e, shape, hu, hc) = to_adu-eq-ok r h in rw (shape, from_payload-encode r.body u e)
