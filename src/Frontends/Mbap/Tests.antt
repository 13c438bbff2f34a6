-- ===== src/Frontends/Mbap/Tests.antt =====
-- The theorems on the Modbus/TCP frontends at one client and one request.
use modbusgw.Base.{ℕ, List, [], ◌∷◌, ◌++◌, none, some, String, Bytes, ok, ◌≡◌, refl, arith}
use modbusgw.Messages.Pdu.{new, to_adu}
use modbusgw.Messages.Requests.{
  Request, request_methods, encode_request, request_code, read_holding_registers_request,
}
use modbusgw.Messages.Requests.Framing.{arrived}
use modbusgw.Messages.Responses.{response_methods, exception_response}
use modbusgw.Messages.Routing.{RoutedResponse}
use modbusgw.Frontends.Mbap.{PendingRequest, MbapFrontend, Writer, arrives, read_request}
use modbusgw.Frontends.Mbap.Laws.{request_bytes, read_request-to_adu}

abbrev reading : Request
reading = new 17 (read_holding_registers_request 0 1)

abbrev reading_adu : Bytes
reading_adu = 17 ∷ 3 ∷ 0 ∷ 0 ∷ 0 ∷ 1 ∷ []

reading_sent : (to_adu reading).0 ≡ ok reading_adu
unfolding to_adu encode_request request_code
reading_sent = refl

-- The stream goes on with a byte of the next frame.
read_request-to_adu_example :
    read_request (request_bytes 7 reading_adu ++ (0 ∷ []))
    ≡ arrives 7 (arrived reading reading_adu none) (0 ∷ [])
read_request-to_adu_example =
    read_request-to_adu 7 reading (0 ∷ []) tt reading_sent (omega arith) (omega arith)

abbrev pending : PendingRequest
pending = record {
  request_id = "tcp-c1:7";
  writer = 4;
  transaction_id = 7;
  protocol_id = 0;
  unit_id = 17;
  client_id = "tcp-c1";
}

abbrev frontend : MbapFrontend
frontend = record { name = "tcp"; pending = ("tcp-c1:7", pending) ∷ [] }

abbrev refused : RoutedResponse
refused = record {
  context = record { frontend = "tcp"; backend = "meter"; request_id = some "tcp-c1:7" };
  request = some reading;
  response = none;
  exception = some (new 17 (exception_response 3 2));
  error = none;
}

-- The world is what was written, each with its connection.
abbrev record_writes : Writer (List (ℕ × Bytes))
record_writes c frame w = (some (ok tt), (c, frame) ∷ w)

abbrev shown : ℕ → String
shown n = "7"
