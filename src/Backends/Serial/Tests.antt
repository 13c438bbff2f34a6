-- ===== src/Backends/Serial/Tests.antt =====
-- The theorems on the serial backend at a device that refuses a request.
use modbusgw.Base.{Option, false, [], ◌∷◌, ◌++◌, none, some, le16, Bytes, Result, ok, ◌≡◌, refl}
use modbusgw.Crc.{crc_bit, crc_rounds, crc_loop, crc16_modbus}
use modbusgw.Messages.Pdu.{new, to_adu}
use modbusgw.Messages.Requests.{
  read_holding_registers_request, request_methods, encode_request, request_code,
}
use modbusgw.Messages.Responses.{
  Response, response_methods, exception_response, encode_response, response_code,
}
use modbusgw.Messages.Responses.Framing.{arrived, Sorts}
use modbusgw.Messages.Routing.{RoutedRequest, RoutedResponse}
use modbusgw.Dispatcher.Laws.{IsFaithful}
use modbusgw.Backends.Serial.{has_valid_crc, read_loop, read_response, decode_frame}
use modbusgw.Backends.Serial.Reading.{IsFrame, read_response-IsFrame, decode_frame-to_adu}
use modbusgw.Backends.Serial.Submit.{SessionFactory, SerialBackend, submit}
use modbusgw.Backends.Serial.Submit.Laws.{serial_submit-IsFaithful}
use modbusgw.Backends.Serial.Submit.Attempts.{IsAwake}
use modbusgw.Backends.Serial.Submit.Retries.{Tries, submit-Tries}

-- Unit 17 refuses to read: illegal data address.
abbrev refusal : Response
refusal = new 17 (exception_response 3 2)

abbrev refusal_frame : Bytes
refusal_frame = 17 ∷ 131 ∷ 2 ∷ 193 ∷ 52 ∷ []

-- The line brings the frame and one byte of noise.
read_refusal : (read_response (refusal_frame ++ (0 ∷ []))).0 ≡ ok refusal_frame
unfolding read_response read_loop has_valid_crc crc16_modbus crc_loop crc_rounds crc_bit
read_refusal = refl

read_response-IsFrame_example :
    IsFrame refusal_frame
    × (refusal_frame ++ (0 ∷ []) ≡ refusal_frame ++ (read_response (refusal_frame ++ (0 ∷ []))).1)
read_response-IsFrame_example = read_response-IsFrame (refusal_frame ++ (0 ∷ [])) read_refusal

decode_frame-to_adu_example :
    (sides : Option Response × Option Response) × (decode_frame
        ((17 ∷ 131 ∷ 2 ∷ []) ++ le16 (crc16_modbus (17 ∷ 131 ∷ 2 ∷ [])))
      ≡ ok sides)
    × Sorts refusal.body (arrived refusal (17 ∷ 131 ∷ 2 ∷ []) none) sides.0 sides.1
decode_frame-to_adu_example = decode_frame-to_adu refusal tt sent
  where
    sent : (to_adu refusal).0 ≡ ok (17 ∷ 131 ∷ 2 ∷ [])
    sent = unfold to_adu in unfold encode_response in unfold response_code in refl

-- The world is what the device has still to send.
abbrev line : SessionFactory Bytes
line = record {
  make = λ w. (some (ok tt), w);
  exchange = λ payload w. (some (read_response w).0, (read_response w).1);
  close_session = λ w. (some (ok tt), w);
}

line-IsAwake : IsAwake line
line-IsAwake = record {
  makes = λ w n. absurd (cc n);
  exchanges = λ payload w n. absurd (cc n);
  closes = λ w n. absurd (cc n);
}

abbrev reading : RoutedRequest
reading = record {
  context = record { frontend = "tcp"; request_id = some "1" };
  pdu = new 17 (read_holding_registers_request 0 1);
}

abbrev reading_adu : Bytes
reading_adu = 17 ∷ 3 ∷ 0 ∷ 0 ∷ 0 ∷ 1 ∷ []

abbrev meter : SerialBackend
meter = record { name = "meter"; max_attempts = 3; has_session = false }

submit-Tries_example :
    (outcome : Result RoutedResponse) × (s' : SerialBackend × Bytes) × (submit line reading
        (meter, refusal_frame)
      ≡ (some outcome, s'))
    × Tries line reading "meter"
        (reading_adu ++ le16 (crc16_modbus reading_adu))
        3
        (meter, refusal_frame)
        outcome
        s'
submit-Tries_example = submit-Tries line line-IsAwake reading meter refusal_frame sent
  where
    sent : (to_adu reading.pdu).0 ≡ ok reading_adu
    sent = unfold to_adu in unfold encode_request in unfold request_code in refl

serial_submit-IsFaithful_example : IsFaithful (submit line)
serial_submit-IsFaithful_example = serial_submit-IsFaithful line
