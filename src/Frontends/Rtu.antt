-- ===== src/Frontends/Rtu.antt =====
-- modbusgw/frontends/serial_rtu.py: requests in RTU frames from a pseudo terminal. The flush timer,
-- the terminal and its symbolic link are left out: a frame is what has come in when the timer fires.
pub mod Laws
mod Tests
use modbusgw.Base.{
  ℕ, Bool, not, List, [], ◌∷◌, ◌++◌, Option, none, some, String, str_eq, ◌==◌, ltb, if◌then◌else◌,
  length, Bytes, Exn, Result, ok, raise, ◌>>=◌, to_bytes_little, from_bytes_little, but_last_two,
  last_two,
}
use modbusgw.Crc.{crc16_modbus}
use modbusgw.Messages.Pdu.{to_adu}
use modbusgw.Messages.Requests.{Request, request_from_adu}
use modbusgw.Messages.Responses.{Response, response_methods}
use modbusgw.Messages.Routing.{RoutedRequest, RoutedResponse}
use modbusgw.Bus.{GatewayBus, publish}
use modbusgw.Dispatcher.{Message, request, Step}

-- `is_started` says whether `_master_fd` is set.
pub record RtuFrontend : Type 0 where
  pub name : String
  pub buffer : Bytes
  pub is_started : Bool

abbrev pub Listening : Type 0
Listening = RtuFrontend × GatewayBus Message

-- `_read_loop` puts what it reads behind the buffer.
received_bytes : RtuFrontend → Bytes → RtuFrontend
received_bytes f chunk = record f { buffer = f.buffer ++ chunk }

pub rtu_request : String → Request → RoutedRequest
rtu_request name pdu = record { context = record { frontend = name; request_id = none }; pdu = pdu }

publish_decoded : Result Request → Listening → Step Listening
publish_decoded (raise e) s = (some (raise e), s)
publish_decoded (ok pdu) (f, bus) =
    let (outcome, bus') = publish bus "requests" (request (rtu_request f.name pdu)) in
    (outcome, (f, bus'))

finalize_bytes : Bytes → Listening → Step Listening
finalize_bytes frame s =
    if ltb (length frame) 4
    then (some (ok tt), s)
    else if not (from_bytes_little (last_two frame) == crc16_modbus (but_last_two frame))
    then (some (ok tt), s)
    else publish_decoded (request_from_adu (but_last_two frame) none) s

-- `_finalize_frame`; an empty buffer is too short, as any frame below four bytes
pub finalize_frame : Listening → Step Listening
finalize_frame (f, bus) = finalize_bytes f.buffer (record f { buffer = [] }, bus)

-- `_encode_response`: none if there is neither a response nor an exception
abbrev side : Option Response → Option Response → Option Response
side (some answer) exception = some answer
side none exception = exception

framed : Result Bytes → Result Bytes
framed adu = do body ← adu; trailer ← to_bytes_little (crc16_modbus body); ok (body ++ trailer)

encoded : Option Response → Option (Result Bytes)
encoded none = none
encoded (some pdu) = some (framed (to_adu pdu).0)

rtu_response : RoutedResponse → Option (Result Bytes)
rtu_response m = encoded (side m.response m.exception)

module _ {W : Type 0} (write : Bytes → W → Result (Unit {0}) × W) where
  send : Bool → Option (Result Bytes) → W → Step W
  send is_started none w = (some (ok tt), w)
  send is_started (some (raise e)) w = (some (raise e), w)
  send is_started (some (ok frame)) w =
      if is_started
      then (let (outcome, w') = write frame w in (some outcome, w'))
      else (some (ok tt), w)

  -- `handle_response`
  pub handle_response : RtuFrontend → RoutedResponse → W → Step W
  handle_response f m w =
      if not (str_eq m.context.frontend f.name)
      then (some (ok tt), w)
      else send f.is_started (rtu_response m) w
