-- ===== src/Backends/Serial.antt =====
-- modbusgw/backends/serial.py: RTU frames over a serial line, with retries. A line gives what the
-- device sends, byte by byte; when nothing more comes, reading times out.
pub mod Reading
pub mod Submit
mod Tests
use modbusgw.Base.{
  ℕ, zero, suc, ◌+◌, ◌-◌, Bool, ◌&&◌, not, List, [], ◌∷◌, ◌++◌, Option, none, some, String, ◌==◌,
  ltb, leb, if◌then◌else◌, length, Bytes, Exn, Result, ok, raise, ◌>>=◌, value_error, timeout_error,
  to_bytes_little, from_bytes_little, but_last_two, last_two,
}
use modbusgw.Crc.{crc16_modbus}
use modbusgw.Messages.Pdu.{Pdu}
use modbusgw.Messages.Requests.{Request}
use modbusgw.Messages.Responses.{Response, is_exception, response_from_adu}
use modbusgw.Messages.Routing.{RoutedRequest, RoutedResponse}

-- `_has_valid_crc`
pub has_valid_crc : Bytes → Bool
has_valid_crc buffer = from_bytes_little (last_two buffer) == crc16_modbus (but_last_two buffer)

-- `_read_response`, with the buffer and what the line still brings
pub read_loop : Bytes → Bytes → Result Bytes × Bytes
read_loop buffer [] = (raise (timeout_error "Serial response timed out"), [])
read_loop buffer (chunk ∷ line) =
    let longer = buffer ++ (chunk ∷ []) in
    let later = read_loop longer line in
    if ltb 256 (length longer)
    then (raise (value_error "Serial response exceeded maximum frame length"), line)
    else if leb 4 (length longer) && has_valid_crc longer
    then (ok longer, line)
    else later

pub read_response : Bytes → Result Bytes × Bytes
read_response line = read_loop [] line

-- `_decode_response`: a response or an exception
abbrev sorted : Response → Option Response × Option Response
sorted answer = if is_exception answer.body then (none, some answer) else (some answer, none)

pub decode_frame : Bytes → Result (Option Response × Option Response)
decode_frame frame =
    if ltb (length frame) 4
    then raise (value_error "Response frame too short")
    else if not (from_bytes_little (last_two frame) == crc16_modbus (but_last_two frame))
    then raise (value_error "CRC mismatch on response")
    else do answer ← response_from_adu (but_last_two frame) none; ok (sorted answer)

-- The payload that a request is sent as.
pub rtu_payload : Bytes → Result Bytes
rtu_payload adu = do trailer ← to_bytes_little (crc16_modbus adu); ok (adu ++ trailer)

pub serial_reply :
    String → RoutedRequest → Request → Option Response × Option Response → RoutedResponse
serial_reply name r sent (answer, exception) = record {
  context = record {
    frontend = r.context.frontend;
    backend = name;
    request_id = r.context.request_id;
  };
  request = some sent;
  response = answer;
  exception = exception;
  error = none;
}
