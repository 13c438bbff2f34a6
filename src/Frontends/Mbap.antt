-- ===== src/Frontends/Mbap.antt =====
-- modbusgw/frontends/tcp_modbus.py, whose loop and whose replies unix_modbus_tcp.py repeats: clients
-- that speak Modbus/TCP. A client's stream is the bytes that it sends before it closes; a connection
-- is told apart by a number. Log messages are left out; the policies on who may connect are in Frontends/Tcp
-- and Frontends/Unix.
pub mod Laws
pub mod Loop
mod Tests
use modbusgw.Base.{
  ℕ, zero, suc, ◌+◌, ◌-◌, Bool, not, List, [], ◌∷◌, ◌++◌, Option, none, some, String, str_eq, ◌==◌,
  ltb, if◌then◌else◌, length, take, drop, get_or, Bytes, Exn, Result, ok, raise, ◌>>=◌,
  to_bytes_big, from_bytes_big,
}
use modbusgw.Messages.Pdu.{to_adu}
use modbusgw.Messages.Requests.{Request, request_from_adu}
use modbusgw.Messages.Responses.{Response, response_methods}
use modbusgw.Messages.Routing.{RoutedRequest, RoutedResponse}
use modbusgw.Bus.{GatewayBus, publish}
use modbusgw.Dispatcher.{Message, request, Step}

pub record PendingRequest : Type 0 where
  pub request_id : String
  pub writer : ℕ
  pub transaction_id : ℕ
  pub protocol_id : ℕ
  pub unit_id : ℕ
  pub client_id : String

pub record MbapFrontend : Type 0 where
  pub name : String
  pub pending : List (String × PendingRequest)

-- The dictionary `_pending`: reading, setting, removing a key, removing what one client sent
pub find_pending : String → List (String × PendingRequest) → Option PendingRequest
find_pending id [] = none
find_pending id ((key, p) ∷ rest) = if str_eq key id then some p else find_pending id rest

pub set_pending :
    String → PendingRequest → List (String × PendingRequest) → List (String × PendingRequest)
set_pending id p [] = (id, p) ∷ []
set_pending id p ((key, old) ∷ rest) =
    if str_eq key id then (key, p) ∷ rest else (key, old) ∷ set_pending id p rest

pub pop_pending : String → List (String × PendingRequest) → List (String × PendingRequest)
pop_pending id [] = []
pop_pending id ((key, p) ∷ rest) =
    if str_eq key id then pop_pending id rest else (key, p) ∷ pop_pending id rest

pub drop_client : String → List (String × PendingRequest) → List (String × PendingRequest)
drop_client client [] = []
drop_client client ((key, p) ∷ rest) =
    if str_eq p.client_id client
    then drop_client client rest
    else (key, p) ∷ drop_client client rest

-- `_response_adu`; none if there is neither a response nor an exception
abbrev side : Option Response → Option Response → Option Response
side (some answer) exception = some answer
side none exception = exception

adu_of : Option Response → Option (Result Bytes)
adu_of none = none
adu_of (some pdu) = some (to_adu pdu).0

pub response_adu : RoutedResponse → Option (Result Bytes)
response_adu m = adu_of (side m.response m.exception)

-- `_build_mbap`, and the frame of a reply
pub reply_mbap : ℕ → ℕ → ℕ → Result Bytes
reply_mbap transaction protocol size = do
  a ← to_bytes_big transaction
  b ← to_bytes_big protocol
  c ← to_bytes_big size
  ok (a ++ (b ++ c))

pub reply_frame : PendingRequest → Bytes → Result Bytes
reply_frame p adu = do
  mbap ← reply_mbap p.transaction_id p.protocol_id (length adu)
  ok (mbap ++ adu)

-- `write` and `drain` to a connection.
abbrev pub Writer : Type 0 → Type 0
Writer W = ℕ → Bytes → W → Option (Result (Unit {0})) × W

module _ {W : Type 0} (write : Writer W) where
  -- What writing raises is logged.
  pub logged : Option (Result (Unit {0})) → Option (Result (Unit {0}))
  logged none = none
  logged (some outcome) = some (ok tt)

  send : PendingRequest → Option (Result Bytes) → W → Step W
  send p none w = (some (ok tt), w)
  send p (some (raise e)) w = (some (raise e), w)
  send p (some (ok adu)) w = elim (reply_frame p adu) [
    | raise e ↦ (some (raise e), w)
    | ok frame ↦ let (outcome, w') = write p.writer frame w in (logged outcome, w')
  ]

  respond :
      RoutedResponse → String → Option PendingRequest → MbapFrontend × W → Step (MbapFrontend × W)
  respond m id none s = (some (ok tt), s)
  respond m id (some p) (f, w) =
      let (outcome, w') = send p (response_adu m) w in
      (outcome, (record f { pending = pop_pending id f.pending }, w'))

  answer : RoutedResponse → Option String → MbapFrontend × W → Step (MbapFrontend × W)
  answer m none s = (some (ok tt), s)
  answer m (some id) (f, w) =
      if str_eq id ""
      then (some (ok tt), (f, w))
      else respond m id (find_pending id f.pending) (f, w)

  -- `handle_response`
  pub handle_response : RoutedResponse → MbapFrontend × W → Step (MbapFrontend × W)
  handle_response m s = answer m m.context.request_id s

-- What one round of the client's loop finds in the stream: its end, a frame that is skipped, or a
-- request with its transaction id; and what is left of the stream.
pub data Arrival : Type 0 where
  ended : Arrival
  skipped : Bytes → Arrival
  arrives : ℕ → Request → Bytes → Arrival

-- `header[i:i + 2]` as a number
abbrev pub field : Bytes → ℕ → ℕ
field header i = from_bytes_big (take 2 (drop i header))

decoded : ℕ → Bytes → Result Request → Arrival
decoded transaction rest (ok pdu) = arrives transaction pdu rest
decoded transaction rest (raise e) = skipped rest

pub read_payload : Bytes → Bytes → Arrival
read_payload header stream =
    let remaining = field header 4 - 1 in
    if ltb (length stream) remaining
    then ended
    else if not (field header 2 == 0)
    then skipped (drop remaining stream)
    else decoded (field header 0) (drop remaining stream)
        (request_from_adu (get_or header 6 0 ∷ take remaining stream) none)

pub read_request : Bytes → Arrival
read_request stream =
    if ltb (length stream) 7
    then ended
    else if ltb (field (take 7 stream) 4) 1
    then skipped (drop 7 stream)
    else read_payload (take 7 stream) (drop 7 stream)
