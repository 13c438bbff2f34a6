-- ===== src/Backends/Tcp.antt =====
-- modbusgw/backends/tcp.py: a pool of connections to a Modbus/TCP device. Connections are told
-- apart by identity; here they are numbered in the order in which they are made.
pub mod Pool
pub mod Submit
use modbusgw.Base.{
  ℕ, zero, suc, ◌+◌, ◌-◌, ◌*◌, ◌%◌, ◌^◌, Bool, true, false, ◌||◌, List, [], ◌∷◌, ◌++◌, Option, none,
  some, String, ◌==◌, ltb, not, if◌then◌else◌, length, take, drop, Bytes, Exn, Result, ok, raise,
  ◌>>=◌, to_bytes_big, from_bytes_big, bytes_one,
}
use modbusgw.Messages.Pdu.{to_adu}
use modbusgw.Messages.Requests.{Request, request_methods}
use modbusgw.Messages.Responses.{Response, is_exception, response_from_adu}
use modbusgw.Messages.Routing.{RoutedRequest, RoutedResponse}

-- The fields of `TcpModbusBackend`. `made` counts the connections that were ever made.
pub record TcpBackend : Type 0 where
  pub name : String
  pub pool_size : ℕ
  pub available : List ℕ
  pub connections : List ℕ
  pub total : ℕ
  pub tx_counter : ℕ
  pub made : ℕ

-- `__init__`
pub new_backend : String → ℕ → TcpBackend
new_backend name pool_size = record {
  name = name;
  pool_size = pool_size;
  available = [];
  connections = [];
  total = 0;
  tx_counter = 0;
  made = 0;
}

-- What asyncio gives: `open_connection` and `readexactly`, both under a timeout, `write` with
-- `drain`, which waits as long as the peer does not read, and `close`, whose errors are suppressed.
pub record Network (W : Type 0) : Type 0 where
  pub connect : W → Result (Unit {0}) × W
  pub write : ℕ → Bytes → W → Option (Result (Unit {0})) × W
  pub readexactly : ℕ → ℕ → W → Result Bytes × W
  pub close_writer : ℕ → W → W

-- `conn in self._connections`, and `remove`
pub elem : ℕ → List ℕ → Bool
elem c [] = false
elem c (d ∷ rest) = (c == d) || elem c rest

pub remove : ℕ → List ℕ → List ℕ
remove c [] = []
remove c (d ∷ rest) = if c == d then rest else d ∷ remove c rest

-- The pool after each of its changes.
pub taken : TcpBackend → List ℕ → TcpBackend
taken t rest = record t { available = rest }

pub opened : TcpBackend → TcpBackend
opened t = record t { connections = t.made ∷ t.connections; total = t.total + 1; made = t.made + 1 }

pub released : TcpBackend → ℕ → TcpBackend
released t c = record t { available = t.available ++ (c ∷ []) }

pub retired : TcpBackend → ℕ → TcpBackend
retired t c =
    if elem c t.connections
    then record t { connections = remove c t.connections; total = t.total - 1 }
    else t

pub closed : TcpBackend → TcpBackend
closed t = record t { available = []; connections = []; total = 0 }

-- `_next_transaction_id`
pub next_transaction_id : TcpBackend → ℕ × TcpBackend
next_transaction_id t =
    let n = (t.tx_counter + 1) % 0x10000 in
    let id = if n == 0 then 1 else n in (id, record t { tx_counter = id })

-- `_build_mbap`
pub build_mbap : ℕ → ℕ → Result Bytes
build_mbap id size = do a ← to_bytes_big id; b ← to_bytes_big size; ok (a ++ ((0 ∷ 0 ∷ []) ++ b))

-- The frame of a request: the header, and the data unit with its unit id in front.
pub request_frame : ℕ → Bytes → Result Bytes
request_frame id adu = do mbap ← build_mbap id (length adu); ok (mbap ++ adu)

-- `header[i:i + 2]` as a number
abbrev pub field : Bytes → ℕ → ℕ
field header i = from_bytes_big (take 2 (drop i header))

-- The reply to a request, as response or as exception.
pub routed_reply : String → RoutedRequest → Request → Response → RoutedResponse
routed_reply name r sent answer = record {
  context = record {
    frontend = r.context.frontend;
    backend = name;
    request_id = r.context.request_id;
  };
  request = some sent;
  response = if is_exception answer.body then none else some answer;
  exception = if is_exception answer.body then some answer else none;
  error = none;
}
