-- ===== src/Client/Tcp.antt =====
-- modbusgw_client/tcp_client.py: one request at a time over a socket. Sockets are a parameter; a
-- socket that times out or fails raises, and `recv` gives no bytes when the peer has closed.
pub mod Laws
mod Tests
use modbusgw.Base.{
  ℕ, zero, suc, ◌+◌, ◌-◌, ◌%◌, ◌^◌, bit_and, Bool, true, false, not, List, [], ◌∷◌, ◌++◌, Option,
  none, some, String, ◌==◌, ltb, if◌then◌else◌, length, Bytes, Exn, Result, ok, raise, raise_if,
  value_error, byte_range, timeout_error, is_os_error, transport_error, connection_closed,
}
use modbusgw.Base.Exec.{Exec, pure, fail, lift, attempt, ◌>>=◌, ◌>>◌}
use modbusgw.Messages.Pdu.{to_adu}
use modbusgw.Messages.Requests.{Request, request_methods}
use modbusgw.Messages.Responses.{Response, response_from_adu}
use modbusgw.Client.Codecs.{build_mbap_frame, parse_mbap_frame, field}

-- `has_socket` says whether `_socket` is set; `next_count` is what `_tx_counter` gives next.
pub record TcpClient : Type 0 where
  pub has_socket : Bool
  pub next_count : ℕ

abbrev pub new_client : TcpClient
new_client = record { has_socket = false; next_count = 1 }

pub record Sockets (W : Type 0) : Type 0 where
  pub create : W → Result (Unit {0}) × W
  pub sendall : Bytes → W → Result (Unit {0}) × W
  pub recv : ℕ → W → Result Bytes × W
  pub close_socket : W → W

-- `_next_transaction_id`, and the counter after it
pub count_from : ℕ → ℕ × ℕ
count_from n =
    if bit_and n 0xFFFF == 0 then (bit_and (n + 1) 0xFFFF, n + 2) else (bit_and n 0xFFFF, n + 1)

-- `except (OSError, ValueError)`: which exceptions that clause takes
pub is_caught : Exn → Bool
is_caught (value_error text) = true
is_caught byte_range = true
is_caught e = is_os_error e

-- What a round makes of the bytes that came: none are the end of the stream.
pub collect : Bytes → Bytes → Result Bytes
collect got [] = raise (transport_error "Connection closed by peer")
collect got (byte ∷ rest) = ok (got ++ (byte ∷ rest))

module _ {W : Type 0} (net : Sockets W) where
  abbrev pub Connected : Type 0 → Type 0
  Connected A = Exec (TcpClient × W) A

  pub connected : TcpClient → Result (Unit {0}) × W → Option (Result (Unit {0})) × (TcpClient × W)
  connected c (ok done, w) = (some (ok tt), (record c { has_socket = true }, w))
  connected c (raise e, w) =
      let raised =
        if is_os_error e then transport_error "Failed to establish TCP connection" else e in
      (some (raise raised), (c, w))

  -- `connect`, and `close`
  pub connect : Connected (Unit {0})
  connect (c, w) = if c.has_socket then (some (ok tt), (c, w)) else connected c (net.create w)

  close : Connected (Unit {0})
  close (c, w) = (
    some (ok tt),
    (record c { has_socket = false }, if c.has_socket then net.close_socket w else w),
  )

  pub take_transaction_id : Connected ℕ
  take_transaction_id (c, w) =
      let (id, next) = count_from c.next_count in
      (some (ok id), (record c { next_count = next }, w))

  pub sendall : Bytes → Connected (Unit {0})
  sendall frame (c, w) = let (outcome, w') = net.sendall frame w in (some outcome, (c, w'))

  pub recv : ℕ → Connected Bytes
  recv n (c, w) = let (outcome, w') = net.recv n w in (some outcome, (c, w'))

  -- `while len(data) < size`, with fuel; each round brings a byte or raises
  pub receive : ℕ → Bytes → (Bytes → Connected Bytes) → Connected Bytes
  receive size got later = do
    chunk ← recv (size - length got)
    longer ← lift (collect got chunk)
    later longer

  pub read_more : ℕ → ℕ → Bytes → Connected Bytes
  read_more zero size got = pure got
  read_more (suc fuel) size got =
      let later = read_more fuel size in
      if ltb (length got) size then receive size got later else pure got

  -- `_read_exact`
  pub read_exact : ℕ → Connected Bytes
  read_exact size = read_more size size []

  -- the body of the `try`
  pub exchange : Bytes → Connected (ℕ × Bytes)
  exchange frame = do
    sendall frame
    header ← read_exact 7
    payload ← read_exact (field header 4 - 1)
    lift (parse_mbap_frame header payload)

  pub finish : ℕ → Result (ℕ × Bytes) → Connected Response
  finish id (raise e) =
      if is_caught e
      then (do close; fail (transport_error "Modbus/TCP exchange failed"))
      else fail e
  finish id (ok (answered, adu)) = do
    lift (raise_if (not (answered == id)) (transport_error "Mismatched Modbus transaction id"))
    lift (response_from_adu adu none)

  pub run_request : Request → Connected Response
  run_request r = do
    id ← take_transaction_id
    adu ← lift (to_adu r).0
    frame ← lift (build_mbap_frame id adu)
    outcome ← attempt (exchange frame)
    finish id outcome

  -- `execute`
  pub execute : Request → Connected Response
  execute r (c, w) =
      if c.has_socket
      then run_request r (c, w)
      else (some (raise (connection_closed "TCP client is not connected")), (c, w))
