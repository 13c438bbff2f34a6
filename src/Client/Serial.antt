-- ===== src/Client/Serial.antt =====
-- modbusgw_client/serial_client.py: one request at a time over a serial port. The port and the clock
-- are a parameter; a read gives no bytes when it times out.
pub mod Laws
pub mod Exchange
mod Tests
use modbusgw.Base.{
  ℕ, zero, suc, ◌+◌, ◌==◌, ltb, leb, ◌&&◌, Bool, true, false, List, [], ◌∷◌, ◌++◌, Option, none,
  some, if◌then◌else◌, length, Bytes, Exn, Result, ok, raise, serial_exception, transport_error,
  connection_closed, from_bytes_little, last_two, but_last_two,
}
use modbusgw.Base.Exec.{Exec, pure, fail, lift, attempt, ◌>>=◌, ◌>>◌}
use modbusgw.Messages.Pdu.{to_adu}
use modbusgw.Messages.Requests.{Request, request_methods}
use modbusgw.Messages.Responses.{Response, response_from_adu}
use modbusgw.Client.Codecs.{client_crc, build_rtu_frame, strip_rtu_frame}

-- `has_port` says whether `_serial` is set.
pub record SerialClient : Type 0 where
  pub has_port : Bool

pub record Port (W : Type 0) : Type 0 where
  -- the factory
  pub create : W → Result (Unit {0}) × W
  pub has_reset : Bool
  pub reset_input_buffer : W → Result (Unit {0}) × W
  pub write : Bytes → W → Result (Unit {0}) × W
  pub flush : W → Result (Unit {0}) × W
  pub read : ℕ → W → Result Bytes × W
  -- it is taken not to raise
  pub close_port : W → W
  -- how often the loop of `_read_frame` finds that its deadline has not come
  pub rounds : W → ℕ

-- `_has_valid_crc`
pub has_valid_crc : Bytes → Bool
has_valid_crc buffer =
    if ltb (length buffer) 4
    then false
    else from_bytes_little (last_two buffer) == client_crc (but_last_two buffer)

module _ {W : Type 0} (port : Port W) where
  abbrev pub Connected : Type 0 → Type 0
  Connected A = Exec (SerialClient × W) A

  abbrev pub on_port : {A : Type 0} → (W → Result A × W) → Connected A
  on_port act (c, w) = let (outcome, w') = act w in (some outcome, (c, w'))

  opened : SerialClient → Result (Unit {0}) × W → Option (Result (Unit {0})) × (SerialClient × W)
  opened c (ok done, w) = (some (ok tt), (record c { has_port = true }, w))
  opened c (raise e, w) = (some (raise (transport_error "Failed to open serial port")), (c, w))

  -- `connect`, and `close`
  pub connect : Connected (Unit {0})
  unfolding opened
  connect (c, w) = if c.has_port then (some (ok tt), (c, w)) else opened c (port.create w)

  pub close : Connected (Unit {0})
  close (c, w) =
      (some (ok tt), (record c { has_port = false }, if c.has_port then port.close_port w else w))

  -- the body of the `try`
  pub send : Bytes → Connected (Unit {0})
  send frame = do
    if port.has_reset then on_port port.reset_input_buffer else pure tt
    on_port (port.write frame)
    on_port port.flush

  pub sent : Result (Unit {0}) → Connected (Unit {0})
  unfolding close
  sent (ok done) = pure tt
  sent (raise serial_exception) = do close; fail (transport_error "Failed to write serial frame")
  sent (raise e) = fail e

  -- What a round of `_read_frame` makes of the bytes that it read, with the rounds after it
  pub received : (Bytes → Connected Bytes) → Bytes → Bytes → Connected Bytes
  received later buffer [] = later buffer
  received later buffer (x ∷ xs) =
      let longer = buffer ++ (x ∷ xs) in
      let on = later longer in
      if leb 4 (length longer) && has_valid_crc longer
      then pure longer
      else if ltb 256 (length longer)
      then fail (transport_error "Serial frame exceeded maximum length")
      else on

  pub read_loop : ℕ → Bytes → Connected Bytes
  read_loop zero buffer = fail (transport_error "Timed out waiting for serial response")
  read_loop (suc n) buffer = do
    chunk ← on_port (port.read 1)
    received (λ longer. read_loop n longer) buffer chunk

  -- `_read_frame`
  pub read_frame : Connected Bytes
  read_frame (c, w) = read_loop (port.rounds w) [] (c, w)

  pub run_request : Request → Connected Response
  run_request r = do
    adu ← lift (to_adu r).0
    frame ← lift (build_rtu_frame adu)
    outcome ← attempt (send frame)
    sent outcome
    raw ← read_frame
    answer ← lift (strip_rtu_frame raw)
    lift (response_from_adu answer none)

  -- `execute`
  pub execute : Request → Connected Response
  execute r (c, w) =
      if c.has_port
      then run_request r (c, w)
      else (some (raise (connection_closed "Serial client is not connected")), (c, w))
