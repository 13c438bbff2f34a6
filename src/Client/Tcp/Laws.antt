-- ===== src/Client/Tcp/Laws.antt =====
-- Reading an exact number of bytes, and transaction ids.
use modbusgw.Base.{
  ℕ, zero, suc, ◌+◌, ◌-◌, ◌≤◌, ◌<◌, Bool, true, false, [], ◌∷◌, ◌++◌, Option, none, some, ltb,
  if◌then◌else◌, length, length-append, Bytes, Result, ok, raise, transport_error,
  connection_closed, ◌≡◌, ◌≢◌, refl, ap, ◌∙◌, arith,
}
use modbusgw.Base.Bits.{bit_and_mask}
use modbusgw.Base.Exec.{Exec, pure, lift, ◌>>=◌}
use modbusgw.Messages.Pdu.{to_adu}
use modbusgw.Messages.Requests.{Request, request_methods}
use modbusgw.Client.Codecs.{build_mbap_frame}
use modbusgw.Client.Tcp.{
  take_transaction_id, sendall, exchange, finish, run_request, is_caught, execute, connect,
  connected, TcpClient, Sockets, count_from, recv, collect, receive, read_more, read_exact,
}

-- A transaction id is a number from 1 to 65535, and the next one differs from it.
pub count_from_fresh :
    (n : ℕ)
    → let (id, next) = count_from n in (1 ≤ id) × (id < 0x10000) × ((count_from next).0 ≢ id)
unfolding count_from
count_from_fresh n = ground (
  arith,
  bit_and_mask 16 n,
  bit_and_mask 16 (n + 1),
  bit_and_mask 16 (n + 2),
  bit_and_mask 16 (n + 3),
)

-- `recv` brings no more than it is asked for.
abbrev pub Bounded : {W : Type 0} → Sockets W → Type 0
Bounded {W} net = (n : ℕ) (w : W) (chunk : Bytes) → (net.recv n w).0 ≡ ok chunk → length chunk ≤ n

-- What a reader that returns has: exactly that many bytes.
abbrev pub HasLength : ℕ → Option (Result Bytes) → Type 0
HasLength size none = ⊥
HasLength size (some (raise e)) = Unit {0}
HasLength size (some (ok bytes)) = length bytes ≡ size

less_of_ltb : (m n : ℕ) → ltb m n ≡ true → m < n
less_of_ltb m n h = ground arith

ended_exactly : (m n : ℕ) → ltb m n ≡ false → m ≤ n → m ≡ n
ended_exactly m n h k = ground arith

module _ {W : Type 0} (net : Sockets W) where
  -- What is left of a round, with how `recv` ended.
  ends-HasLength :
      (fuel size : ℕ) (bytes : Bytes) (later : Bytes → Exec (TcpClient × W) Bytes) (c : TcpClient)
      (outcome : Result Bytes) (w : W)
      → length bytes < size
      → size ≤ length bytes + suc fuel
      → ((chunk : Bytes) → outcome ≡ ok chunk → length chunk ≤ size - length bytes)
      → ((longer : Bytes) (s : TcpClient × W)
          → length longer ≤ size
          → size ≤ length longer + fuel
          → HasLength size (later longer s).0)
      → HasLength size (
          (((λ (s : TcpClient × W). (some outcome, (c, w))) >>= λ chunk.
          lift (collect bytes chunk) >>= λ longer. later longer)
            (c, w)).0)
  unfolding ◌>>=◌ collect
  ends-HasLength fuel size bytes later c (raise e) w h k b ih = tt
  ends-HasLength fuel size bytes later c (ok []) w h k b ih = tt
  ends-HasLength fuel size bytes later c (ok (x ∷ rest)) w h k b ih =
      ih (bytes ++ (x ∷ rest)) (c, w)
        (omega (arith, h, b (x ∷ rest) refl, length-append bytes (x ∷ rest)))
        (omega (arith, k, length-append bytes (x ∷ rest)))

  receive-HasLength :
      Bounded net
      → (fuel size : ℕ) (bytes : Bytes) (later : Bytes → Exec (TcpClient × W) Bytes)
        (s : TcpClient × W)
      → length bytes < size
      → size ≤ length bytes + suc fuel
      → ((longer : Bytes) (s : TcpClient × W)
          → length longer ≤ size
          → size ≤ length longer + fuel
          → HasLength size (later longer s).0)
      → HasLength size (receive net size bytes later s).0
  unfolding ◌>>=◌ receive recv
  receive-HasLength b fuel size bytes later (c, w) h k ih =
      let (outcome, w') = net.recv (size - length bytes) w in
      ends-HasLength fuel size bytes later c outcome w' h k
        (λ chunk e. b (size - length bytes) w chunk e) ih

  if-HasLength :
      (test : Bool) (size : ℕ) (x y : Exec (TcpClient × W) Bytes) (s : TcpClient × W)
      → (test ≡ true → HasLength size (x s).0)
      → (test ≡ false → HasLength size (y s).0)
      → HasLength size ((if test then x else y) s).0
  if-HasLength true size x y s h k = h refl
  if-HasLength false size x y s h k = k refl

  read_more-HasLength :
      Bounded net
      → (fuel size : ℕ) (bytes : Bytes) (s : TcpClient × W) → length bytes ≤ size
      → size ≤ length bytes + fuel
      → HasLength size (read_more net fuel size bytes s).0
  unfolding read_more
  read_more-HasLength b zero size bytes s h k = omega arith
  read_more-HasLength b (suc fuel) size bytes s h k =
      if-HasLength (ltb (length bytes) size) size
        (receive net size bytes (λ x. read_more net fuel size x)) (pure bytes) s
        (λ y.
          receive-HasLength b fuel size bytes (λ x. read_more net fuel size x) s
            (less_of_ltb (length bytes) size y) k
            (λ longer s' h' k'. read_more-HasLength b fuel size longer s' h' k'))
        (λ n. ended_exactly (length bytes) size n h)

  -- If `recv` brings no more bytes than it is asked for, `_read_exact` ends, in whatever pieces the
  -- bytes come in: it raises, or returns as many bytes as it was asked for.
  pub read_exact-HasLength :
      (size : ℕ) (s : TcpClient × W) → Bounded net → HasLength size (read_exact net size s).0
  unfolding read_exact
  read_exact-HasLength size s b = read_more-HasLength b size size [] s (omega arith) (omega arith)

  execute_connected :
      (c : TcpClient) (r : Request) (w : W)
      → c.has_socket ≡ true
      → execute net r (c, w) ≡ run_request net r (c, w)
  unfolding execute
  execute_connected c r w h =
      ap
        (λ (b : Bool).
          (if b
            then run_request net r (c, w)
            else (some (raise (connection_closed "TCP client is not connected")), (c, w))))
        h

  connect_connected :
      (c : TcpClient) (w : W) → c.has_socket ≡ true → connect net (c, w) ≡ (some (ok tt), (c, w))
  unfolding connect
  connect_connected c w h =
      ap (λ (b : Bool). (if b then (some (ok tt), (c, w)) else connected net c (net.create w))) h

  run_request_lost :
      (c : TcpClient) (r : Request) (w w1 w2 : W) {adu frame : Bytes}
      → (to_adu r).0 ≡ ok adu
      → build_mbap_frame (count_from c.next_count).0 adu ≡ ok frame
      → net.sendall frame w ≡ (ok tt, w1)
      → net.recv 7 w1 ≡ (ok [], w2)
      → run_request net r (c, w) ≡ (
        some (raise (transport_error "Connection closed by peer")),
        (record c { next_count = (count_from c.next_count).1 }, w2),
      )
  unfolding ◌>>=◌ run_request take_transaction_id exchange sendall read_exact read_more receive recv
      collect finish is_caught
  run_request_lost c r w w1 w2 ha hf hs hr = rw (ha, hf, hs, hr)

  -- If the client is connected and has sent its request, and the peer closes without a byte of an
  -- answer, `execute` raises TransportError, but the client keeps the closed socket: the next
  -- `connect` does nothing, and the client takes its socket for a connection.
  pub execute_keeps_dead_socket :
      (c : TcpClient) (r : Request) (w w1 w2 : W) {adu frame : Bytes}
      → c.has_socket ≡ true
      → (to_adu r).0 ≡ ok adu
      → build_mbap_frame (count_from c.next_count).0 adu ≡ ok frame
      → net.sendall frame w ≡ (ok tt, w1)
      → net.recv 7 w1 ≡ (ok [], w2)
      → let (outcome, (c', w')) = execute net r (c, w) in
        (outcome ≡ some (raise (transport_error "Connection closed by peer")))
        × (c'.has_socket ≡ true)
        × (connect net (c', w') ≡ (some (ok tt), (c', w')))
  execute_keeps_dead_socket c r w w1 w2 hc ha hf hs hr =
      let all = run_request_lost c r w w1 w2 ha hf hs hr in
      let c' : TcpClient = record c { next_count = (count_from c.next_count).1 } in
      let lost : execute net r (c, w)
          ≡ (some (raise (transport_error "Connection closed by peer")), (c', w2)) =
        execute_connected c r w hc ∙ all in
      rw lost (refl, hc, connect_connected c' w2 hc)
