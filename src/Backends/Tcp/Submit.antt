-- ===== src/Backends/Tcp/Submit.antt =====
-- `submit` of modbusgw/backends/tcp.py, for a caller that awaits each request before the next.
pub mod Laws
pub mod Exchange
pub mod Gateway
mod Tests
use modbusgw.Base.{
  ℕ, ◌-◌, ◌+◌, Bool, List, [], ◌∷◌, ◌++◌, Option, none, some, ◌==◌, ltb, not, if◌then◌else◌, length,
  take, drop, Bytes, Exn, Result, ok, raise, raise_if, runtime_error,
}
use modbusgw.Base.Exec.{Exec, pure, fail, lift, attempt, ◌>>=◌, ◌>>◌}
use modbusgw.Messages.Pdu.{to_adu}
use modbusgw.Messages.Requests.{Request, request_methods}
use modbusgw.Messages.Responses.{Response, response_from_adu}
use modbusgw.Messages.Routing.{RoutedRequest, RoutedResponse}
use modbusgw.Backends.Tcp.{
  TcpBackend, Network, taken, opened, released, retired, closed, remove, next_transaction_id,
  request_frame, field, routed_reply,
}

module _ {W : Type 0} (net : Network W) where
  -- The backend, and the world behind it.
  abbrev pub Pooled : Type 0 → Type 0
  Pooled A = Exec (TcpBackend × W) A

  -- `_create_connection`, and the entry of what it made
  pub create_connection : Pooled ℕ
  create_connection (t, w) =
      let (outcome, w') = net.connect w in
      elim outcome [
        | raise e ↦ (some (raise e), (t, w'))
        | ok done ↦ (some (ok t.made), (opened t, w'))
      ]

  -- `_acquire_connection`: a free connection, or a new one, or a wait. The wait ends when another
  -- request gives its connection back; for a caller that sends one at a time it has no end.
  pub acquire_from : List ℕ → Pooled ℕ
  acquire_from (c ∷ rest) (t, w) = (some (ok c), (taken t rest, w))
  acquire_from [] (t, w) =
      if ltb t.total t.pool_size then create_connection (t, w) else (none, (t, w))

  pub acquire_connection : Pooled ℕ
  acquire_connection (t, w) = acquire_from t.available (t, w)

  -- `_release_connection`, and `_retire_connection`
  pub release_connection : ℕ → Pooled (Unit {0})
  release_connection c (t, w) = (some (ok tt), (released t c, w))

  pub retire_connection : ℕ → Pooled (Unit {0})
  retire_connection c (t, w) = (some (ok tt), (retired t c, net.close_writer c w))

  pub take_transaction_id : Pooled ℕ
  take_transaction_id (t, w) = let (id, t') = next_transaction_id t in (some (ok id), (t', w))

  pub write : ℕ → Bytes → Pooled (Unit {0})
  write c frame (t, w) = let (outcome, w') = net.write c frame w in (outcome, (t, w'))

  pub readexactly : ℕ → ℕ → Pooled Bytes
  readexactly c n (t, w) = let (outcome, w') = net.readexactly c n w in (some outcome, (t, w'))

  pub replies : RoutedRequest → Request → Response → Pooled RoutedResponse
  replies r sent answer (t, w) = (some (ok (routed_reply t.name r sent answer)), (t, w))

  -- `_exchange`
  pub exchange : ℕ → RoutedRequest → Pooled RoutedResponse
  exchange c r = do
    id ← take_transaction_id
    adu ← lift (to_adu r.pdu).0
    frame ← lift (request_frame id adu)
    write c frame
    header ← readexactly c 6
    lift (
        raise_if (not (field header 0 == id))
          (runtime_error "Mismatched Modbus/TCP transaction id"))
    lift (raise_if (ltb (field header 4) 1) (runtime_error "Malformed Modbus/TCP response length"))
    unit_bytes ← readexactly c 1
    payload ← readexactly c (field header 4 - 1)
    answer ← lift (response_from_adu (unit_bytes ++ payload) none)
    replies r (to_adu r.pdu).1 answer

  -- The connection goes back to the pool after a reply, and out of it after an exception.
  pub settle : ℕ → Result RoutedResponse → Pooled RoutedResponse
  settle c (ok reply) = do release_connection c; pure reply
  settle c (raise e) = do retire_connection c; fail (runtime_error "TCP backend exchange failed")

  pub submit : RoutedRequest → Pooled RoutedResponse
  submit r = do c ← acquire_connection; outcome ← attempt (exchange c r); settle c outcome

  close_all : List ℕ → W → W
  close_all [] w = w
  close_all (c ∷ rest) w = close_all rest (net.close_writer c w)

  -- `close`: the free connections first, then what is still out
  without : List ℕ → List ℕ → List ℕ
  without [] connections = connections
  without (c ∷ rest) connections = without rest (remove c connections)

  close : Pooled (Unit {0})
  close (t, w) = (
    some (ok tt),
    (closed t, close_all (without t.available t.connections) (close_all t.available w)),
  )
