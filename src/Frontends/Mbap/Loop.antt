-- ===== src/Frontends/Mbap/Loop.antt =====
-- `_handle_client` of the Modbus/TCP frontends: the loop over a client's stream.
use modbusgw.Base.{ℕ, zero, suc, Option, none, some, String, length, Bytes, Result, ok, raise}
use Prim.Native.String.{◌++◌}
use modbusgw.Messages.Requests.{Request}
use modbusgw.Messages.Routing.{RoutedRequest}
use modbusgw.Bus.{GatewayBus, publish}
use modbusgw.Dispatcher.{Message, request, Step}
use modbusgw.Frontends.Mbap.{
  MbapFrontend, set_pending, drop_client, Arrival, ended, skipped, arrives, read_request,
}

-- `show` is how Python writes a number.
module _ (show : ℕ → String) where
  pub request_id : String → ℕ → String
  request_id client transaction = client ++ ":" ++ show transaction

  pub routed : String → String → ℕ → Request → RoutedRequest
  routed name client transaction pdu = record {
    context = record { frontend = name; request_id = some (request_id client transaction) };
    pdu = pdu;
  }

  remembered : MbapFrontend → String → ℕ → ℕ → Request → MbapFrontend
  remembered f client writer transaction pdu =
      let id = request_id client transaction in
      record f {
        pending =
            set_pending id
              (record {
                request_id = id;
                writer = writer;
                transaction_id = transaction;
                protocol_id = 0;
                unit_id = pdu.unit_id;
                client_id = client;
              })
              f.pending;
      }

  abbrev pub Served : Type 0
  Served = MbapFrontend × GatewayBus Message

  -- One round, with the rounds after it.
  go_on : (Served → Step Served) → Option (Result (Unit {0})) → Served → Step Served
  go_on later none s = (none, s)
  go_on later (some (raise e)) s = (some (raise e), s)
  go_on later (some (ok done)) s = later s

  round : String → ℕ → (Bytes → Served → Step Served) → Arrival → Served → Step Served
  round client writer later ended s = (some (ok tt), s)
  round client writer later (skipped rest) s = later rest s
  round client writer later (arrives transaction pdu rest) (f, bus) =
      let (outcome, bus') =
        publish bus "requests" (request (routed f.name client transaction pdu)) in
      go_on (later rest) outcome (remembered f client writer transaction pdu, bus')

  -- `while True`, with fuel
  pub client_loop : ℕ → String → ℕ → Bytes → Served → Step Served
  client_loop zero client writer stream s = (some (ok tt), s)
  client_loop (suc n) client writer stream s =
      round client writer (client_loop n client writer) (read_request stream) s

  -- the `finally` clause: what the client still waits for is forgotten
  forget : String → Step Served → Step Served
  forget client (none, s) = (none, s)
  forget client (some outcome, (f, bus)) =
      (some outcome, (record f { pending = drop_client client f.pending }, bus))

  handle_client : String → ℕ → Bytes → Served → Step Served
  handle_client client writer stream s =
      forget client (client_loop (suc (length stream)) client writer stream s)
