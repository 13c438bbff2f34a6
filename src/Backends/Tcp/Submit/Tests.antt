-- ===== src/Backends/Tcp/Submit/Tests.antt =====
-- The theorems on the TCP backend at a device that answers one request.
use modbusgw.Base.{
  refl, ◌≡◌, ℕ, ◌+◌, ◌≤◌, ◌<◌, [], ◌∷◌, none, some, ltb, if◌then◌else◌, length, take, drop, Bytes,
  ok, raise, incomplete_read, ◌≢◌, arith,
}
use modbusgw.Messages.Pdu.{new, to_adu}
use modbusgw.Messages.Requests.{
  read_holding_registers_request, request_methods, encode_request, request_code, pack_values,
}
use modbusgw.Messages.Responses.{
  Response, response_methods, read_holding_registers_response, encode_response, encode_values,
  response_code,
}
use modbusgw.Messages.Responses.Framing.{arrived, Sorts}
use modbusgw.Messages.Requests.{register}
use modbusgw.Messages.Routing.{RoutedResponse}
use modbusgw.Router.{any, method, Router, RoutingRule, plan_of, query, resolve}
use modbusgw.Router.Resolve.{Chosen, resolve_iff}
use modbusgw.Bus.{new_bus, queue, queue_or, lookup, is_full}
use modbusgw.Bus.Laws.{waiting}
use modbusgw.Base.{◌++◌, inl, false, Exn, String}
use modbusgw.Dispatcher.{Message, response, handle_request}
use modbusgw.Dispatcher.Laws.{Answers}
use modbusgw.Backends.Tcp.Submit.Gateway.{tcp_gateway_replies}
use modbusgw.Backends.Tcp.Submit.Exchange.{exchange-to_adu}
use modbusgw.Messages.Routing.{RoutedRequest}
use modbusgw.Backends.Tcp.{
  TcpBackend, Network, new_backend, next_transaction_id, remove, opened, released,
}
use modbusgw.Backends.Tcp.Pool.{
  count, starts, goes, opens, gives_back, new_backend-IsSound, pool_is_exclusive,
}
use modbusgw.Backends.Tcp.Submit.{exchange, submit}
use modbusgw.Backends.Tcp.Submit.Laws.{Drains, IsPool, submit-IsPool}

-- The world is what the device has still to send.
abbrev device : Network Bytes
device = record {
  connect = λ w. (ok tt, w);
  write = λ c frame w. (some (ok tt), w);
  readexactly =
      λ c n w. if ltb (length w) n then (raise incomplete_read, []) else (ok (take n w), drop n w);
  close_writer = λ c w. w;
}

abbrev reading : RoutedRequest
reading = record {
  context = record { frontend = "tcp"; request_id = some "1" };
  pdu = new 17 (read_holding_registers_request 0 1);
}

-- One register, 10, to transaction 1.
abbrev answer : Bytes
answer = 0 ∷ 1 ∷ 0 ∷ 0 ∷ 0 ∷ 5 ∷ 17 ∷ 3 ∷ 2 ∷ 0 ∷ 10 ∷ []

abbrev backend : TcpBackend
backend = new_backend "meter" 2

device-Drains : Drains device
device-Drains c frame w e = absurd (cc)

submit-IsPool_example :
    let (outcome, s) = submit device reading (backend, answer) in
    (outcome ≢ none) × IsPool device [] s
submit-IsPool_example =
    submit-IsPool device reading device-Drains backend answer (new_backend-IsSound "meter" 2)
      (unfold new_backend in omega arith)

-- One request has opened a connection and given it back.
pool_is_exclusive_example :
    let t = released (opened backend) backend.made in
    ((c : ℕ) → count c t.available + count c (remove backend.made (backend.made ∷ [])) ≤ 1)
    × (length t.available + length (remove backend.made (backend.made ∷ [])) ≤ 2)
pool_is_exclusive_example =
    let room : backend.total < backend.pool_size = unfold new_backend in omega arith in
    let used : 0 < count backend.made (backend.made ∷ []) = unfold new_backend in omega arith in
    pool_is_exclusive "meter" 2 (
      goes (goes starts (opens {t = backend} room))
        (gives_back {t = opened backend} backend.made used))

abbrev register_ten : Response
register_ten = new 17 (read_holding_registers_response (10 ∷ []))

exchange-to_adu_example :
    (reply : RoutedResponse) × (exchange device 0 reading (backend, answer)
      ≡ (some (ok reply), ((next_transaction_id backend).1, [])))
    × Sorts register_ten.body
        (arrived register_ten (drop 6 answer) none)
        reply.response
        reply.exception
    × (reply.error ≡ none)
    × (reply.request ≡ some (to_adu reading.pdu).1)
    × (reply.context ≡ record { frontend = "tcp"; backend = "meter"; request_id = some "1" })
unfolding new_backend next_transaction_id
exchange-to_adu_example =
    exchange-to_adu device 0 reading backend answer answer (drop 6 answer) (drop 7 answer) []
      register_ten request_sent (omega arith) refl tt answer_sent refl refl refl
  where
    request_sent : (to_adu reading.pdu).0 ≡ ok (17 ∷ 3 ∷ 0 ∷ 0 ∷ 0 ∷ 1 ∷ [])
    request_sent = unfold to_adu in unfold encode_request in unfold request_code in refl

    answer_sent : (to_adu register_ten).0 ≡ ok (drop 6 answer)
    answer_sent =
        unfold to_adu in
        unfold encode_response in
        unfold encode_values in unfold response_code in unfold pack_values in refl

abbrev rule : RoutingRule
rule = record {
  frontend = "tcp";
  backend = "meter";
  match = record {
    unit_ids = some (any ∷ []);
    function_codes = none;
    operations = none;
    register_range = none;
  };
  unit_override = none;
  mirror_to_mqtt = [];
}

abbrev router : Router
router = record { rules = rule ∷ [] }

abbrev shown : Exn → String
shown e = "error"

tcp_gateway_replies_example :
    let (outcome, (bus', s')) =
      handle_request shown router
        (("meter", submit device) ∷ [])
        (new_bus 4)
        reading
        (backend, answer) in
    (outcome ≢ none)
    × IsPool device [] s'
    × ((reply : RoutedResponse) × Answers reading reply
        × (waiting bus' "responses" ≡ waiting (new_bus 4) "responses" ++ (response reply ∷ [])))
tcp_gateway_replies_example =
    tcp_gateway_replies device shown router "meter" (new_bus 4) reading (backend, answer)
      (some (plan_of rule (query reading))) device-Drains resolved room
      (new_backend-IsSound "meter" 2, unfold new_backend in omega arith)
  where
    known : (query reading).register ≢ method
    known e = unfold register in absurd (cc)

    chosen : Chosen router.rules (query reading) (plan_of rule (query reading))
    chosen = record {
      before = [];
      rule = rule;
      after = [];
      split = refl;
      earlier = tt;
      applies = record {
        selects = record { frontend = refl; units = inl (inl refl); codes = tt; operations = tt };
        in_range = tt;
      };
      planned = refl;
    }

    resolved : resolve router (query reading) ≡ ok (some (plan_of rule (query reading)))
    resolved = (resolve_iff router (query reading) (plan_of rule (query reading)) known).1 chosen

    room : is_full (queue (new_bus {M = Message} 4) "responses") ≡ false
    room =
        unfold is_full in unfold queue in unfold queue_or in unfold lookup in unfold new_bus in refl
