-- ===== src/Dispatcher/Tests.antt =====
-- The theorems on the dispatcher at one backend, a request for a register and a raw request.
use modbusgw.Base.{
  ℕ, ◌+◌, List, [], ◌∷◌, ◌++◌, Option, none, some, false, inl, inr, String, str_eq, Exn, ok, raise,
  type_error, ◌≡◌, ◌≢◌, refl, arith,
}
use Prim.Native.String.{◌++◌ as join}
use modbusgw.Messages.Pdu.{new}
use modbusgw.Messages.Requests.{register, RequestBody, read_holding_registers_request, raw_request}
use modbusgw.Messages.Routing.{RoutedRequest, RoutedResponse}
use modbusgw.Router.{
  any, exactly, Range, RoutingRule, RoutingPlan, Router, method, query, plan_of, resolve,
}
use modbusgw.Router.Resolve.{Chosen, resolve_iff}
use modbusgw.Bus.{GatewayBus, queue, is_full, queue_or, lookup}
use modbusgw.Bus.Laws.{waiting}
use modbusgw.Dispatcher.{
  Message, request, response, Backend, error_reply, find_backend, caught, reply_by, reply_for,
  handle_request, run_rounds,
}
use modbusgw.Dispatcher.Laws.{Answers, IsFaithful, handle_request_replies, raw_request_ends_task}

-- A backend that counts the calls and never reaches its device.
abbrev counting : Backend ℕ
counting r calls = (some (ok (error_reply r "meter" "offline")), calls + 1)

counting-IsFaithful : IsFaithful counting
counting-IsFaithful = record { answers = λ r w reply e. answer r reply e }
  where
    answer :
        (r : RoutedRequest) (reply : RoutedResponse)
        → some (ok (error_reply r "meter" "offline")) ≡ some (ok reply)
        → Answers r reply
    answer r reply e = unfold error_reply in ground arith

abbrev backends : List (String × Backend ℕ)
backends = ("meter", counting) ∷ []

abbrev routed : RequestBody → RoutedRequest
routed body = record {
  context = record { frontend = "tcp"; request_id = some "1" };
  pdu = new 1 body;
}

abbrev reading : RoutedRequest
reading = routed (read_holding_registers_request 150 2)

-- Function code 0x2B.
abbrev identification : RoutedRequest
identification = routed (raw_request (14 ∷ 1 ∷ 0 ∷ []) 43)

abbrev rule : Option Range → RoutingRule
rule range = record {
  frontend = "tcp";
  backend = "meter";
  match = record {
    unit_ids = some (exactly 1 ∷ []);
    function_codes = some (any ∷ []);
    operations = none;
    register_range = range;
  };
  unit_override = some 17;
  mirror_to_mqtt = [];
}

abbrev open_router : Router
open_router = record { rules = rule none ∷ [] }

abbrev ranged_router : Router
ranged_router = record { rules = rule (some (record { start = some 100; end = some 199 })) ∷ [] }

abbrev serial_router : Router
serial_router = record { rules = record (rule none) { frontend = "serial" } ∷ [] }

abbrev plan : RoutingPlan
plan = plan_of (rule none) (query reading)

chosen : Chosen open_router.rules (query reading) plan
chosen = record {
  before = [];
  rule = rule none;
  after = [];
  split = refl;
  earlier = tt;
  applies = record {
    selects = record {
      frontend = refl;
      units = inr (inl refl);
      codes = inl (inl refl);
      operations = tt;
    };
    in_range = tt;
  };
  planned = refl;
}

known : (query reading).register ≢ method
unfolding register
known e = absurd (cc)

abbrev bus : GatewayBus Message
bus = record {
  queue_size = 4;
  topics =
      ("requests", record { maxsize = 4; items = request identification ∷ request reading ∷ [] })
      ∷ ("responses", record { maxsize = 4; items = [] })
      ∷ [];
  tracers = [];
}

abbrev shown : Exn → String
shown e = "error"

handle_request_replies_example :
    let bus' = (handle_request shown open_router backends bus reading 0).1.0 in
    (reply : RoutedResponse) × Answers reading reply
    × (waiting bus' "responses" ≡ waiting bus "responses" ++ (response reply ∷ []))
    × ((topic : String) → str_eq "responses" topic ≡ false → waiting bus' topic ≡ waiting bus topic)
handle_request_replies_example =
    handle_request_replies shown open_router backends bus reading 0 (some plan)
      (counting-IsFaithful, tt) decided awake room
  where
    decided : resolve open_router (query reading) ≡ ok (some plan)
    decided = (resolve_iff open_router (query reading) plan known).1 chosen

    awake : (reply_for shown open_router backends reading (some plan) 0).0 ≢ none
    awake e =
        unfold reply_for in unfold reply_by in unfold find_backend in unfold caught in absurd (cc)

    room : is_full (queue bus "responses") ≡ false
    room = unfold is_full in unfold queue in unfold queue_or in unfold lookup in refl

raw_request_ends_task_example :
    let end = run_rounds shown ranged_router backends 10 bus 0 in
    (text : String) × (end.0 ≡ some (raise (type_error text)))
    × (waiting end.1.0 "responses" ≡ waiting bus "responses")
    × (waiting end.1.0 "requests" ≡ request reading ∷ [])
    × (end.1.1 ≡ 0)
raw_request_ends_task_example =
    raw_request_ends_task shown ranged_router backends bus identification 0 9 [] [] _
      (request reading ∷ []) (unfold queue in unfold queue_or in unfold lookup in refl)
      (unfold register in refl) refl tt
      (record { frontend = refl; units = inr (inl refl); codes = inl (inl refl); operations = tt })
      (inl (λ e. absurd (cc)))
