-- ===== src/Dispatcher.antt =====
-- modbusgw/core/dispatcher.py: requests from the bus go to a backend, and one reply to each goes back.
pub mod Laws
pub mod Served
mod Tests
use modbusgw.Base.{
  ℕ, zero, suc, Bool, List, [], ◌∷◌, Option, none, some, String, str_eq, if◌then◌else◌, ◌==◌, Exn,
  Result, ok, raise, type_error,
}
use Prim.Native.String.{◌++◌}
use mathlib.Core.Option
use modbusgw.Messages.Routing.{
  RoutedRequest, RoutedResponse, RequestContext, ResponseContext, routed_with_unit, unit_of,
}
use modbusgw.Router.{Router, RoutingPlan, resolve, query}
use modbusgw.Bus.{GatewayBus, publish, get}

-- What stands on the bus. The dispatcher and the responder test the class of what they take.
pub data Message : Type 0 where
  request : RoutedRequest → Message
  response : RoutedResponse → Message
  other : Message

-- A backend works on the world behind it: its connections and devices. `none` is a call that is
-- suspended for good.
abbrev pub Backend : Type 0 → Type 0
Backend W = RoutedRequest → W → Option (Result RoutedResponse) × W

-- `error='…'`, with no reply from a device
pub error_reply : RoutedRequest → String → String → RoutedResponse
error_reply r backend text = record {
  context = record {
    frontend = r.context.frontend;
    backend = backend;
    request_id = r.context.request_id;
  };
  request = some r.pdu;
  response = none;
  exception = none;
  error = some text;
}

-- `request if plan.unit_id == request.unit_id else request.with_unit(plan.unit_id)`
pub addressed : RoutedRequest → Option ℕ → RoutedRequest
addressed r none = r
addressed r (some unit) = if unit == unit_of r then r else routed_with_unit r unit

-- How a step that may raise or be suspended ends; `none` is suspended.
abbrev pub Step : Type 0 → Type 0
Step S = Option (Result (Unit {0})) × S

-- `self._backends.get(name)`
pub find_backend : {W : Type 0} → String → List (String × Backend W) → Option (Backend W)
find_backend name [] = none
find_backend name ((key, b) ∷ rest) = if str_eq key name then some b else find_backend name rest

-- `str_of` is Python's `str` on an exception.
module _ {W : Type 0} (str_of : Exn → String) (router : Router)
    (backends : List (String × Backend W)) where
  -- the `except` clause: what a backend raises becomes a reply
  pub caught : RoutedRequest → String → Result RoutedResponse → RoutedResponse
  unfolding error_reply
  caught r backend (ok reply) = reply
  caught r backend (raise e) = error_reply r backend ("backend_error:" ++ str_of e)

  -- The reply that `_handle_request` publishes, and the world after the backend was asked.
  pub reply_by : RoutedRequest → RoutingPlan → Option (Backend W) → W → Option RoutedResponse × W
  unfolding caught error_reply addressed
  reply_by r plan none w = (some (error_reply r plan.backend "backend_not_found"), w)
  reply_by r plan (some backend) w =
      let (outcome, w') = backend (addressed r plan.unit_id) w in
      (Option.map (caught r plan.backend) outcome, w')

  pub reply_for : RoutedRequest → Option RoutingPlan → W → Option RoutedResponse × W
  unfolding reply_by find_backend error_reply
  reply_for r none w = (some (error_reply r "dispatcher" "no_route"), w)
  reply_for r (some plan) w = reply_by r plan (find_backend plan.backend backends) w

  send : GatewayBus Message → Option RoutedResponse → W → Step (GatewayBus Message × W)
  send bus none w = (none, (bus, w))
  send bus (some reply) w =
      let (done, bus') = publish bus "responses" (response reply) in (done, (bus', w))

  -- `_handle_request`; only the router can raise out of it
  pub handle_request : GatewayBus Message → RoutedRequest → W → Step (GatewayBus Message × W)
  unfolding send
  handle_request bus r w = elim (resolve router (query r)) [
    | raise e ↦ (some (raise e), (bus, w))
    | ok plan ↦ let (reply, w') = reply_for r plan w in send bus reply w'
  ]

  handle_message : GatewayBus Message → Option Message → W → Step (GatewayBus Message × W)
  handle_message bus none w = (none, (bus, w))
  handle_message bus (some (request r)) w = handle_request bus r w
  handle_message bus (some _) w =
      (some (raise (type_error "Dispatcher expects RoutedRequest objects on the bus")), (bus, w))

  -- `run_once`
  pub run_once : GatewayBus Message → W → Step (GatewayBus Message × W)
  run_once bus w = let (message, bus') = get bus "requests" in handle_message bus' message w

  -- `_run`, for at most `n` rounds. It goes on until a round is suspended or raises, and what a
  -- round raises ends the task.
  pub run_rounds : ℕ → GatewayBus Message → W → Step (GatewayBus Message × W)
  run_rounds zero bus w = (some (ok tt), (bus, w))
  run_rounds (suc n) bus w =
      let (outcome, s) = run_once bus w in
      elim outcome [
        | none ↦ (none, s)
        | some (raise e) ↦ (some (raise e), s)
        | some (ok done) ↦ run_rounds n s.0 s.1
      ]
