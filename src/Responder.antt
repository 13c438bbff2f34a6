-- ===== src/Responder.antt =====
-- modbusgw/core/responder.py: responses from the bus go to the frontend that they name.
pub mod Laws
mod Tests
use modbusgw.Base.{
  ℕ, zero, suc, List, [], ◌∷◌, Option, none, some, String, str_eq, if◌then◌else◌, Exn, Result, ok,
  raise,
}
use modbusgw.Messages.Routing.{RoutedResponse}
use modbusgw.Bus.{GatewayBus, get}
use modbusgw.Dispatcher.{Message, request, response, other, Step}

-- `handle_response` of a frontend works on the world: its clients and its table of pending requests.
abbrev pub Frontend : Type 0 → Type 0
Frontend W = RoutedResponse → W → Option (Result (Unit {0})) × W

-- `self._frontends.get(name)`
pub find_frontend : {W : Type 0} → String → List (String × Frontend W) → Option (Frontend W)
find_frontend name [] = none
find_frontend name ((key, f) ∷ rest) = if str_eq key name then some f else find_frontend name rest

module _ {W : Type 0} (frontends : List (String × Frontend W)) where
  -- What a frontend raises is logged, and the loop goes on.
  logged : Option (Result (Unit {0})) → Option (Result (Unit {0}))
  logged none = none
  logged (some outcome) = some (ok tt)

  deliver_to : Option (Frontend W) → RoutedResponse → W → Step W
  deliver_to none reply w = (some (ok tt), w)
  deliver_to (some frontend) reply w = let (outcome, w') = frontend reply w in (logged outcome, w')

  pub deliver : RoutedResponse → W → Step W
  deliver reply w = deliver_to (find_frontend reply.context.frontend frontends) reply w

  -- The body of the loop: what is no response is skipped.
  pub handle : Option Message → W → Step W
  handle none w = (none, w)
  handle (some (response reply)) w = deliver reply w
  handle (some (request r)) w = (some (ok tt), w)
  handle (some other) w = (some (ok tt), w)

  -- `_run`, for at most `n` rounds; it goes on until a round is suspended
  pub run : ℕ → GatewayBus Message → W → Step (GatewayBus Message × W)
  run zero bus w = (some (ok tt), (bus, w))
  run (suc n) bus w =
      let (message, bus') = get bus "responses" in
      let (outcome, w') = handle message w in
      elim outcome [
        | none ↦ (none, (bus', w'))
        | some (raise e) ↦ (some (raise e), (bus', w'))
        | some (ok done) ↦ run n bus' w'
      ]
