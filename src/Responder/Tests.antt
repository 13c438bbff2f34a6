-- ===== src/Responder/Tests.antt =====
-- The theorem on the responder: two responses, one of them to a frontend that nobody knows.
use modbusgw.Base.{ℕ, ◌+◌, List, [], ◌∷◌, none, some, String, ok, raise, runtime_error, ◌≡◌, refl}
use modbusgw.Messages.Routing.{RoutedResponse}
use modbusgw.Bus.{GatewayBus, queue, queue_or, lookup}
use modbusgw.Bus.Laws.{waiting}
use modbusgw.Dispatcher.{Message, response}
use modbusgw.Responder.{Frontend, find_frontend, run}
use modbusgw.Responder.Laws.{AllAwake, delivered, run-delivered}

-- A frontend that counts the responses and fails on each.
abbrev failing : Frontend ℕ
failing reply n = (some (raise (runtime_error "gone")), n + 1)

abbrev frontends : List (String × Frontend ℕ)
frontends = ("tcp", failing) ∷ []

abbrev reply_to : String → RoutedResponse
reply_to name = record {
  context = record { frontend = name; backend = "meter"; request_id = none };
  request = none;
  response = none;
  exception = none;
  error = some "no_route";
}

abbrev bus : GatewayBus Message
bus = record {
  queue_size = 4;
  topics =
      (
        "responses",
        record { maxsize = 4; items = response (reply_to "tcp") ∷ response (reply_to "gone") ∷ [] },
      )
      ∷ [];
  tracers = [];
}

awake : AllAwake frontends frontends
awake = ((λ reply w e. absurd (cc)), tt)

run-delivered_example :
    let (outcome, (bus', w')) = run frontends 2 bus 0 in
    (outcome ≡ some (ok tt)) × (w' ≡ 1) × (waiting bus' "responses" ≡ [])
unfolding delivered find_frontend
run-delivered_example =
    run-delivered frontends bus 0 (reply_to "tcp" ∷ reply_to "gone" ∷ []) awake
      (unfold queue in unfold queue_or in unfold lookup in refl)
