-- ===== src/Backends/Tcp/Submit/Gateway.antt =====
-- The dispatcher with one TCP backend behind it.
use modbusgw.Base.{false, [], ◌∷◌, ◌++◌, Option, none, String, Exn, ok, ◌≡◌, ◌≢◌}
use modbusgw.Messages.Routing.{RoutedRequest, RoutedResponse}
use modbusgw.Router.{Router, RoutingPlan, resolve, query}
use modbusgw.Bus.{GatewayBus, queue, is_full}
use modbusgw.Bus.Laws.{waiting}
use modbusgw.Dispatcher.{Message, response, handle_request}
use modbusgw.Dispatcher.Laws.{Answers}
use modbusgw.Dispatcher.Served.{Serves, handle_request-Serves}
use modbusgw.Backends.Tcp.{TcpBackend, Network}
use modbusgw.Backends.Tcp.Submit.{submit}
use modbusgw.Backends.Tcp.Submit.Laws.{Drains, IsPool, submit-IsPool, submit-IsFaithful}

module _ {W : Type 0} (net : Network W) where
  submit-Serves : Drains net → Serves (IsPool net []) (submit net)
  submit-Serves d = record { serve = λ r (t, w) (s, p). submit-IsPool net r d t w s p }

  -- If the peer reads what it is sent, the router decides the request, the queue of responses has
  -- room, and the pool is sound with nothing in use, then `_handle_request` with this backend alone
  -- comes back, whatever the device does: one reply that carries the frontend and the id of the
  -- request stands behind the responses that waited, and the pool is again sound with nothing in
  -- use, so that the next request finds it as this one did.
  pub tcp_gateway_replies :
      (str_of : Exn → String) (router : Router) (name : String) (bus : GatewayBus Message)
      (r : RoutedRequest) (s : TcpBackend × W) (plan : Option RoutingPlan)
      → Drains net
      → resolve router (query r) ≡ ok plan
      → is_full (queue bus "responses") ≡ false
      → IsPool net [] s
      → let (outcome, (bus', s')) =
          handle_request str_of router ((name, submit net) ∷ []) bus r s in
        (outcome ≢ none)
        × IsPool net [] s'
        × ((reply : RoutedResponse) × Answers r reply
            × (waiting bus' "responses" ≡ waiting bus "responses" ++ (response reply ∷ [])))
  tcp_gateway_replies str_of router name bus r s plan d e room i =
      handle_request-Serves str_of router ((name, submit net) ∷ []) (IsPool net []) bus r s plan
        (submit-IsFaithful net, tt) (submit-Serves d, tt) e room i
