-- ===== src/Dispatcher/Served.antt =====
-- The dispatcher in front of backends that always come back: no request waits for ever.
use modbusgw.Base.{
  Bool-cases, Option-cases, inl, inr, false, true, List, [], ◌∷◌, ◌++◌, All, Option, none, some,
  String, str_eq, Exn, ok, ◌≡◌, ◌≢◌, refl, ◌∙◌, subst, arith,
}
use mathlib.Core.Option
use modbusgw.Messages.Routing.{RoutedRequest, RoutedResponse}
use modbusgw.Router.{Router, RoutingPlan, resolve, query}
use modbusgw.Bus.{GatewayBus, publish, queue, is_full}
use modbusgw.Bus.Laws.{waiting, waiting-publish, publish-none_iff}
use modbusgw.Dispatcher.{
  Message, response, Backend, addressed, find_backend, reply_by, reply_for, handle_request,
}
use modbusgw.Dispatcher.Laws.{Answers, IsFaithful, Answers-reply_for}

-- Where `I` holds of the world, a call of the backend is not suspended, and `I` holds after it.
pub record Serves {W : Type 0} (I : W → Type 0) (b : Backend W) : Type 0 where
  pub serve : (r : RoutedRequest) (w : W) → I w → ((b r w).0 ≢ none) × I (b r w).1

publish-awake :
    (bus : GatewayBus Message) (message : Message)
    → is_full (queue bus "responses") ≡ false
    → (publish bus "responses" message).0 ≢ none
publish-awake bus message room e =
    let full : is_full (queue bus "responses") ≡ true =
      (publish-none_iff bus "responses" message).0 e in
    absurd (ground (arith, full, room))

module _ {W : Type 0} (str_of : Exn → String) (router : Router)
    (backends : List (String × Backend W)) where
  Serves-find_backend :
      (I : W → Type 0) (name : String) (bs : List (String × Backend W)) {b : Backend W}
      → All (λ p. Serves I p.1) bs
      → find_backend name bs ≡ some b
      → Serves I b
  unfolding find_backend
  Serves-find_backend I name [] h e = absurd (cc)
  Serves-find_backend I name ((key, c) ∷ rest) {b} h e = elim (Bool-cases (str_eq key name)) [
    | inl y ↦ let found : some c ≡ some b = rw y at e in subst (Serves I) (cc found) h.0
    | inr n ↦ Serves-find_backend I name rest h.1 (rw n at e)
  ]

  map_is_some : {A B : Type 0} (f : A → B) (o : Option A) → o ≢ none → Option.map f o ≢ none
  map_is_some f none h e = absurd (h refl)
  map_is_some f (some a) h e = absurd (cc)

  reply_by-Serves :
      (I : W → Type 0) (r : RoutedRequest) (plan : RoutingPlan) (b : Option (Backend W)) (w : W)
      → ((c : Backend W) → b ≡ some c → Serves I c)
      → I w
      → ((reply_by str_of router backends r plan b w).0 ≢ none)
        × I (reply_by str_of router backends r plan b w).1
  unfolding reply_by
  reply_by-Serves I r plan none w h i = (λ e. absurd (cc), i)
  reply_by-Serves I r plan (some b) w h i =
      let (awake, j) = (h b refl).serve (addressed r plan.unit_id) w i in (map_is_some _ _ awake, j)

  reply_for-Serves :
      (I : W → Type 0) (r : RoutedRequest) (plan : Option RoutingPlan) (w : W)
      → All (λ p. Serves I p.1) backends
      → I w
      → ((reply_for str_of router backends r plan w).0 ≢ none)
        × I (reply_for str_of router backends r plan w).1
  unfolding reply_for
  reply_for-Serves I r none w h i = (λ e. absurd (cc), i)
  reply_for-Serves I r (some plan) w h i =
      reply_by-Serves I r plan (find_backend plan.backend backends) w
        (λ c e. Serves-find_backend I plan.backend backends h e) i

  handle_request_lem :
      (bus : GatewayBus Message) (r : RoutedRequest) (w : W) (plan : Option RoutingPlan)
      {reply : RoutedResponse}
      → resolve router (query r) ≡ ok plan
      → (reply_for str_of router backends r plan w).0 ≡ some reply
      → handle_request str_of router backends bus r w ≡ (
        (publish bus "responses" (response reply)).0,
        (
          (publish bus "responses" (response reply)).1,
          (reply_for str_of router backends r plan w).1,
        ),
      )
  unfolding handle_request
  handle_request_lem bus r w plan e f = rw (handle_request, e, f)

  -- If every backend answers what it is given and always comes back while `I` holds, the router
  -- decides the request and the queue of responses has room, `_handle_request` comes back, one reply
  -- that carries the frontend and the id of the request stands behind the responses that waited, and
  -- `I` holds of the world again.
  pub handle_request-Serves :
      (I : W → Type 0) (bus : GatewayBus Message) (r : RoutedRequest) (w : W)
      (plan : Option RoutingPlan)
      → All (λ p. IsFaithful p.1) backends
      → All (λ p. Serves I p.1) backends
      → resolve router (query r) ≡ ok plan
      → is_full (queue bus "responses") ≡ false
      → I w
      → let (outcome, (bus', w')) = handle_request str_of router backends bus r w in
        (outcome ≢ none)
        × I w'
        × ((reply : RoutedResponse) × Answers r reply
            × (waiting bus' "responses" ≡ waiting bus "responses" ++ (response reply ∷ [])))
  handle_request-Serves I bus r w plan faithful serves e room i =
      let (awake, j) = reply_for-Serves I r plan w serves i in
      elim (Option-cases (reply_for str_of router backends r plan w).0) [
        | inl n ↦ absurd (awake n)
        | inr (reply, f) ↦
            let all = handle_request_lem bus r w plan e f in
            rw all (
              publish-awake bus (response reply) room,
              j,
              (
                reply,
                Answers-reply_for str_of router backends r plan w reply faithful f,
                waiting-publish bus "responses" "responses" (response reply) ∙ rw room,
              ),
            )
      ]
