-- ===== src/Dispatcher/Laws.antt =====
-- Every request that the router decides gets one reply, from the backend of the first rule that
-- applies; a raw request that meets a register range ends the task.
use modbusgw.Base.{
  Bool-cases, Option-cases, inl, inr, subst, ℕ, suc, false, List, [], ◌∷◌, ◌++◌, All, Option, none,
  some, String, str_eq, Exn, Result, ok, raise, type_error, ◌≡◌, ◌≢◌, refl, arith, ap, ◌∙◌,
}
use mathlib.Core.Option
use mathlib.Core.List.{head?, tail}
use Prim.Native.String.{◌++◌ as join}
use modbusgw.Messages.Routing.{RoutedRequest, RoutedResponse, routed_with_unit}
use modbusgw.Router.{Router, RoutingRule, RoutingPlan, resolve, query, method}
use modbusgw.Router.Matching.{Applies, Selects, IsBounded}
use modbusgw.Router.Resolve.{resolve-none_iff, resolve_raises}
use modbusgw.Bus.{GatewayBus, publish, get, queue, is_full}
use modbusgw.Bus.Laws.{waiting, waiting-publish, waiting-get}
use modbusgw.Dispatcher.{
  Message, request, response, Backend, error_reply, addressed, find_backend, caught, reply_by,
  reply_for, handle_request, handle_message, run_once, run_rounds,
}

-- A reply names the frontend and the id of the request.
abbrev pub Answers : RoutedRequest → RoutedResponse → Type 0
Answers r reply =
    (reply.context.frontend ≡ r.context.frontend)
    × (reply.context.request_id ≡ r.context.request_id)

-- What the dispatcher relies on: a backend answers the request that it was given.
pub record IsFaithful {W : Type 0} (b : Backend W) : Type 0 where
  pub answers :
      (r : RoutedRequest) (w : W) (reply : RoutedResponse)
      → (b r w).0 ≡ some (ok reply)
      → Answers r reply

-- The unit override of a rule, or the unit of the request.
abbrev pub unit_or : Option ℕ → ℕ → ℕ
unit_or none unit = unit
unit_or (some override) unit = override

Answers-addressed :
    (r : RoutedRequest) (u : Option ℕ) (reply : RoutedResponse)
    → Answers (addressed r u) reply
    → Answers r reply
unfolding addressed routed_with_unit
Answers-addressed r none reply h = h
Answers-addressed r (some u) reply h = ground arith

find_backend-IsFaithful :
    {W : Type 0} (name : String) (backends : List (String × Backend W)) {b : Backend W}
    → All (λ p. IsFaithful p.1) backends
    → find_backend name backends ≡ some b
    → IsFaithful b
unfolding find_backend
find_backend-IsFaithful name [] h e = absurd (cc)
find_backend-IsFaithful name ((key, c) ∷ rest) {b} h e = elim (Bool-cases (str_eq key name)) [
  | inl y ↦ let found : some c ≡ some b = rw y at e in subst IsFaithful (cc found) h.0
  | inr n ↦ find_backend-IsFaithful name rest h.1 (rw n at e)
]

module _ {W : Type 0} (str_of : Exn → String) (router : Router)
    (backends : List (String × Backend W)) where
  Answers-caught :
      (r : RoutedRequest) (backend : String) (outcome : Option (Result RoutedResponse))
      (reply : RoutedResponse)
      → ((inner : RoutedResponse) → outcome ≡ some (ok inner) → Answers r inner)
      → Option.map (caught str_of router backends r backend) outcome ≡ some reply
      → Answers r reply
  unfolding caught error_reply
  Answers-caught r backend none reply h e = absurd (cc)
  Answers-caught r backend (some (ok inner)) reply h e = ground (arith, h inner refl)
  Answers-caught r backend (some (raise x)) reply h e = ground arith

  pub Answers-reply_for :
      (r : RoutedRequest) (plan : Option RoutingPlan) (w : W) (reply : RoutedResponse)
      → All (λ p. IsFaithful p.1) backends
      → (reply_for str_of router backends r plan w).0 ≡ some reply
      → Answers r reply
  unfolding reply_for reply_by error_reply
  Answers-reply_for r none w reply h e = ground arith
  Answers-reply_for r (some plan) w reply h e =
      elim (Option-cases (find_backend plan.backend backends)) [
        | inl n ↦
            let e' : some (error_reply r plan.backend "backend_not_found") ≡ some reply =
              rw n at e in
            ground arith
        | inr (b, f) ↦
            Answers-caught r plan.backend (b (addressed r plan.unit_id) w).0 reply
              (λ inner g. Answers-addressed r plan.unit_id inner (
                (find_backend-IsFaithful plan.backend backends h f).answers
                  (addressed r plan.unit_id) w inner g))
              (rw f at e)
      ]

  handle_request_sends :
      (bus : GatewayBus Message) (r : RoutedRequest) (w : W) (plan : Option RoutingPlan)
      {reply : RoutedResponse}
      → resolve router (query r) ≡ ok plan
      → (reply_for str_of router backends r plan w).0 ≡ some reply
      → (handle_request str_of router backends bus r w).1.0
        ≡ (publish bus "responses" (response reply)).1
  unfolding handle_request
  handle_request_sends bus r w plan e f = rw (handle_request, e, f)

  -- If the router decides a request, no backend suspends it and the queue of responses has room,
  -- `_handle_request` puts one reply behind the responses that wait, it carries the frontend and the
  -- id of the request, and the other topics stay as they are.
  pub handle_request_replies :
      (bus : GatewayBus Message) (r : RoutedRequest) (w : W) (plan : Option RoutingPlan)
      → All (λ p. IsFaithful p.1) backends
      → resolve router (query r) ≡ ok plan
      → (reply_for str_of router backends r plan w).0 ≢ none
      → is_full (queue bus "responses") ≡ false
      → let bus' = (handle_request str_of router backends bus r w).1.0 in
        (reply : RoutedResponse) × Answers r reply
        × (waiting bus' "responses" ≡ waiting bus "responses" ++ (response reply ∷ []))
        × ((topic : String)
            → str_eq "responses" topic ≡ false
            → waiting bus' topic ≡ waiting bus topic)
  handle_request_replies bus r w plan h e awake room =
      elim (Option-cases (reply_for str_of router backends r plan w).0) [
        | inl n ↦ absurd (awake n)
        | inr (reply, f) ↦ (
          reply,
          Answers-reply_for r plan w reply h f,
          rw (handle_request_sends bus r w plan e f)
              (waiting-publish bus "responses" "responses" (response reply) ∙ rw room),
          λ topic ne.
              rw (handle_request_sends bus r w plan e f)
                (waiting-publish bus "responses" topic (response reply) ∙ rw ne),
        )
      ]

  -- If no rule applies, no backend is asked, and the reply says `no_route`.
  pub reply_for-no_rule :
      (r : RoutedRequest) (w : W)
      → (query r).register ≢ method
      → All (λ rule. ¬ Applies rule (query r)) router.rules
      → (resolve router (query r) ≡ ok none)
        × (reply_for str_of router backends r none w
            ≡ (some (error_reply r "dispatcher" "no_route"), w))
  unfolding reply_for
  reply_for-no_rule r w known none_apply =
      ((resolve-none_iff router (query r) known).1 none_apply, refl)

  run_once-raises :
      (bus : GatewayBus Message) (r : RoutedRequest) (w : W) (x : Exn)
      → (get bus "requests").0 ≡ some (request r)
      → resolve router (query r) ≡ raise x
      → run_once str_of router backends bus w ≡ (some (raise x), ((get bus "requests").1, w))
  unfolding run_once handle_message handle_request
  run_once-raises bus r w x first e = rw (first, handle_request, e)

  run_rounds-raises :
      (rounds : ℕ) (bus : GatewayBus Message) (w : W) (x : Exn) (s : GatewayBus Message × W)
      → run_once str_of router backends bus w ≡ (some (raise x), s)
      → run_rounds str_of router backends (suc rounds) bus w ≡ (some (raise x), s)
  unfolding run_rounds
  run_rounds-raises rounds bus w x s e = rw (run_rounds, e) (ap (λ t. (some (raise x), t.1)) e)

  -- A raw request whose first selecting rule has a register range with a bound ends the dispatcher:
  -- the task raises TypeError when the request reaches the head of its queue, however many rounds
  -- it had to run, no reply is published for it, and nothing of the queue behind it is handled.
  pub raw_request_ends_task :
      (bus : GatewayBus Message) (r : RoutedRequest) (w : W) (rounds : ℕ)
      (before after : List RoutingRule) (rule : RoutingRule) (rest : List Message)
      → waiting bus "requests" ≡ request r ∷ rest
      → (query r).register ≡ method
      → router.rules ≡ before ++ (rule ∷ after)
      → All (λ s. ¬ Selects s (query r)) before
      → Selects rule (query r)
      → IsBounded rule.match.register_range
      → let end = run_rounds str_of router backends (suc rounds) bus w in
        (text : String) × (end.0 ≡ some (raise (type_error text)))
        × (waiting end.1.0 "responses" ≡ waiting bus "responses")
        × (waiting end.1.0 "requests" ≡ rest)
        × (end.1.1 ≡ w)
  raw_request_ends_task bus r w rounds before after rule rest head m split e s b =
      let (text, raised) = resolve_raises router (query r) before after rule split e s b m in
      let (taken, left) = waiting-get bus "requests" "requests" in
      let (_, kept) = waiting-get bus "requests" "responses" in
      let first : (get bus "requests").0 ≡ some (request r) = taken ∙ ap head? head in
      let stop =
        run_rounds-raises rounds bus w (type_error text) _
          (run_once-raises bus r w (type_error text) first raised) in
      (text, rw stop, rw stop kept, rw stop (left ∙ ap tail head), rw stop)
