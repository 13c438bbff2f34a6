-- ===== src/Responder/Laws.antt =====
-- Every response that waits is handed over, in order, and nothing that a frontend raises stops it.
use modbusgw.Base.{
  Bool-cases, inl, inr, ℕ, suc, List, [], ◌∷◌, map, All, Option, none, some, String, str_eq, length,
  Result, ok, ◌≡◌, ◌≢◌, refl, ap, ◌∙◌, subst,
}
use mathlib.Core.List.{head?, tail}
use modbusgw.Messages.Routing.{RoutedResponse}
use modbusgw.Bus.{GatewayBus, get}
use modbusgw.Bus.Laws.{waiting, waiting-get}
use modbusgw.Dispatcher.{Message, response, Step}
use modbusgw.Responder.{Frontend, find_frontend, logged, deliver_to, deliver, handle, run}

module _ {W : Type 0} (frontends : List (String × Frontend W)) where
  -- No frontend waits for ever.
  abbrev pub AllAwake : List (String × Frontend W) → Type 0
  AllAwake = All (λ p. (reply : RoutedResponse) (w : W) → (p.1 reply w).0 ≢ none)

  -- The world after each of these responses was handed to the frontend that it names, in this order;
  -- a response to an unknown frontend is dropped.
  unfoldable pub delivered : List RoutedResponse → W → W
  delivered [] w = w
  delivered (reply ∷ rest) w =
      delivered rest (elim (find_frontend reply.context.frontend frontends) [
        | none ↦ w
        | some frontend ↦ (frontend reply w).1
      ])

  find_frontend-awake :
      (name : String) (fs : List (String × Frontend W)) {f : Frontend W}
      → AllAwake fs
      → find_frontend name fs ≡ some f
      → (reply : RoutedResponse) (w : W) → (f reply w).0 ≢ none
  unfolding find_frontend
  find_frontend-awake name [] h e = absurd (cc)
  find_frontend-awake name ((key, g) ∷ rest) {f} h e = elim (Bool-cases (str_eq key name)) [
    | inl y ↦
        let found : some g ≡ some f = rw y at e in
        let same : g ≡ f = cc found in
        subst (λ (f : Frontend W). (reply : RoutedResponse) (w : W) → (f reply w).0 ≢ none) same h.0
    | inr n ↦ find_frontend-awake name rest h.1 (rw n at e)
  ]

  logged-awake :
      (outcome : Option (Result (Unit {0})))
      → outcome ≢ none
      → logged frontends outcome ≡ some (ok tt)
  unfolding logged
  logged-awake none h = absurd (h refl)
  logged-awake (some outcome) h = refl

  handle-delivered :
      (reply : RoutedResponse) (w : W)
      → AllAwake frontends
      → handle frontends (some (response reply)) w ≡ (some (ok tt), delivered (reply ∷ []) w)
  unfolding handle deliver delivered
  handle-delivered reply w h = go (find_frontend reply.context.frontend frontends) refl
    where
      go :
          (f : Option (Frontend W))
          → find_frontend reply.context.frontend frontends ≡ f
          → deliver_to frontends f reply w
            ≡ (some (ok tt), elim f [ none ↦ w | some frontend ↦ (frontend reply w).1 ])
      go none e = unfold deliver_to in refl
      go (some f) e =
          unfold deliver_to in
          rw (
            logged-awake (f reply w).0
              (find_frontend-awake reply.context.frontend frontends h e reply w))

  run-step :
      (n : ℕ) (bus : GatewayBus Message) (w : W) {message : Message} {w' : W}
      → (get bus "responses").0 ≡ some message
      → handle frontends (some message) w ≡ (some (ok tt), w')
      → run frontends (suc n) bus w ≡ run frontends n (get bus "responses").1 w'
  unfolding run
  run-step n bus w {message} {w'} first handled =
      let handled' : handle frontends (get bus "responses").0 w ≡ (some (ok tt), w') =
        ap (λ m. handle frontends m w) first ∙ handled in
      rw (run, handled') (ap (λ (p : Step W). run frontends n (get bus "responses").1 p.1) handled')

  -- If the responses that wait are these and no frontend waits for ever, as many rounds hand each of
  -- them, in order, to the frontend that it names, whatever the frontends raise; then the topic is
  -- empty and the loop is still running.
  pub run-delivered :
      (bus : GatewayBus Message) (w : W) (replies : List RoutedResponse)
      → AllAwake frontends
      → waiting bus "responses" ≡ map response replies
      → let (outcome, (bus', w')) = run frontends (length replies) bus w in
        (outcome ≡ some (ok tt)) × (w' ≡ delivered replies w) × (waiting bus' "responses" ≡ [])
  unfolding delivered
  run-delivered bus w [] h e = unfold run in (refl, refl, e)
  run-delivered bus w (reply ∷ rest) h e =
      let (taken, left) = waiting-get bus "responses" "responses" in
      let first : (get bus "responses").0 ≡ some (response reply) = taken ∙ ap head? e in
      let rest_waits : waiting (get bus "responses").1 "responses" ≡ map response rest =
        left ∙ ap tail e in
      let later =
        run-delivered (get bus "responses").1 (delivered (reply ∷ []) w) rest h rest_waits in
      rw (run-step (length rest) bus w first (handle-delivered reply w h)) later
