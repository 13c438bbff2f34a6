-- ===== src/Bus/Laws.antt =====
-- Each topic is a first-in first-out queue of its own, within its bound.
use modbusgw.Base.{
  subst, sym, Bool-cases, inl, inr, if_of_true, if_of_false, false, Option, Result, not, ◌&&◌, ◌↔◌,
  ap, ℕ, ◌≤◌, true, List, [], ◌∷◌, ◌++◌, none, some, String, if◌then◌else◌, str_eq, str_eq_iff,
  length, length-append, ◌≡◌, ◌⊎◌, refl, arith,
}
use mathlib.Core.List.{head?, tail}
use modbusgw.Bus.{
  new_queue, Queue, GatewayBus, new_bus, lookup, store, queue, queue_or, with_queue, is_full,
  publish, get, pop,
}

-- What the components do with the bus.
pub data Use (M : Type 0) : Type 0 where
  puts : String → M → Use M
  takes : String → Use M

module _ {M : Type 0} where
  lookup-store :
      (name other : String) (q : Queue M) (topics : List (String × Queue M))
      → lookup other (store name q topics)
        ≡ (if str_eq name other then some q else lookup other topics)
  unfolding lookup store
  lookup-store name other q [] = refl
  lookup-store name other q ((key, old) ∷ rest) = ground (
    arith,
    str_eq_iff name other,
    str_eq_iff key name,
    str_eq_iff key other,
    lookup-store name other q rest,
  )

  -- What waits under a topic.
  abbrev pub waiting : GatewayBus M → String → List M
  waiting bus topic = (queue bus topic).items

  queue-with_queue :
      (bus : GatewayBus M) (name other : String) (q : Queue M)
      → queue (with_queue bus name q) other ≡ (if str_eq name other then q else queue bus other)
  unfolding queue with_queue queue_or
  queue-with_queue bus name other q = ground (arith, lookup-store name other q bus.topics)

  items-with_queue :
      (bus : GatewayBus M) (name other : String) (q : Queue M)
      → waiting (with_queue bus name q) other
        ≡ (if str_eq name other then q.items else waiting bus other)
  items-with_queue bus name other q = ground (arith, queue-with_queue bus name other q)

  -- After `publish`, the message stands behind what waited under its topic if that queue was not
  -- full, whatever the tracers do; if it was full nothing has changed; no other topic ever changes.
  pub waiting-publish :
      (bus : GatewayBus M) (topic other : String) (message : M)
      → waiting (publish bus topic message).1 other ≡ (
          if str_eq topic other && not (is_full (queue bus topic))
          then waiting bus topic ++ (message ∷ [])
          else waiting bus other)
  unfolding publish
  waiting-publish bus topic other message =
      let q = queue bus topic in
      ground (
        arith,
        items-with_queue bus topic other q,
        items-with_queue bus topic other (record q { items = q.items ++ (message ∷ []) }),
        str_eq_iff topic other,
        ap {B = List M} (waiting bus) {x = topic} {y = other},
      )

  -- `publish` is suspended exactly if the queue of its topic is full.
  pub publish-none_iff :
      (bus : GatewayBus M) (topic : String) (message : M)
      → ((publish bus topic message).0 ≡ none) ↔ (is_full (queue bus topic) ≡ true)
  unfolding publish
  publish-none_iff bus topic message = ground arith

  get_queue :
      (bus : GatewayBus M) (topic other : String) (size : ℕ) (items : List M)
      → ((pop bus topic size items).0 ≡ head? items)
        × (waiting (pop bus topic size items).1 other
            ≡ (if str_eq topic other then tail items else waiting bus other))
  unfolding pop
  get_queue bus topic other size [] = (refl, items-with_queue bus topic other _)
  get_queue bus topic other size (message ∷ rest) = (refl, items-with_queue bus topic other _)

  -- `get` returns the oldest message of its topic and takes it away, is suspended if there is none,
  -- and changes no other topic.
  pub waiting-get :
      (bus : GatewayBus M) (topic other : String)
      → ((get bus topic).0 ≡ head? (waiting bus topic))
        × (waiting (get bus topic).1 other
            ≡ (if str_eq topic other then tail (waiting bus topic) else waiting bus other))
  unfolding get
  waiting-get bus topic other =
      get_queue bus topic other (queue bus topic).maxsize (queue bus topic).items

  -- The queue has this bound and is within it; 0 is no bound.
  pub record IsWithin (size : ℕ) (q : Queue M) : Type 0 where
    pub sized : q.maxsize ≡ size
    pub held : (size ≡ 0) ⊎ (length q.items ≤ size)

  pub record IsBounded (size : ℕ) (bus : GatewayBus M) : Type 0 where
    pub at_topic : (topic : String) → IsWithin size (queue bus topic)

  with_queue-IsBounded :
      (size : ℕ) (bus : GatewayBus M) (topic : String) (q : Queue M)
      → IsBounded size bus
      → IsWithin size q
      → IsBounded size (with_queue bus topic q)
  with_queue-IsBounded size bus topic q h w = record {
    at_topic = λ other.
        subst (IsWithin size) (sym (queue-with_queue bus topic other q))
          (elim (Bool-cases (str_eq topic other)) [
            | inl same ↦ subst (IsWithin size) (sym (if_of_true _ _ same)) w
            | inr differs ↦ subst (IsWithin size) (sym (if_of_false _ _ differs)) (h.at_topic other)
          ]);
  }

  -- A queue never holds more than its bound: `publish` and `get` keep this, suspended or not.
  publish-IsBounded :
      (size : ℕ) (bus : GatewayBus M) (topic : String) (message : M)
      → IsBounded size bus
      → IsBounded size (publish bus topic message).1
  unfolding publish
  publish-IsBounded size bus topic message h =
      let q = queue bus topic in
      let w = h.at_topic topic in
      elim (Bool-cases (is_full q)) [
        | inl full ↦
            subst (λ (end : Option (Result (Unit {0})) × GatewayBus M). IsBounded size end.1)
              (sym (if_of_true _ _ full)) (with_queue-IsBounded size bus topic q h w)
        | inr room ↦
            subst (λ (end : Option (Result (Unit {0})) × GatewayBus M). IsBounded size end.1)
              (sym (if_of_false _ _ room))
              (with_queue-IsBounded size bus topic (record q { items = q.items ++ (message ∷ []) })
                h (record { sized = w.sized; held = one_more q w room }))
      ]
    where
      one_more :
          (q : Queue M)
          → IsWithin size q
          → is_full q ≡ false
          → (size ≡ 0) ⊎ (length (q.items ++ (message ∷ [])) ≤ size)
      one_more q w room =
          unfold is_full in ground (arith, w.sized, w.held, length-append q.items (message ∷ []))

  pop-IsBounded :
      (size : ℕ) (bus : GatewayBus M) (topic : String) (bound : ℕ) (items : List M)
      → IsBounded size bus
      → bound ≡ size
      → (size ≡ 0) ⊎ (length items ≤ size)
      → IsBounded size (pop bus topic bound items).1
  unfolding pop
  pop-IsBounded size bus topic bound [] h e w =
      with_queue-IsBounded size bus topic (record { maxsize = bound; items = [] }) h
        (record { sized = e; held = w })
  pop-IsBounded size bus topic bound (m ∷ rest) h e w =
      with_queue-IsBounded size bus topic (record { maxsize = bound; items = rest }) h
        (record { sized = e; held = ground arith })

  get-IsBounded :
      (size : ℕ) (bus : GatewayBus M) (topic : String)
      → IsBounded size bus
      → IsBounded size (get bus topic).1
  unfolding get
  get-IsBounded size bus topic h =
      let w = h.at_topic topic in
      pop-IsBounded size bus topic (queue bus topic).maxsize (queue bus topic).items h w.sized
        w.held

  new_bus-IsBounded : (size : ℕ) → IsBounded size (new_bus size)
  unfolding new_bus queue lookup queue_or new_queue
  new_bus-IsBounded size = record {
    at_topic = λ topic. record { sized = ground arith; held = ground arith };
  }

  pub run : GatewayBus M → List (Use M) → GatewayBus M
  run bus [] = bus
  run bus (puts topic message ∷ uses) = run (publish bus topic message).1 uses
  run bus (takes topic ∷ uses) = run (get bus topic).1 uses

  run-IsBounded :
      (size : ℕ) (bus : GatewayBus M) (uses : List (Use M))
      → IsBounded size bus
      → IsBounded size (run bus uses)
  unfolding run
  run-IsBounded size bus [] h = h
  run-IsBounded size bus (puts topic message ∷ uses) h =
      run-IsBounded size (publish bus topic message).1 uses
        (publish-IsBounded size bus topic message h)
  run-IsBounded size bus (takes topic ∷ uses) h =
      run-IsBounded size (get bus topic).1 uses (get-IsBounded size bus topic h)

  -- Whatever is published and taken on a new bus, in whatever order, the queue of each topic, also of
  -- one that is used for the first time, has the size that the bus was made with as its bound, and
  -- never holds more messages than that, unless it is 0.
  pub run-new_bus-IsBounded :
      (size : ℕ) (uses : List (Use M)) (topic : String)
      → let q = queue (run (new_bus size) uses) topic in
        (q.maxsize ≡ size) × ((size ≡ 0) ⊎ (length q.items ≤ size))
  run-new_bus-IsBounded size uses topic =
      let w = (run-IsBounded size (new_bus size) uses (new_bus-IsBounded size)).at_topic topic in
      (w.sized, w.held)
