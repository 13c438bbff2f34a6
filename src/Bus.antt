-- ===== src/Bus.antt =====
-- modbusgw/core/bus.py: topics with bounded queues. A call that asyncio would suspend (a put into a
-- full queue, a get from an empty one) gives `none` and leaves the queues as they are.
pub mod Laws
mod Tests
use modbusgw.Base.{
  ℕ, Bool, ◌&&◌, List, [], ◌∷◌, ◌++◌, Option, none, some, String, ltb, leb, if◌then◌else◌, str_eq,
  length, Result, ok, raise, ◌>>=◌,
}

-- asyncio.Queue: `maxsize` 0 is no bound
pub record Queue (M : Type 0) : Type 0 where
  pub maxsize : ℕ
  pub items : List M

-- A tracer sees the topic and the message, and may raise.
abbrev pub Tracer : Type 0 → Type 0
Tracer M = String → M → Result (Unit {0})

pub record GatewayBus (M : Type 0) : Type 0 where
  pub queue_size : ℕ
  pub topics : List (String × Queue M)
  pub tracers : List (Tracer M)

module _ {M : Type 0} where
  pub new_queue : ℕ → Queue M
  new_queue size = record { maxsize = size; items = [] }

  -- `__init__`, with the four topics that exist from the start
  unfoldable pub new_bus : ℕ → GatewayBus M
  unfolding new_queue
  new_bus size = record {
    queue_size = size;
    topics =
        ("requests", new_queue size)
        ∷ ("responses", new_queue size)
        ∷ ("events", new_queue size)
        ∷ ("management", new_queue size)
        ∷ [];
    tracers = [];
  }

  pub register_tracer : GatewayBus M → Tracer M → GatewayBus M
  register_tracer bus tracer = record bus { tracers = bus.tracers ++ (tracer ∷ []) }

  -- `self._topics` by key: reading, and setting an entry in its place or at the end
  unfoldable pub lookup : String → List (String × Queue M) → Option (Queue M)
  lookup name [] = none
  lookup name ((key, q) ∷ rest) = if str_eq key name then some q else lookup name rest

  pub store : String → Queue M → List (String × Queue M) → List (String × Queue M)
  store name q [] = (name, q) ∷ []
  store name q ((key, old) ∷ rest) =
      if str_eq key name then (key, q) ∷ rest else (key, old) ∷ store name q rest

  unfoldable pub queue_or : ℕ → Option (Queue M) → Queue M
  unfolding new_queue
  queue_or size none = new_queue size
  queue_or size (some q) = q

  -- `queue(name)`: the queue, which is made if it is not there
  unfoldable pub queue : GatewayBus M → String → Queue M
  unfolding queue_or lookup
  queue bus name = queue_or bus.queue_size (lookup name bus.topics)

  pub with_queue : GatewayBus M → String → Queue M → GatewayBus M
  unfolding store
  with_queue bus name q = record bus { topics = store name q bus.topics }

  unfoldable pub is_full : Queue M → Bool
  is_full q = ltb 0 q.maxsize && leb q.maxsize (length q.items)

  -- `_trace`: every tracer in turn, until one raises
  pub trace : List (Tracer M) → String → M → Result (Unit {0})
  trace [] topic message = ok tt
  trace (t ∷ rest) topic message = do tt ← t topic message; trace rest topic message

  -- `publish`: the message stays in the queue also if a tracer raises
  pub publish : GatewayBus M → String → M → Option (Result (Unit {0})) × GatewayBus M
  publish bus topic message =
      let q = queue bus topic in
      if is_full q then (none, with_queue bus topic q) else (
        some (trace bus.tracers topic message),
        with_queue bus topic (record q { items = q.items ++ (message ∷ []) }),
      )

  pop : GatewayBus M → String → ℕ → List M → Option M × GatewayBus M
  pop bus topic size [] = (none, with_queue bus topic (record { maxsize = size; items = [] }))
  pop bus topic size (message ∷ rest) =
      (some message, with_queue bus topic (record { maxsize = size; items = rest }))

  pub get : GatewayBus M → String → Option M × GatewayBus M
  get bus topic = let q = queue bus topic in pop bus topic q.maxsize q.items
