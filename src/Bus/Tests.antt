-- ===== src/Bus/Tests.antt =====
-- The theorems on the bus at a bus with two messages in a topic of two places.
use modbusgw.Base.{ℕ, length, ◌≤◌, ◌⊎◌, [], ◌∷◌, none, some, ◌≡◌, refl, raise, runtime_error}
use modbusgw.Bus.{
  GatewayBus, Tracer, new_queue, new_bus, register_tracer, queue, queue_or, lookup, store,
  with_queue, is_full, trace, publish,
}
use modbusgw.Bus.Laws.{puts, takes, run, run-new_bus-IsBounded}

-- A tracer that raises on every event.
abbrev bad_tracer : Tracer ℕ
bad_tracer topic message = raise (runtime_error topic)

abbrev one_waiting : GatewayBus ℕ
one_waiting = (publish (register_tracer (new_bus 2) bad_tracer) "requests" 7).1

abbrev two_waiting : GatewayBus ℕ
two_waiting = (publish one_waiting "requests" 8).1

tracer_raises : (publish one_waiting "requests" 8).0 ≡ some (raise (runtime_error "requests"))
unfolding publish register_tracer new_bus new_queue queue queue_or lookup store with_queue is_full
    trace
tracer_raises = refl

third_waits : (publish two_waiting "requests" 9).0 ≡ none
unfolding publish register_tracer new_bus new_queue queue queue_or lookup store with_queue is_full
third_waits = refl

abbrev one : ℕ
one = 1

run-new_bus-IsBounded_example :
    let q =
      queue
        (run (new_bus {M = ℕ} one) (puts "requests" 1 ∷ puts "requests" 2 ∷ takes "requests" ∷ []))
        "requests" in
    (q.maxsize ≡ one) × ((one ≡ 0) ⊎ (length q.items ≤ one))
run-new_bus-IsBounded_example =
    run-new_bus-IsBounded one (puts "requests" 1 ∷ puts "requests" 2 ∷ takes "requests" ∷ [])
      "requests"
