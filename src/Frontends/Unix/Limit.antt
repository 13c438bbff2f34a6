-- ===== src/Frontends/Unix/Limit.antt =====
-- The count of clients, whatever the order in which they come and go.
use modbusgw.Base.{ℕ, ◌+◌, ◌≤◌, length, none, String, ◌≡◌, ◌↔◌, refl, ◌∙◌, arith}
use modbusgw.Frontends.Unix.{UnixFrontend, new_frontend, connect, Event}
use modbusgw.Frontends.Unix.Counts.{IsDistinct, IsCounted, Event-IsCounted, Event-limit}

module _ (show : ℕ → String) where
  -- What a frontend can become, from its construction on, and how many of its handlers were cancelled
  -- while they waited.
  pub data Reaches (name : String) (max_clients : ℕ) : ℕ → UnixFrontend → Type 0 where
    fresh : Reaches name max_clients 0 (new_frontend name max_clients)
    then_event :
        {f g : UnixFrontend} {lost : ℕ} (cut : ℕ)
        → Reaches name max_clients lost f
        → Event show f g cut
        → Reaches name max_clients (lost + cut) g

  Reaches-IsCounted :
      {name : String} {max_clients lost : ℕ} {f : UnixFrontend}
      → Reaches name max_clients lost f
      → IsCounted lost f
  Reaches-IsCounted fresh = record {
    counted = omega arith;
    within = omega arith;
    passed = tt;
    distinct = tt;
  }
  Reaches-IsCounted (then_event {f} {g} {lost} cut r e) =
      Event-IsCounted show lost cut f g e (Reaches-IsCounted r)

  Reaches-max_clients :
      {name : String} {max_clients lost : ℕ} {f : UnixFrontend}
      → Reaches name max_clients lost f
      → f.max_clients ≡ max_clients
  Reaches-max_clients fresh = refl
  Reaches-max_clients (then_event {f} {g} {lost} cut r e) =
      Event-limit show f g cut e ∙ Reaches-max_clients r

  -- However clients come and go and the frontend is started and stopped, no more handlers run than
  -- the `max_clients` that it was made with, and those that run have different client numbers. Each handler that `stop` cancels
  -- while it waits for its connection to close takes up a place for good: a client is refused exactly
  -- if the handlers that run and the places that are lost in this way are `max_clients` together.
  pub Reaches-limit :
      {name : String} {max_clients lost : ℕ} {f : UnixFrontend}
      → Reaches name max_clients lost f
      → (length f.tasks + lost ≤ max_clients)
        × IsDistinct f.tasks
        × (((connect f).0 ≡ none) ↔ (length f.tasks + lost ≡ max_clients))
  unfolding connect
  Reaches-limit {name} {max_clients} {lost} {f} r =
      let c = Reaches-IsCounted r in
      let limit = Reaches-max_clients r in
      (
        omega (arith, c.counted, c.within, limit),
        c.distinct,
        (
          λ e. ground (arith, c.counted, c.within, limit),
          λ e. ground (arith, c.counted, c.within, limit),
        ),
      )
