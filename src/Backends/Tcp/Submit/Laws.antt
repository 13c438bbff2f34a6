-- ===== src/Backends/Tcp/Submit/Laws.antt =====
-- What `submit` promises to the dispatcher.
use modbusgw.Base.{
  ℕ, ◌+◌, ◌≤◌, ◌<◌, List, [], ◌∷◌, Option, none, some, String, lt→ltb, length, Bytes, Result, ok,
  raise, ◌≡◌, ◌≢◌, refl, ap, sym, ◌∙◌, subst, arith,
}
use modbusgw.Base.Exec.{lift, attempt, ◌>>=◌}
use modbusgw.Base.Exec.Runs.{
  Gives-attempt, Runs, Ends, Ends-bind, Gives, Runs-bind, Gives-bind, Runs-attempt,
}
use modbusgw.Messages.Requests.{Request, request_methods}
use modbusgw.Messages.Responses.{Response}
use modbusgw.Messages.Routing.{RoutedRequest, RoutedResponse}
use modbusgw.Dispatcher.Laws.{Answers, IsFaithful}
use modbusgw.Backends.Tcp.{
  TcpBackend, Network, taken, opened, released, retired, remove, next_transaction_id, routed_reply,
}
use modbusgw.Backends.Tcp.Pool.{
  IsSound, count, pool_size-retired, taken-IsSound, opened-IsSound, released-IsSound,
  retired-IsSound,
}
use modbusgw.Backends.Tcp.Submit.{
  create_connection, acquire_from, acquire_connection, release_connection, retire_connection,
  take_transaction_id, write, readexactly, replies, exchange, settle, submit,
}

-- A transaction id is a number from 1 to 65535, and never that of the request before.
pub next_transaction_id_fresh :
    (t : TcpBackend)
    → let (id, t') = next_transaction_id t in
      (1 ≤ id) × (id < 0x10000) × ((next_transaction_id t').0 ≢ id)
unfolding next_transaction_id
next_transaction_id_fresh t = ground arith

Answers-routed_reply :
    (name : String) (r : RoutedRequest) (sent : Request) (answer : Response)
    → Answers r (routed_reply name r sent answer)
unfolding routed_reply
Answers-routed_reply name r sent answer = (refl, refl)

-- The peer reads what is sent to it: no write waits for ever.
abbrev pub Drains : {W : Type 0} → Network W → Type 0
Drains {W} net = (c : ℕ) (frame : Bytes) (w : W) → (net.write c frame w).0 ≢ none

module _ {W : Type 0} (net : Network W) where
  abbrev State : Type 0
  State = TcpBackend × W

  -- The pool is sound, with these connections in use, and has a size.
  abbrev pub IsPool : List ℕ → State → Type 0
  IsPool out s = IsSound s.0 out × (0 < s.0.pool_size)

  take_transaction_id-IsPool :
      (out : List ℕ) → Runs (IsPool out) (IsPool out) (take_transaction_id net)
  unfolding take_transaction_id next_transaction_id
  take_transaction_id-IsPool out (t, w) (s, p) = (
    λ e. absurd (cc),
    (record { split = s.split; once = s.once; total = s.total; size = s.size }, p),
  )

  write-IsPool :
      Drains net
      → (out : List ℕ) (c : ℕ) (frame : Bytes) → Runs (IsPool out) (IsPool out) (write net c frame)
  unfolding write
  write-IsPool d out c frame (t, w) i = (d c frame w, i)

  readexactly-IsPool :
      (out : List ℕ) (c n : ℕ) → Runs (IsPool out) (IsPool out) (readexactly net c n)
  unfolding readexactly
  readexactly-IsPool out c n (t, w) i = (λ e. absurd (cc), i)

  lift-IsPool : {A : Type 0} (out : List ℕ) (r : Result A) → Runs (IsPool out) (IsPool out) (lift r)
  lift-IsPool out r s i = (λ e. absurd (cc), i)

  replies-IsPool :
      (out : List ℕ) (r : RoutedRequest) (sent : Request) (answer : Response)
      → Runs (IsPool out) (IsPool out) (replies net r sent answer)
  unfolding replies
  replies-IsPool out r sent answer (t, w) i = (λ e. absurd (cc), i)

  exchange-IsPool :
      Drains net
      → (out : List ℕ) (c : ℕ) (r : RoutedRequest)
      → Runs (IsPool out) (IsPool out) (exchange net c r)
  unfolding exchange
  exchange-IsPool d out c r =
      let I = IsPool out in
      Runs-bind I I _ _ (take_transaction_id-IsPool out) λ id.
        Runs-bind I I _ _ (lift-IsPool out _) λ adu. Runs-bind I I _ _ (lift-IsPool out _) λ frame.
          Runs-bind I I _ _ (write-IsPool d out c frame) λ written.
            Runs-bind I I _ _ (readexactly-IsPool out c 6) λ header.
              Runs-bind I I _ _ (lift-IsPool out _) λ same_id.
                Runs-bind I I _ _ (lift-IsPool out _) λ some_length.
                  Runs-bind I I _ _ (readexactly-IsPool out c 1) λ unit_bytes.
                    Runs-bind I I _ _ (readexactly-IsPool out c _) λ payload.
                      Runs-bind I I _ _ (lift-IsPool out _) λ answer. replies-IsPool out r _ answer

  remove_only : (c : ℕ) → remove c (c ∷ []) ≡ []
  unfolding remove
  remove_only c = ground arith

  only_counts : (c : ℕ) → 0 < count c (c ∷ [])
  only_counts c = ground arith

  settle-IsPool :
      (c : ℕ) (outcome : Result RoutedResponse)
      → Runs (IsPool (c ∷ [])) (IsPool []) (settle net c outcome)
  unfolding ◌>>=◌ settle release_connection retire_connection
  settle-IsPool c (ok reply) (t, w) (s, p) = (
    λ e. absurd (cc),
    (
      subst (IsSound (released t c)) (remove_only c)
          (released-IsSound t (c ∷ []) c (only_counts c) s),
      unfold released in p,
    ),
  )
  settle-IsPool c (raise e) (t, w) (s, p) = (
    λ e. absurd (cc),
    (
      subst (IsSound (retired t c)) (remove_only c)
          (retired-IsSound t (c ∷ []) c (only_counts c) s),
      subst (λ n. 0 < n) (sym (pool_size-retired t c)) p,
    ),
  )

  -- How a request comes to a connection: it has one in use, or raises and has none.
  abbrev Acquired : Option (Result ℕ) × State → Type 0
  Acquired = Ends (λ c. IsPool (c ∷ [])) (IsPool [])

  create_connection-Acquired :
      (t : TcpBackend) (w : W)
      → IsPool [] (t, w)
      → t.total < t.pool_size
      → Acquired (create_connection net (t, w))
  unfolding create_connection
  create_connection-Acquired t w (s, p) h = go (net.connect w).0
    where
      go :
          (outcome : Result (Unit {0}))
          → Acquired (elim outcome [
            | raise e ↦ (some (raise e), (t, (net.connect w).1))
            | ok done ↦ (some (ok t.made), (opened t, (net.connect w).1))
          ])
      go (raise e) = (s, p)
      go (ok done) = (opened-IsSound t [] h s, unfold opened in p)

  acquire_from-Acquired :
      (t : TcpBackend) (w : W) (free : List ℕ)
      → t.available ≡ free
      → IsPool [] (t, w)
      → Acquired (acquire_from net free (t, w))
  unfolding acquire_from
  acquire_from-Acquired t w (c ∷ rest) e (s, p) = (taken-IsSound t [] c rest e s, unfold taken in p)
  acquire_from-Acquired t w [] e (s, p) =
      let empty : t.total ≡ 0 = s.total ∙ ap (λ xs. length xs + 0) e in
      let below : t.total < t.pool_size = omega (arith, empty, p) in
      rw (lt→ltb _ _ below) (create_connection-Acquired t w (s, p) below)

  -- If the peer reads what it is sent, a request that finds no other under way ends, with a reply or
  -- an exception, and leaves a sound pool in which nothing is in use: what it took is free again or
  -- is out of the pool.
  pub submit-IsPool :
      (r : RoutedRequest)
      → Drains net
      → (t : TcpBackend) (w : W) → IsSound t []
      → 0 < t.pool_size
      → let (outcome, s) = submit net r (t, w) in (outcome ≢ none) × IsPool [] s
  unfolding submit
  submit-IsPool r d t w s p =
      let acquired : Acquired (acquire_connection net (t, w)) =
        unfold acquire_connection in acquire_from-Acquired t w t.available refl (s, p) in
      Ends-bind (λ c. IsPool (c ∷ [])) (IsPool []) (acquire_connection net)
        (λ c. attempt (exchange net c r) >>= λ outcome. settle net c outcome) (t, w) acquired
        (λ c s' i.
          let K = IsPool (c ∷ []) in
          Runs-attempt K K (IsPool []) (exchange net c r) (λ outcome. settle net c outcome)
            (exchange-IsPool d (c ∷ []) c r) (settle-IsPool c) s' i)

  replies-Answers :
      (r : RoutedRequest) (sent : Request) (answer : Response) (s : State)
      → Gives (Answers r) (replies net r sent answer s).0
  unfolding replies
  replies-Answers r sent answer (t, w) = Answers-routed_reply t.name r sent answer

  exchange-Answers :
      (c : ℕ) (r : RoutedRequest) (s : State) → Gives (Answers r) (exchange net c r s).0
  unfolding exchange
  exchange-Answers c r s =
      let A = Answers r in
      Gives-bind A _ _ s λ id s. Gives-bind A _ _ s λ adu s. Gives-bind A _ _ s λ frame s.
        Gives-bind A _ _ s λ written s. Gives-bind A _ _ s λ header s.
          Gives-bind A _ _ s λ same_id s. Gives-bind A _ _ s λ some_length s.
            Gives-bind A _ _ s λ unit_bytes s.
              Gives-bind A _ _ s
                λ payload s. Gives-bind A _ _ s λ answer s. replies-Answers r _ answer s

  settle-Answers :
      (c : ℕ) (r : RoutedRequest) (outcome : Result RoutedResponse) (s : State)
      → Gives (Answers r) (some outcome)
      → Gives (Answers r) (settle net c outcome s).0
  unfolding ◌>>=◌ settle release_connection retire_connection
  settle-Answers c r (ok reply) s h = h
  settle-Answers c r (raise e) s h = tt

  submit-Answers : (r : RoutedRequest) (s : State) → Gives (Answers r) (submit net r s).0
  unfolding submit
  submit-Answers r s =
      Gives-bind (Answers r) (acquire_connection net)
        (λ c. attempt (exchange net c r) >>= λ outcome. settle net c outcome) s
        (λ c s'.
          Gives-attempt (Answers r) (Answers r) (exchange net c r) (λ outcome. settle net c outcome)
            s' (exchange-Answers c r s') (settle-Answers c r))

  -- A reply of `submit` names the frontend and the id of the request that it was given.
  pub submit-IsFaithful : IsFaithful (submit net)
  submit-IsFaithful = record {
    answers = λ r s reply e. subst (Gives (Answers r)) e (submit-Answers r s);
  }
