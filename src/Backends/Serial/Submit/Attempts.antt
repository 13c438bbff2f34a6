-- ===== src/Backends/Serial/Submit/Attempts.antt =====
-- One attempt of the serial backend, described by the calls of the factory and of the session.
use modbusgw.Base.{
  Bool, true, false, Option, none, some, Bytes, Exn, Result, ok, raise, if_of_true, if_of_false,
  ◌≡◌, ◌≢◌, refl, ◌∙◌,
}
use modbusgw.Base.Exec.{Exec, pure, lift, ◌>>=◌}
use modbusgw.Base.Exec.Runs.{bind_ok, bind_raise, bind_attempt}
use modbusgw.Messages.Requests.{request_methods}
use modbusgw.Messages.Responses.{Response}
use modbusgw.Messages.Routing.{RoutedResponse}
use modbusgw.Backends.Serial.{decode_frame}
use modbusgw.Backends.Serial.Submit.{
  SessionFactory, SerialBackend, Serial, on_session, set_session, ensure_session, reset_session,
  exchange,
}

abbrev pub Sides : Type 0
Sides = Option Response × Option Response

module _ {W : Type 0} (factory : SessionFactory W) where
  -- No call of the factory or of a session is suspended for good.
  pub record IsAwake : Type 0 where
    pub makes : (w : W) → (factory.make w).0 ≢ none
    pub exchanges : (payload : Bytes) (w : W) → (factory.exchange payload w).0 ≢ none
    pub closes : (w : W) → (factory.close_session w).0 ≢ none

  -- What the session's `exchange` of a payload comes to: it raises, or what it brings is decoded.
  pub data Exchanged (payload : Bytes) : W → Result Sides → W → Type 0 where
    silent :
        {w w' : W} {e : Exn}
        → factory.exchange payload w ≡ (some (raise e), w')
        → Exchanged payload w (raise e) w'
    heard :
        {w w' : W} {frame : Bytes}
        → factory.exchange payload w ≡ (some (ok frame), w')
        → Exchanged payload w (decode_frame frame) w'

  -- One attempt, on the session that is there or on a new one
  pub data Attempted (payload : Bytes)
      : SerialBackend × W → Result Sides → SerialBackend × W → Type 0 where
    unopened :
        {b : SerialBackend} {w w' : W} {e : Exn}
        → b.has_session ≡ false
        → factory.make w ≡ (some (raise e), w')
        → Attempted payload (b, w) (raise e) (b, w')
    opened :
        {b : SerialBackend} {w w1 w' : W} {sides : Result Sides}
        → b.has_session ≡ false
        → factory.make w ≡ (some (ok tt), w1)
        → Exchanged payload w1 sides w'
        → Attempted payload (b, w) sides (record b { has_session = true }, w')
    kept :
        {b : SerialBackend} {w w' : W} {sides : Result Sides}
        → b.has_session ≡ true
        → Exchanged payload w sides w'
        → Attempted payload (b, w) sides (b, w')

  -- A session that is there is closed, whatever that raises, and then none is there.
  pub data Reset : SerialBackend × W → SerialBackend × W → Type 0 where
    closed :
        {b : SerialBackend} {w w' : W} {outcome : Result (Unit {0})}
        → b.has_session ≡ true
        → factory.close_session w ≡ (some outcome, w')
        → Reset (b, w) (record b { has_session = false }, w')
    nothing :
        {b : SerialBackend} {w : W}
        → b.has_session ≡ false
        → Reset (b, w) (record b { has_session = false }, w)

  -- A call that is not suspended comes to something.
  awake_end :
      {A : Type 0} (call : Exec W A) (w : W)
      → (call w).0 ≢ none
      → (outcome : Result A) × (w' : W) × (call w ≡ (some outcome, w'))
  awake_end {A} call w h = go (call w) refl h
    where
      go :
          (end : Option (Result A) × W)
          → call w ≡ end
          → end.0 ≢ none
          → (outcome : Result A) × (w' : W) × (call w ≡ (some outcome, w'))
      go (none, w') e h = absurd (h refl)
      go (some outcome, w') e h = (outcome, w', e)

  on_session_end :
      {A : Type 0} (call : Exec W A) (b : SerialBackend) {w w' : W} {outcome : Result A}
      → call w ≡ (some outcome, w')
      → on_session factory call (b, w) ≡ (some outcome, (b, w'))
  unfolding on_session
  on_session_end call b e = rw e refl

  unfoldable pub replied : (Sides → RoutedResponse) → Result Sides → Result RoutedResponse
  replied reply (ok sides) = ok (reply sides)
  replied reply (raise e) = raise e

  decoded :
      (reply : Sides → RoutedResponse) (sides : Result Sides) (s : SerialBackend × W)
      → (lift sides >>= λ x. pure (reply x)) s ≡ (some (replied reply sides), s)
  unfolding ◌>>=◌ replied
  decoded reply (ok sides) s = refl
  decoded reply (raise e) s = refl

  abbrev pub rest : (Sides → RoutedResponse) → Bytes → Serial factory RoutedResponse
  rest reply frame = lift (decode_frame frame) >>= λ x. pure (reply x)

  exchange_end :
      (awake : IsAwake) (payload : Bytes) (reply : Sides → RoutedResponse) (b : SerialBackend)
      (w : W)
      → (sides : Result Sides) × (w' : W) × Exchanged payload w sides w'
        × ((exchange factory payload >>= rest reply) (b, w) ≡ (some (replied reply sides), (b, w')))
  unfolding exchange replied
  exchange_end awake payload reply b w =
      let (outcome, w', e) = awake_end (factory.exchange payload) w (awake.exchanges payload w) in
      go outcome w' e
    where
      go :
          (outcome : Result Bytes) (w' : W)
          → factory.exchange payload w ≡ (some outcome, w')
          → (sides : Result Sides) × (w' : W) × Exchanged payload w sides w'
            × ((exchange factory payload >>= rest reply) (b, w)
                ≡ (some (replied reply sides), (b, w')))
      go (raise x) w' e = (raise x, w', silent e, bind_raise _ (rest reply) (on_session_end _ b e))
      go (ok frame) w' e = (
        decode_frame frame,
        w',
        heard e,
        bind_ok _ (rest reply) (on_session_end _ b e) ∙ decoded reply (decode_frame frame) (b, w'),
      )

  abbrev pub exchanging :
      Bytes → (Sides → RoutedResponse) → Unit {0} → Serial factory RoutedResponse
  exchanging payload reply done = exchange factory payload >>= rest reply

  -- What one attempt comes to
  abbrev pub End : Bytes → (Sides → RoutedResponse) → SerialBackend × W → Type 0
  End payload reply s =
      (sides : Result Sides) × (s' : SerialBackend × W) × Attempted payload s sides s'
      × ((ensure_session factory >>= exchanging payload reply) s ≡ (some (replied reply sides), s'))

  made-End :
      (awake : IsAwake) (payload : Bytes) (reply : Sides → RoutedResponse) (b : SerialBackend)
      (w : W) (outcome : Result (Unit {0})) (w1 : W)
      → b.has_session ≡ false
      → factory.make w ≡ (some outcome, w1)
      → End payload reply (b, w)
  unfolding ensure_session replied
  made-End awake payload reply b w (raise x) w1 h e =
      let raised : ensure_session factory (b, w) ≡ (some (raise x), (b, w1)) =
        if_of_false _ _ h
        ∙ bind_raise _ (λ done. set_session factory true) (on_session_end factory.make b e) in
      (raise x, (b, w1), unopened h e, bind_raise _ (exchanging payload reply) raised)
  made-End awake payload reply b w (ok done) w1 h e =
      let there : SerialBackend = record b { has_session = true } in
      let ensured : ensure_session factory (b, w) ≡ (some (ok tt), (there, w1)) =
        if_of_false _ _ h
        ∙ bind_ok _ (λ done. set_session factory true) (on_session_end factory.make b e) in
      let (sides, w', x, q) = exchange_end awake payload reply there w1 in
      (sides, (there, w'), opened h e x, bind_ok _ (exchanging payload reply) ensured ∙ q)

  kept-End :
      (awake : IsAwake) (payload : Bytes) (reply : Sides → RoutedResponse) (b : SerialBackend)
      (w : W)
      → b.has_session ≡ true
      → End payload reply (b, w)
  unfolding ensure_session
  kept-End awake payload reply b w h =
      let (sides, w', x, q) = exchange_end awake payload reply b w in
      let ensured : ensure_session factory (b, w) ≡ (some (ok tt), (b, w)) = if_of_true _ _ h in
      (sides, (b, w'), kept h x, bind_ok _ (exchanging payload reply) ensured ∙ q)

  pub round-End :
      (awake : IsAwake) (payload : Bytes) (reply : Sides → RoutedResponse) (s : SerialBackend × W)
      → End payload reply s
  round-End awake payload reply (b, w) = go b.has_session refl
    where
      go : (has : Bool) → b.has_session ≡ has → End payload reply (b, w)
      go true h = kept-End awake payload reply b w h
      go false h =
          let (outcome, w1, e) = awake_end factory.make w (awake.makes w) in
          made-End awake payload reply b w outcome w1 h e

  pub reset_end :
      (awake : IsAwake) (s : SerialBackend × W)
      → (s' : SerialBackend × W) × Reset s s' × (reset_session factory s ≡ (some (ok tt), s'))
  unfolding reset_session
  reset_end awake (b, w) = go b.has_session refl
    where
      go :
          (has : Bool)
          → b.has_session ≡ has
          → (s' : SerialBackend × W) × Reset (b, w) s'
            × (reset_session factory (b, w) ≡ (some (ok tt), s'))
      go true h =
          let (outcome, w', e) = awake_end factory.close_session w (awake.closes w) in
          (
            (record b { has_session = false }, w'),
            closed h e,
            if_of_true _ _ h
                ∙ bind_attempt _ (λ ended. set_session factory false)
                    (on_session_end factory.close_session b e),
          )
      go false h = ((record b { has_session = false }, w), nothing h, if_of_false _ _ h)
