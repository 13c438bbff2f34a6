-- ===== src/Backends/Serial/Submit/Retries.antt =====
-- How `submit` of the serial backend goes through its attempts.
use modbusgw.Base.{
  ◌++◌, le16, ℕ, zero, suc, none, some, Bytes, Exn, Result, ok, raise, runtime_error, ◌≡◌, refl,
  arith, String, ◌∙◌,
}
use modbusgw.Base.Exec.{◌>>=◌}
use modbusgw.Base.Exec.Runs.{bind_ok, bind_attempt}
use modbusgw.Messages.Pdu.{to_adu}
use modbusgw.Messages.Requests.{Request, request_methods}
use modbusgw.Messages.Routing.{RoutedRequest, RoutedResponse}
use modbusgw.Crc.{crc16_modbus}
use modbusgw.Crc.Laws.{crc16_modbus-lt}
use modbusgw.Dispatcher.Laws.{Answers}
use modbusgw.Backends.Serial.{rtu_payload, serial_reply}
use modbusgw.Backends.Serial.Submit.{
  SessionFactory, SerialBackend, try_once, after, attempts, submit,
}
use modbusgw.Backends.Serial.Submit.Attempts.{
  Sides, IsAwake, Attempted, Reset, replied, round-End, reset_end,
}

rtu_payload-eq-ok : (adu : Bytes) → rtu_payload adu ≡ ok (adu ++ le16 (crc16_modbus adu))
unfolding rtu_payload
rtu_payload-eq-ok adu = ground (arith, crc16_modbus-lt adu)

module _ {W : Type 0} (factory : SessionFactory W) where
  -- What a reply carries: the request's frontend and id, the backend's name, both sides and no error
  abbrev pub Replies : RoutedRequest → String → Sides → RoutedResponse → Type 0
  Replies r name sides reply =
      Answers r reply
      × (reply.context.backend ≡ name)
      × (reply.response ≡ sides.0)
      × (reply.exception ≡ sides.1)
      × (reply.error ≡ none)

  -- With so many attempts left, the first that succeeds gives the reply; each one that fails is
  -- followed by a reset and the next; RuntimeError is raised when none is left.
  pub data Tries (r : RoutedRequest) (name : String) (payload : Bytes)
      : ℕ → SerialBackend × W → Result RoutedResponse → SerialBackend × W → Type 0 where
    used_up :
        {s : SerialBackend × W}
        → Tries r name payload 0 s (raise (runtime_error "Serial backend exhausted retries")) s
    answered :
        {left : ℕ} {s s' : SerialBackend × W} {sides : Sides} {reply : RoutedResponse}
        → Attempted factory payload s (ok sides) s'
        → Replies r name sides reply
        → Tries r name payload (suc left) s (ok reply) s'
    failed :
        {left : ℕ} {s s1 s2 s' : SerialBackend × W} {e : Exn} {outcome : Result RoutedResponse}
        → Attempted factory payload s (raise e) s1
        → Reset factory s1 s2
        → Tries r name payload left s2 outcome s'
        → Tries r name payload (suc left) s outcome s'

  Replies-serial_reply :
      (name : String) (r : RoutedRequest) (sent : Request) (sides : Sides)
      → Replies r name sides (serial_reply name r sent sides)
  unfolding serial_reply
  Replies-serial_reply name r sent (answer, exception) = ((refl, refl), refl, refl, refl, refl)

  attempts_end :
      (awake : IsAwake factory) (left : ℕ) (r : RoutedRequest) (sent : Request) (payload : Bytes)
      (name : String) (s : SerialBackend × W)
      → (outcome : Result RoutedResponse) × (s' : SerialBackend × W) × (attempts factory left r sent
            payload name s
          ≡ (some outcome, s'))
        × Tries r name payload left s outcome s'
  unfolding attempts try_once after replied
  attempts_end awake zero r sent payload name s = (_, s, refl, used_up)
  attempts_end awake (suc left) r sent payload name s =
      let (sides, s1, tried, e) = round-End factory awake payload (serial_reply name r sent) s in
      go sides s1 tried e (attempts_end awake left r sent payload name)
    where
      go :
          (sides : Result Sides) (s1 : SerialBackend × W)
          → Attempted factory payload s sides s1
          → try_once factory r sent payload name s
            ≡ (some (replied factory (serial_reply name r sent) sides), s1)
          → ((s2 : SerialBackend × W)
              → (outcome : Result RoutedResponse) × (s' : SerialBackend × W) × (attempts factory
                    left r sent payload name s2
                  ≡ (some outcome, s'))
                × Tries r name payload left s2 outcome s')
          → (outcome : Result RoutedResponse) × (s' : SerialBackend × W) × (attempts factory
                (suc left)
                r
                sent
                payload
                name
                s
              ≡ (some outcome, s'))
            × Tries r name payload (suc left) s outcome s'
      go (ok sides) s1 tried e ih = (
        ok (serial_reply name r sent sides),
        s1,
        bind_attempt _ (after factory (attempts factory left r sent payload name)) e,
        answered tried (Replies-serial_reply name r sent sides),
      )
      go (raise x) s1 tried e ih =
          let (s2, reset, q) = reset_end factory awake s1 in
          let (outcome, s', run, tries) = ih s2 in
          (
            outcome,
            s',
            bind_attempt _ (after factory (attempts factory left r sent payload name)) e
                ∙ (bind_ok _ (λ done. attempts factory left r sent payload name) q ∙ run),
            failed tried reset tries,
          )

  -- If the request can be written and no call of the factory or of a session is suspended for good,
  -- `submit` returns or raises, after attempts that are as many as `max_attempts` allows: each sends
  -- the request with its checksum on the session that is there or on a new one; the first whose answer
  -- is read and decoded gives the reply, with the request's frontend and id, the backend's name and
  -- what was decoded; one that fails is followed by closing the session and the next attempt; only
  -- when `max_attempts` of them have failed, RuntimeError is raised.
  pub submit-Tries :
      (awake : IsAwake factory) (r : RoutedRequest) (b : SerialBackend) (w : W) {adu : Bytes}
      → (to_adu r.pdu).0 ≡ ok adu
      → (outcome : Result RoutedResponse) × (s' : SerialBackend × W) × (submit factory r (b, w)
          ≡ (some outcome, s'))
        × Tries r b.name (adu ++ le16 (crc16_modbus adu)) b.max_attempts (b, w) outcome s'
  unfolding submit ◌>>=◌
  submit-Tries awake r b w {adu} h =
      rw (h, rtu_payload-eq-ok adu)
        (attempts_end awake b.max_attempts r (to_adu r.pdu).1 _ b.name (b, w))
