-- ===== src/Backends/Serial/Submit.antt =====
-- `submit` of modbusgw/backends/serial.py: attempts, each on an open session. The pause between two
-- attempts is left out: nothing else of the backend changes in it.
pub mod Attempts
pub mod Laws
pub mod Retries
use modbusgw.Base.{
  ℕ, zero, suc, Bool, true, false, List, Option, none, some, String, Bytes, Exn, Result, ok, raise,
  runtime_error, if◌then◌else◌,
}
use modbusgw.Base.Exec.{Exec, pure, fail, lift, attempt, ◌>>=◌, ◌>>◌}
use modbusgw.Messages.Pdu.{to_adu}
use modbusgw.Messages.Requests.{Request, request_methods}
use modbusgw.Messages.Routing.{RoutedRequest, RoutedResponse}
use modbusgw.Backends.Serial.{decode_frame, rtu_payload, serial_reply}

-- A session factory, and `exchange` and `close` of the session that it made. Each may return, raise,
-- or be suspended for good, where the port never takes what is written.
pub record SessionFactory (W : Type 0) : Type 0 where
  pub make : Exec W (Unit {0})
  pub exchange : Bytes → Exec W Bytes
  pub close_session : Exec W (Unit {0})

-- The fields of `SerialBackend`: `has_session` says whether `_session` is set.
pub record SerialBackend : Type 0 where
  pub name : String
  pub max_attempts : ℕ
  pub has_session : Bool

module _ {W : Type 0} (factory : SessionFactory W) where
  abbrev pub Serial : Type 0 → Type 0
  Serial A = Exec (SerialBackend × W) A

  -- A call of the factory or of the session
  pub on_session : {A : Type 0} → Exec W A → Serial A
  on_session call (b, w) = let (end, w') = call w in (end, (b, w'))

  -- `self._session = ...`
  abbrev pub set_session : Bool → Serial (Unit {0})
  set_session there (b, w) = (some (ok tt), (record b { has_session = there }, w))

  -- `_ensure_session`
  pub ensure_session : Serial (Unit {0})
  ensure_session (b, w) =
      if b.has_session
      then (some (ok tt), (b, w))
      else (do on_session factory.make; set_session true) (b, w)

  -- `_reset_session`; what `close` raises is suppressed.
  pub reset_session : Serial (Unit {0})
  reset_session (b, w) =
      if b.has_session
      then (attempt (on_session factory.close_session) >>= λ ended. set_session false) (b, w)
      else set_session false (b, w)

  pub exchange : Bytes → Serial Bytes
  exchange payload = on_session (factory.exchange payload)

  -- The body of the `try`.
  pub try_once : RoutedRequest → Request → Bytes → String → Serial RoutedResponse
  try_once r sent payload name = do
    ensure_session
    frame ← exchange payload
    sides ← lift (decode_frame frame)
    pure (serial_reply name r sent sides)

  -- A reply is returned; after an exception the session is reset, and the rest is tried.
  pub after : Serial RoutedResponse → Result RoutedResponse → Serial RoutedResponse
  after rest (ok reply) = pure reply
  after rest (raise e) = do reset_session; rest

  -- `for attempt in range(retry.max_attempts)`, with the attempts that are left
  pub attempts : ℕ → RoutedRequest → Request → Bytes → String → Serial RoutedResponse
  attempts zero r sent payload name = fail (runtime_error "Serial backend exhausted retries")
  attempts (suc left) r sent payload name =
      let rest = attempts left r sent payload name in
      attempt (try_once r sent payload name) >>= λ outcome. after rest outcome

  -- `submit`; what encoding the request raises comes out of it as it is
  pub submit : RoutedRequest → Serial RoutedResponse
  submit r (b, w) =
      (do
        adu ← lift (to_adu r.pdu).0
        payload ← lift (rtu_payload adu)
        attempts b.max_attempts r (to_adu r.pdu).1 payload b.name)
        (b, w)
