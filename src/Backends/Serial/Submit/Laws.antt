-- ===== src/Backends/Serial/Submit/Laws.antt =====
-- What `submit` of the serial backend promises to the dispatcher.
use modbusgw.Base.{ℕ, zero, suc, Option, some, String, Bytes, Result, ok, raise, refl, subst}
use modbusgw.Base.Exec.Runs.{Gives, Gives-bind, Gives-attempt}
use modbusgw.Messages.Pdu.{to_adu}
use modbusgw.Messages.Requests.{Request, request_methods}
use modbusgw.Messages.Responses.{Response}
use modbusgw.Messages.Routing.{RoutedRequest, RoutedResponse}
use modbusgw.Dispatcher.Laws.{Answers, IsFaithful}
use modbusgw.Backends.Serial.{serial_reply}
use modbusgw.Backends.Serial.Submit.{
  SessionFactory, SerialBackend, reset_session, try_once, after, attempts, submit,
}

Answers-serial_reply :
    (name : String) (r : RoutedRequest) (sent : Request) (sides : Option Response × Option Response)
    → Answers r (serial_reply name r sent sides)
unfolding serial_reply
Answers-serial_reply name r sent (answer, exception) = (refl, refl)

module _ {W : Type 0} (factory : SessionFactory W) where
  try_once-Answers :
      (r : RoutedRequest) (sent : Request) (payload : Bytes) (name : String) (s : SerialBackend × W)
      → Gives (Answers r) (try_once factory r sent payload name s).0
  unfolding try_once
  try_once-Answers r sent payload name s =
      let A = Answers r in
      Gives-bind A _ _ s λ opened s.
        Gives-bind A _ _ s
          λ frame s. Gives-bind A _ _ s λ sides s. Answers-serial_reply name r sent sides

  attempts-Answers :
      (left : ℕ) (r : RoutedRequest) (sent : Request) (payload : Bytes) (name : String)
      (s : SerialBackend × W)
      → Gives (Answers r) (attempts factory left r sent payload name s).0
  unfolding attempts after
  attempts-Answers zero r sent payload name s = tt
  attempts-Answers (suc left) r sent payload name s =
      Gives-attempt (Answers r) (Answers r) (try_once factory r sent payload name)
        (λ outcome. after factory (attempts factory left r sent payload name) outcome) s
        (try_once-Answers r sent payload name s)
        (handled (attempts-Answers left r sent payload name))
    where
      handled :
          ((s' : SerialBackend × W)
            → Gives (Answers r) (attempts factory left r sent payload name s').0)
          → (outcome : Result RoutedResponse) (s' : SerialBackend × W)
          → Gives (Answers r) (some outcome)
          → Gives
              (Answers r)
              (after factory (attempts factory left r sent payload name) outcome s').0
      handled ih (ok reply) s' h = h
      handled ih (raise e) s' h =
          Gives-bind (Answers r) (reset_session factory) _ s' λ done s'. ih s'

  submit-Answers :
      (r : RoutedRequest) (s : SerialBackend × W) → Gives (Answers r) (submit factory r s).0
  unfolding submit
  submit-Answers r (b, w) =
      let A = Answers r in
      Gives-bind A _ _ (b, w)
        λ adu s.
          Gives-bind A _ _ s
            λ payload s. attempts-Answers b.max_attempts r (to_adu r.pdu).1 payload b.name s

  -- A reply of `submit` names the frontend and the id of the request that it was given.
  pub serial_submit-IsFaithful : IsFaithful (submit factory)
  serial_submit-IsFaithful = record {
    answers = λ r s reply e. subst (Gives (Answers r)) e (submit-Answers r s);
  }
