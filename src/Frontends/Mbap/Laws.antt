-- ===== src/Frontends/Mbap/Laws.antt =====
-- Requests are read off the stream frame by frame, and a reply goes to the client that asked.
use modbusgw.Base.{
  ℕ, ◌+◌, ◌-◌, ◌/◌, ◌%◌, ◌^◌, ◌≤◌, ◌<◌, Bool, true, false, not, [], ◌∷◌, ◌++◌, none, ◌==◌, ltb,
  if◌then◌else◌, length, length-append, length-drop, take, drop, take-append_left, drop-append_left,
  get_or, be16, Bytes, Result, ok, raise, ◌≡◌, refl, sym, subst, ◌∙◌, arith,
}
use modbusgw.Messages.Pdu.{to_adu}
use modbusgw.Messages.Pdu.Framing.{to_adu-eq-ok}
use modbusgw.Messages.Requests.{Request, request_methods, request_code, request_from_adu}
use modbusgw.Messages.Requests.RoundTrip.{IsUnregistered}
use modbusgw.Messages.Requests.Framing.{arrived, request_from_adu-to_adu}
use modbusgw.Messages.Responses.{response_methods}
use modbusgw.Frontends.Mbap.{
  Arrival, ended, skipped, arrives, field, decoded, read_payload, read_request,
}

-- What is left after a round is at least a header shorter than the stream, so the loop ends.
abbrev pub Shrinks : Bytes → Arrival → Type 0
Shrinks stream ended = Unit
Shrinks stream (skipped rest) = length rest + 7 ≤ length stream
Shrinks stream (arrives transaction pdu rest) = length rest + 7 ≤ length stream

Shrinks-decoded :
    (stream rest : Bytes) (transaction : ℕ) (pdu : Result Request)
    → length rest + 7 ≤ length stream
    → Shrinks stream (decoded transaction rest pdu)
unfolding decoded
Shrinks-decoded stream rest transaction (ok pdu) h = h
Shrinks-decoded stream rest transaction (raise e) h = h

Shrinks-if :
    (stream : Bytes) (test : Bool) (x y : Arrival)
    → (test ≡ true → Shrinks stream x)
    → (test ≡ false → Shrinks stream y)
    → Shrinks stream (if test then x else y)
Shrinks-if stream true x y h k = h refl
Shrinks-if stream false x y h k = k refl

Shrinks-read_payload :
    (stream header left : Bytes)
    → length left + 7 ≤ length stream
    → Shrinks stream (read_payload header left)
unfolding read_payload
Shrinks-read_payload stream header left room =
    let size = field header 4 - 1 in
    let rest = drop size left in
    let less : length rest + 7 ≤ length stream = omega (arith, room, length-drop size left) in
    let pdu = request_from_adu (get_or header 6 0 ∷ take size left) none in
    Shrinks-if stream (ltb (length left) size) ended
      (if not (field header 2 == 0) then skipped rest else decoded (field header 0) rest pdu)
      (λ y. tt)
      (λ n.
        Shrinks-if stream (not (field header 2 == 0)) (skipped rest)
          (decoded (field header 0) rest pdu) (λ y. less)
          (λ n. Shrinks-decoded stream rest (field header 0) pdu less))

-- Each round of a client's loop that does not end it takes at least seven bytes off the stream.
pub Shrinks-read_request : (stream : Bytes) → Shrinks stream (read_request stream)
unfolding read_request
Shrinks-read_request stream =
    Shrinks-if stream (ltb (length stream) 7) ended
      (if ltb (field (take 7 stream) 4) 1
        then skipped (drop 7 stream)
        else read_payload (take 7 stream) (drop 7 stream))
      (λ y. tt)
      (λ n.
        let room : length (drop 7 stream) + 7 ≤ length stream =
          ground (arith, length-drop 7 stream) in
        Shrinks-if stream (ltb (field (take 7 stream) 4) 1) (skipped (drop 7 stream))
          (read_payload (take 7 stream) (drop 7 stream)) (λ y. room)
          (λ n. Shrinks-read_payload stream (take 7 stream) (drop 7 stream) room))

-- The frame of a request.
abbrev pub request_bytes : ℕ → Bytes → Bytes
request_bytes transaction adu = (be16 transaction ++ (0 ∷ 0 ∷ be16 (length adu))) ++ adu

read_frame :
    (transaction u : ℕ) (pdu rest : Bytes)
    → transaction < 2 ^ 16
    → length (u ∷ pdu) < 2 ^ 16
    → read_request (((be16 transaction ++ (0 ∷ 0 ∷ be16 (length (u ∷ pdu)))) ++ (u ∷ pdu)) ++ rest)
      ≡ decoded transaction rest (request_from_adu (u ∷ pdu) none)
unfolding read_request read_payload
read_frame t u pdu rest ht hl =
    let n = length (u ∷ pdu) in
    let header : Bytes = t / 256 ∷ t % 256 ∷ 0 ∷ 0 ∷ n / 256 ∷ n % 256 ∷ u ∷ [] in
    let size : field header 4 ≡ n = omega arith in
    let id : field header 0 ≡ t = omega arith in
    let all_there : ltb (length (pdu ++ rest)) (field header 4 - 1) ≡ false =
      ground (arith, size, length-append pdu rest) in
    let some_there : ltb (field header 4) 1 ≡ false = ground (arith, size) in
    let enough : ltb (length (header ++ (pdu ++ rest))) 7 ≡ false = ground arith in
    let front : take (field header 4 - 1) (pdu ++ rest) ≡ pdu =
      take-append_left _ pdu rest (omega (arith, size)) in
    let back : drop (field header 4 - 1) (pdu ++ rest) ≡ rest =
      drop-append_left _ pdu rest (omega (arith, size)) in
    rw (enough, some_there, all_there, front, back, id)

-- A stream that starts with the frame of a request that `to_adu` wrote yields that request, as it
-- arrives, with its transaction id, and the rest of the stream. A raw request must not carry the
-- function code of a registered class.
pub read_request-to_adu :
    (transaction : ℕ) (r : Request) (rest : Bytes) {adu : Bytes}
    → IsUnregistered r.body
    → (to_adu r).0 ≡ ok adu
    → transaction < 2 ^ 16
    → length adu < 2 ^ 16
    → read_request (request_bytes transaction adu ++ rest)
      ≡ arrives transaction (arrived r adu none) rest
read_request-to_adu transaction r rest {adu} u h ht hl =
    let (payload, made, shape, hu, hc) = to_adu-eq-ok r h in
    let P = λ (x : Bytes).
      read_request (request_bytes transaction x ++ rest)
      ≡ decoded transaction rest (request_from_adu x none) in
    let read : P adu = subst P (sym shape) (
      read_frame transaction r.unit_id (request_code r.body ∷ payload) rest ht
        (subst (λ x. length x < 2 ^ 16) shape hl)) in
    read ∙ (unfold decoded in rw (request_from_adu-to_adu r none u h))
