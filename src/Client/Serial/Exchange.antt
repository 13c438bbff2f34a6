-- ===== src/Client/Serial/Exchange.antt =====
-- A whole exchange with a device that answers.
use modbusgw.Base.{
  ℕ, zero, suc, ◌+◌, ◌≤◌, ◌<◌, ltb, true, false, [], ◌∷◌, ◌++◌, none, some, if_of_true, if_of_false,
  length, length-append, Bytes, ok, from_bytes_little, from_bytes_little-le16, le16, ◌≡◌, refl, ap,
  ◌∙◌, arith,
}
use mathlib.Core.List.{append_assoc}
use modbusgw.Base.Exec.{Exec, ◌>>=◌}
use modbusgw.Base.Exec.Runs.{bind_ok}
use modbusgw.Crc.Frames.{but_last_two-append, last_two-append}
use modbusgw.Messages.Pdu.{to_adu}
use modbusgw.Messages.Pdu.Framing.{to_adu-eq-ok}
use modbusgw.Messages.Requests.{Request, request_methods}
use modbusgw.Messages.Responses.{Response, response_methods, response_from_adu}
use modbusgw.Messages.Responses.RoundTrip.{IsUnregistered}
use modbusgw.Messages.Responses.Framing.{arrived, response_from_adu-to_adu}
use modbusgw.Client.Codecs.{client_crc, build_rtu_frame, strip_rtu_frame}
use modbusgw.Client.Codecs.Rtu.{build_rtu_frame-eq-ok}
use modbusgw.Client.Serial.{
  SerialClient, Port, has_valid_crc, on_port, send, sent, received, read_loop, read_frame,
  run_request, execute,
}
use modbusgw.Client.Serial.Laws.{passes, passes-strip}

passes-framed : (adu : Bytes) → 2 ≤ length adu → passes (adu ++ le16 (client_crc adu)) ≡ true
unfolding has_valid_crc
passes-framed adu h =
    let frame = adu ++ le16 (client_crc adu) in
    ground (
      arith,
      length-append adu (le16 (client_crc adu)),
      ap from_bytes_little (last_two-append adu (client_crc adu)),
      from_bytes_little-le16 (client_crc adu),
      ap client_crc (but_last_two-append adu (client_crc adu)),
    )

module _ {W : Type 0} (port : Port W) where
  -- The port gives these bytes, one at each read.
  abbrev pub Delivers : Bytes → W → W → Type 0
  Delivers [] w w' = w ≡ w'
  Delivers (b ∷ bs) w w' = (w1 : W) × (port.read 1 w ≡ (ok (b ∷ []), w1)) × Delivers bs w1 w'

  -- No part of the bytes is taken for a frame before the last of them is in.
  abbrev pub NoneBefore : Bytes → Bytes → Type 0
  NoneBefore buffer [] = Unit {0}
  NoneBefore buffer (b ∷ []) = Unit {0}
  NoneBefore buffer (b ∷ c ∷ bs) =
      (passes (buffer ++ (b ∷ [])) ≡ false) × NoneBefore (buffer ++ (b ∷ [])) (c ∷ bs)

  -- Two bytes or more are left.
  received_more :
      (later : Bytes → Exec (SerialClient × W) Bytes) (buffer : Bytes) (b : ℕ)
      (s : SerialClient × W)
      → length buffer < 256
      → passes (buffer ++ (b ∷ [])) ≡ false
      → received port later buffer (b ∷ []) s ≡ later (buffer ++ (b ∷ [])) s
  unfolding received
  received_more later buffer b s h n =
      let short : ltb 256 (length (buffer ++ (b ∷ []))) ≡ false =
        ground (arith, length-append buffer (b ∷ [])) in
      ap (λ (m : Exec (SerialClient × W) Bytes). m s) (if_of_false _ _ n ∙ if_of_false _ _ short)

  received_last :
      (later : Bytes → Exec (SerialClient × W) Bytes) (buffer : Bytes) (b : ℕ)
      (s : SerialClient × W)
      → passes (buffer ++ (b ∷ [])) ≡ true
      → received port later buffer (b ∷ []) s ≡ (some (ok (buffer ++ (b ∷ []))), s)
  unfolding received
  received_last later buffer b s y =
      ap (λ (m : Exec (SerialClient × W) Bytes). m s) (if_of_true _ _ y)

  read_byte :
      (c : SerialClient) (b : ℕ) {w w1 : W}
      → port.read 1 w ≡ (ok (b ∷ []), w1)
      → on_port port (port.read 1) (c, w) ≡ (some (ok (b ∷ [])), (c, w1))
  read_byte c b e = rw e refl

  read_loop-Delivers :
      (n : ℕ) (buffer bs : Bytes) (b : ℕ) (c : SerialClient) (w w' : W)
      → Delivers (b ∷ bs) w w'
      → length bs < n
      → length buffer + length bs < 256
      → NoneBefore buffer (b ∷ bs)
      → passes (buffer ++ (b ∷ bs)) ≡ true
      → read_loop port n buffer (c, w) ≡ (some (ok (buffer ++ (b ∷ bs))), (c, w'))
  unfolding read_loop
  read_loop-Delivers zero buffer bs b c w w' d h k none_before y = absurd (omega arith)
  read_loop-Delivers (suc n) buffer [] b c w w' (w1, e, same) h k none_before y =
      bind_ok (on_port port (port.read 1))
        (received port (λ longer. read_loop port n longer) buffer) (read_byte c b e)
      ∙ (received_last _ buffer b (c, w1) y
          ∙ ap (λ t. (some (ok (buffer ++ (b ∷ []))), (c, t))) same)
  read_loop-Delivers (suc n) buffer (b' ∷ bs) b c w w' (w1, e, d) h k none_before y =
      let longer = buffer ++ (b ∷ []) in
      let moved : longer ++ (b' ∷ bs) ≡ buffer ++ (b ∷ b' ∷ bs) =
        append_assoc buffer (b ∷ []) (b' ∷ bs) in
      bind_ok (on_port port (port.read 1)) (received port (λ x. read_loop port n x) buffer)
        (read_byte c b e)
      ∙ (received_more (λ x. read_loop port n x) buffer b (c, w1) (omega arith) none_before.0
          ∙ (read_loop-Delivers n longer bs b' c w1 w' d (omega arith)
                (omega (arith, length-append buffer (b ∷ []))) none_before.1 (ap passes moved ∙ y)
              ∙ ap (λ t. (some (ok t), (c, w'))) moved))

  read_frame-Delivers :
      (adu : Bytes) (c : SerialClient) (w w' : W)
      → let frame = adu ++ le16 (client_crc adu) in
        2 ≤ length adu
        → length adu ≤ 254
        → Delivers frame w w'
        → length frame ≤ port.rounds w
        → NoneBefore [] frame
        → read_frame port (c, w) ≡ (some (ok frame), (c, w'))
  unfolding read_frame
  read_frame-Delivers [] c w w' g h d k none_before = absurd (omega arith)
  read_frame-Delivers (u ∷ rest) c w w' g h d k none_before =
      let crc = le16 (client_crc (u ∷ rest)) in
      read_loop-Delivers (port.rounds w) [] (rest ++ crc) u c w w' d (omega arith)
        (omega (arith, length-append rest crc)) none_before (passes-framed (u ∷ rest) g)

  run_request_lem :
      (c : SerialClient) (r : Request) (reply : Response) (w w1 w2 : W)
      {adu frame back answer : Bytes}
      → (to_adu r).0 ≡ ok adu
      → build_rtu_frame adu ≡ ok frame
      → send port frame (c, w) ≡ (some (ok tt), (c, w1))
      → read_frame port (c, w1) ≡ (some (ok back), (c, w2))
      → strip_rtu_frame back ≡ ok answer
      → response_from_adu answer none ≡ ok reply
      → run_request port r (c, w) ≡ (some (ok reply), (c, w2))
  unfolding run_request ◌>>=◌ sent
  run_request_lem c r reply w w1 w2 ha hb hs hr hd he = rw (ha, hb, hs, hr, hd, he) refl

  -- If `to_adu` writes the request, its frame is sent over an open port without an error, and the
  -- device answers before the clock runs out with the frame of a response that `to_adu` writes in at
  -- most 254 bytes, whose bytes arrive one at a time and of which no shorter part passes for a frame,
  -- then `execute` gives that response as it arrives: of the same class and unit and with the same
  -- fields, where a register value is cut to 16 bits and the function code of an exception to 7 bits,
  -- and with the frame and its payload attached; and the client keeps its port. A raw response must
  -- not carry the function code of a registered class, or one with the top bit.
  pub execute-arrived :
      (c : SerialClient) (r : Request) (answer : Response) (w w1 w2 : W) {adu reply : Bytes}
      → c.has_port ≡ true
      → (to_adu r).0 ≡ ok adu
      → send port (adu ++ le16 (client_crc adu)) (c, w) ≡ (some (ok tt), (c, w1))
      → IsUnregistered answer.body
      → (to_adu answer).0 ≡ ok reply
      → length reply ≤ 254
      → Delivers (reply ++ le16 (client_crc reply)) w1 w2
      → length (reply ++ le16 (client_crc reply)) ≤ port.rounds w1
      → NoneBefore [] (reply ++ le16 (client_crc reply))
      → execute port r (c, w) ≡ (some (ok (arrived answer reply none)), (c, w2))
  unfolding execute
  execute-arrived c r answer w w1 w2 {adu} {reply} hc ha hs hu he h d k none_before =
      let (payload, e, shape, hb, hf) = to_adu-eq-ok answer he in
      let long : 2 ≤ length reply = ground (arith, shape) in
      let back = reply ++ le16 (client_crc reply) in
      let stripped : strip_rtu_frame back ≡ ok reply =
        (passes-strip back (passes-framed reply long)).1
        ∙ ap ok (but_last_two-append reply (client_crc reply)) in
      if_of_true _ _ hc
      ∙ run_request_lem c r (arrived answer reply none) w w1 w2 ha (build_rtu_frame-eq-ok adu) hs
          (read_frame-Delivers reply c w1 w2 long h d k none_before) stripped
          (response_from_adu-to_adu answer none hu he)
