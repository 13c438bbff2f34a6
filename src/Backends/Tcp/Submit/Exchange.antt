-- ===== src/Backends/Tcp/Submit/Exchange.antt =====
-- A device that answers in the protocol: its response reaches the dispatcher.
use modbusgw.Base.{
  ℕ, ◌-◌, ◌^◌, ◌≤◌, ◌<◌, true, false, ◌∷◌, ◌++◌, none, some, ◌==◌, ltb, length, take, drop,
  take-append-drop, be16, Bytes, ok, ◌≡◌, ap, refl, arith,
}
use modbusgw.Base.Exec.{◌>>=◌}
use modbusgw.Messages.Pdu.{to_adu}
use modbusgw.Messages.Requests.{request_methods}
use modbusgw.Messages.Responses.{Response, response_methods}
use modbusgw.Messages.Responses.RoundTrip.{IsUnregistered}
use modbusgw.Messages.Responses.Framing.{
  arrived, response_from_adu-to_adu, Sorts, received-IsException, received-no_exception,
}
use modbusgw.Messages.Routing.{RoutedRequest, RoutedResponse}
use modbusgw.Backends.Tcp.{
  TcpBackend, Network, next_transaction_id, build_mbap, request_frame, field, routed_reply,
}
use modbusgw.Backends.Tcp.Submit.Laws.{next_transaction_id_fresh}
use modbusgw.Messages.Pdu.Framing.{to_adu-eq-ok}
use modbusgw.Backends.Tcp.Submit.{take_transaction_id, write, readexactly, replies, exchange}

-- A Modbus/TCP header with protocol 0.
abbrev pub mbap_header : ℕ → ℕ → Bytes
mbap_header id size = be16 id ++ (0 ∷ 0 ∷ be16 size)

request_frame-eq-ok :
    (id : ℕ) (adu : Bytes)
    → id < 2 ^ 16
    → length adu < 2 ^ 16
    → request_frame id adu ≡ ok (mbap_header id (length adu) ++ adu)
unfolding request_frame build_mbap
request_frame-eq-ok id adu hi ha = ground arith

field_id : (id size : ℕ) → field (mbap_header id size) 0 ≡ id
field_id id size = omega arith

field_size : (id size : ℕ) → field (mbap_header id size) 4 ≡ size
field_size id size = omega arith

module _ {W : Type 0} (net : Network W) where
  exchange-replies :
      (c : ℕ) (r : RoutedRequest) (t : TcpBackend) (w w1 w2 w3 w4 : W) (answer : Response)
      {adu sent : Bytes}
      → let id = (next_transaction_id t).0 in
        (to_adu r.pdu).0 ≡ ok adu
        → length adu < 2 ^ 16
        → net.write c (mbap_header id (length adu) ++ adu) w ≡ (some (ok tt), w1)
        → IsUnregistered answer.body
        → (to_adu answer).0 ≡ ok sent
        → net.readexactly c 6 w1 ≡ (ok (mbap_header id (length sent)), w2)
        → net.readexactly c 1 w2 ≡ (ok (take 1 sent), w3)
        → net.readexactly c (length sent - 1) w3 ≡ (ok (drop 1 sent), w4)
        → exchange net c r (t, w) ≡ (
          some (ok (routed_reply t.name r (to_adu r.pdu).1 (arrived answer sent none))),
          ((next_transaction_id t).1, w4),
        )
  unfolding ◌>>=◌ exchange take_transaction_id write readexactly replies routed_reply
      next_transaction_id
  exchange-replies c r t w w1 w2 w3 w4 answer {adu} {sent} ha la hw u hs h6 h1 hr =
      let id = (next_transaction_id t).0 in
      let hid : id < 2 ^ 16 = (next_transaction_id_fresh t).1 in
      let (payload, made, shape, hu, hc) = to_adu-eq-ok answer hs in
      let ls : 1 ≤ length sent = omega (arith, ap (length {A = ℕ}) shape) in
      let same_id : (field (mbap_header id (length sent)) 0 == id) ≡ true =
        ground (arith, field_id id (length sent)) in
      let long : ltb (field (mbap_header id (length sent)) 4) 1 ≡ false =
        ground (arith, field_size id (length sent)) in
      let size = field_size id (length sent) in
      let whole = take-append-drop 1 sent in
      rw (
        ha,
        request_frame-eq-ok id adu hid la,
        hw,
        h6,
        same_id,
        long,
        h1,
        size,
        hr,
        whole,
        response_from_adu-to_adu answer none u hs,
      )

  -- If the frame of the request is written as it is, and the device then sends a header with the same
  -- transaction id and the frame of a response, the reply carries that response as it arrives, as its
  -- exception if it is one and as its response otherwise, no error, the request as it was sent, and
  -- the frontend and id of the request. A raw response must not carry
  -- the function code of a registered class, or one with the top bit.
  pub exchange-to_adu :
      (c : ℕ) (r : RoutedRequest) (t : TcpBackend) (w w1 w2 w3 w4 : W) (answer : Response)
      {adu sent : Bytes}
      → let id = (next_transaction_id t).0 in
        (to_adu r.pdu).0 ≡ ok adu
        → length adu < 2 ^ 16
        → net.write c (mbap_header id (length adu) ++ adu) w ≡ (some (ok tt), w1)
        → IsUnregistered answer.body
        → (to_adu answer).0 ≡ ok sent
        → net.readexactly c 6 w1 ≡ (ok (mbap_header id (length sent)), w2)
        → net.readexactly c 1 w2 ≡ (ok (take 1 sent), w3)
        → net.readexactly c (length sent - 1) w3 ≡ (ok (drop 1 sent), w4)
        → (reply : RoutedResponse) × (exchange net c r (t, w)
            ≡ (some (ok reply), ((next_transaction_id t).1, w4)))
          × Sorts answer.body (arrived answer sent none) reply.response reply.exception
          × (reply.error ≡ none)
          × (reply.request ≡ some (to_adu r.pdu).1)
          × (reply.context ≡ record {
            frontend = r.context.frontend;
            backend = t.name;
            request_id = r.context.request_id;
          })
  unfolding routed_reply
  exchange-to_adu c r t w w1 w2 w3 w4 answer {adu} {sent} ha la hw u hs h6 h1 hr = (
    routed_reply t.name r (to_adu r.pdu).1 (arrived answer sent none),
    exchange-replies c r t w w1 w2 w3 w4 answer ha la hw u hs h6 h1 hr,
    (
      λ e. rw (received-IsException answer.body e) (refl, refl),
      λ n. rw (received-no_exception answer.body n) (refl, refl),
    ),
    refl,
    refl,
    refl,
  )
