-- ===== src/Frontends/Rtu/Laws.antt =====
-- Good frames become requests on the bus, damaged ones leave no trace.
use modbusgw.Base.{
  ℕ, ◌≤◌, ◌<◌, [], ◌∷◌, ◌++◌, some, length, Bytes, IsByte, All-append, All-append_inv,
  from_bytes_little, but_last_two, last_two, ok, ◌≡◌, ◌≢◌, ap, ◌∙◌, arith,
}
use modbusgw.Crc.{crc16_modbus}
use modbusgw.Crc.Frames.{IsFramed, IsFramed-differ}
use modbusgw.Messages.Requests.{request_methods}
use modbusgw.Bus.{GatewayBus}
use modbusgw.Dispatcher.{Message}
use modbusgw.Frontends.Rtu.{RtuFrontend, Listening, finalize_bytes, finalize_frame}

finalize_bytes-rejects :
    (frame : Bytes) (s : Listening)
    → from_bytes_little (last_two frame) ≢ crc16_modbus (but_last_two frame)
    → finalize_bytes frame s ≡ (some (ok tt), s)
unfolding finalize_bytes
finalize_bytes-rejects frame s n = ground arith

-- If the buffer differs in exactly one byte from a frame of bytes, four or more, that ends in its
-- checksum, `_finalize_frame` drops it: it publishes and raises nothing, and empties the buffer.
pub finalize_frame-damaged :
    (f : RtuFrontend) (bus : GatewayBus Message) (front back : Bytes) (a b : ℕ)
    → 4 ≤ length (front ++ (a ∷ back))
    → IsFramed (front ++ (a ∷ back))
    → b < 256
    → a ≢ b
    → f.buffer ≡ front ++ (b ∷ back)
    → finalize_frame (f, bus) ≡ (some (ok tt), (record f { buffer = [] }, bus))
unfolding finalize_frame
finalize_frame-damaged f bus front back a b long good hb ne e =
    let s : Listening = (record f { buffer = [] }, bus) in
    let (hf, (ha, hk)) = All-append_inv IsByte front (a ∷ back) good.bytes in
    let enough : 2 ≤ length (front ++ (a ∷ back)) = omega (arith, long) in
    ap (λ x. finalize_bytes x s) e
    ∙ finalize_bytes-rejects (front ++ (b ∷ back)) s (λ checked.
      IsFramed-differ front back a b enough ne good
        (record { bytes = All-append IsByte front (b ∷ back) hf (hb, hk); checked = checked }))
