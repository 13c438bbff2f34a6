-- ===== src/Backends/Serial/Reading.antt =====
-- What is read from the line is a frame that ends in its checksum.
use modbusgw.Base.{
  refl, Option, subst, value_error, ◌≤◌, true, false, ◌&&◌, [], ◌∷◌, ◌++◌, none, ◌==◌, ltb, leb,
  length, length-append, Bytes, ok, raise, from_bytes_little, from_bytes_little-le16, le16,
  but_last_two, last_two, ◌≡◌, ap, sym, ◌∙◌, arith, Bool-cases, inl, inr,
}
use mathlib.Core.List.{append_assoc}
use modbusgw.Crc.{crc16_modbus}
use modbusgw.Crc.Frames.{but_last_two-append, last_two-append}
use modbusgw.Messages.Pdu.{to_adu}
use modbusgw.Messages.Pdu.Framing.{to_adu-eq-ok}
use modbusgw.Messages.Responses.{Response, response_methods}
use modbusgw.Messages.Responses.RoundTrip.{IsUnregistered}
use modbusgw.Messages.Responses.Framing.{
  arrived, response_from_adu-to_adu, Sorts, received-IsException, received-no_exception,
}
use modbusgw.Backends.Serial.{has_valid_crc, read_loop, read_response, sorted, decode_frame}

-- Four to 256 bytes, the last two of them the checksum of the others.
pub record IsFrame (frame : Bytes) : Type 0 where
  pub least : 4 ≤ length frame
  pub most : length frame ≤ 256
  pub checksum : from_bytes_little (last_two frame) ≡ crc16_modbus (but_last_two frame)

has_valid_crc_lem :
    (frame : Bytes)
    → has_valid_crc frame ≡ true
    → from_bytes_little (last_two frame) ≡ crc16_modbus (but_last_two frame)
unfolding has_valid_crc
has_valid_crc_lem frame h = ground arith

accepted-IsFrame :
    (longer : Bytes)
    → ltb 256 (length longer) ≡ false
    → (leb 4 (length longer) && has_valid_crc longer) ≡ true
    → IsFrame longer
accepted-IsFrame longer n y = record {
  least = ground arith;
  most = ground arith;
  checksum = has_valid_crc_lem longer (ground arith);
}

read_loop-IsFrame :
    (buffer line : Bytes) {frame : Bytes}
    → (read_loop buffer line).0 ≡ ok frame
    → IsFrame frame × (buffer ++ line ≡ frame ++ (read_loop buffer line).1)
unfolding read_loop
read_loop-IsFrame buffer [] h = absurd (cc)
read_loop-IsFrame buffer (chunk ∷ line) {frame} h =
    let longer = buffer ++ (chunk ∷ []) in
    let moved : longer ++ line ≡ buffer ++ (chunk ∷ line) = append_assoc buffer (chunk ∷ []) line in
    elim (Bool-cases (ltb 256 (length longer))) [
      | inl y ↦
          let bad : raise (value_error "Serial response exceeded maximum frame length") ≡ ok frame =
            rw y at h in
          absurd (cc bad)
      | inr n ↦ elim (Bool-cases (leb 4 (length longer) && has_valid_crc longer)) [
        | inl y ↦
            let done : ok longer ≡ ok frame = rw (n, y) at h in
            let same : longer ≡ frame = cc done in
            (
              subst IsFrame same (accepted-IsFrame longer n y),
              rw (n, y) (sym moved ∙ ap (λ t. t ++ line) same),
            )
        | inr m ↦
            let (f, e) = read_loop-IsFrame longer line (rw (n, m) at h) in
            (f, rw (n, m) (sym moved ∙ e))
      ]
    ]

-- If `_read_response` returns, then with four to 256 bytes that end in their checksum, and they are
-- the first that the line brought; nothing of what follows them is taken.
pub read_response-IsFrame :
    (line : Bytes) {frame : Bytes}
    → (read_response line).0 ≡ ok frame
    → IsFrame frame × (line ≡ frame ++ (read_response line).1)
unfolding read_response
read_response-IsFrame line h = read_loop-IsFrame [] line h

decode_frame-sorted :
    (answer : Response) {adu : Bytes}
    → IsUnregistered answer.body
    → (to_adu answer).0 ≡ ok adu
    → decode_frame (adu ++ le16 (crc16_modbus adu)) ≡ ok (sorted (arrived answer adu none))
unfolding decode_frame
decode_frame-sorted answer {adu} u h =
    let (payload, made, shape, hu, hc) = to_adu-eq-ok answer h in
    let trailed = but_last_two-append adu (crc16_modbus adu) in
    let trailer = last_two-append adu (crc16_modbus adu) in
    let long : ltb (length (adu ++ le16 (crc16_modbus adu))) 4 ≡ false =
      ground (arith, length-append adu (le16 (crc16_modbus adu)), ap length shape) in
    let good : (from_bytes_little (last_two (adu ++ le16 (crc16_modbus adu)))
          == crc16_modbus (but_last_two (adu ++ le16 (crc16_modbus adu))))
        ≡ true =
      ground (
        arith,
        ap from_bytes_little trailer,
        from_bytes_little-le16 (crc16_modbus adu),
        ap crc16_modbus trailed,
      ) in
    rw (long, good, trailed, response_from_adu-to_adu answer none u h)

-- The frame of a response that `to_adu` writes, with its checksum, decodes to that response as it
-- arrives, as the exception if it is one and as the response otherwise. A raw response must not carry
-- the function code of a registered class, or one with the top bit.
pub decode_frame-to_adu :
    (answer : Response) {adu : Bytes}
    → IsUnregistered answer.body
    → (to_adu answer).0 ≡ ok adu
    → (sides : Option Response × Option Response) × (decode_frame (adu ++ le16 (crc16_modbus adu))
        ≡ ok sides)
      × Sorts answer.body (arrived answer adu none) sides.0 sides.1
decode_frame-to_adu answer {adu} u h =
    let came = arrived answer adu none in
    (
      sorted came,
      decode_frame-sorted answer u h,
      (
        λ e. rw (received-IsException answer.body e) (refl, refl),
        λ n. rw (received-no_exception answer.body n) (refl, refl),
      ),
    )
