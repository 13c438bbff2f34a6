-- ===== src/Client/Codecs/Mbap.antt =====
-- Modbus/TCP frames of the client: a round trip.
use modbusgw.Base.{
  ℕ, ◌+◌, ◌^◌, ◌<◌, ◌≤◌, [], ◌∷◌, ◌++◌, be16, length, take, drop, get_or, Bytes, ok, ◌≡◌, arith,
}
use modbusgw.Client.Codecs.{build_mbap_frame, parse_mbap_frame}

-- The frame of a data unit `u ∷ pdu`.
abbrev pub mbap_frame : ℕ → ℕ → Bytes → Bytes
mbap_frame id u pdu = be16 id ++ (0 ∷ 0 ∷ be16 (length pdu + 1)) ++ (u ∷ pdu)

-- A transaction id of 16 bits and a data unit of bytes, two at least and fewer than 2 ^ 16, make a
-- frame six bytes longer than the unit; its first seven bytes and the rest parse to the two.
pub parse_mbap_frame-build_mbap_frame :
    (id : ℕ) (adu : Bytes)
    → id < 2 ^ 16
    → 2 ≤ length adu
    → length adu < 2 ^ 16
    → get_or adu 0 0 < 256
    → (frame : Bytes) × (build_mbap_frame id adu ≡ ok frame)
      × (length frame ≡ length adu + 6)
      × (parse_mbap_frame (take 7 frame) (drop 7 frame) ≡ ok (id, adu))
unfolding build_mbap_frame parse_mbap_frame
parse_mbap_frame-build_mbap_frame id [] hi lo hl hu = absurd (omega arith)
parse_mbap_frame-build_mbap_frame id (u ∷ []) hi lo hl hu = absurd (omega arith)
parse_mbap_frame-build_mbap_frame id (u ∷ f ∷ rest) hi lo hl hu =
    (mbap_frame id u (f ∷ rest), ground arith, omega arith, ground arith)
