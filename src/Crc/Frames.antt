-- ===== src/Crc/Frames.antt =====
-- Frames that end in their checksum, as every RTU link of the gateway and the client checks them.
use modbusgw.Base.{
  ℕ, ◌-◌, ◌≤◌, ◌≡◌, ◌≢◌, sym, ap, ◌∙◌, arith, [], ◌∷◌, ◌++◌, Bytes, IsByte, All, All-drop, All-take,
  All-append_inv, le16, from_bytes_little, but_last_two, last_two, length, length-drop,
  length-append, take, drop, take-append-drop, take-append_left, drop-append_left,
}
use modbusgw.Crc.{crc16_modbus}
use modbusgw.Crc.Laws.{crc16_modbus_residue, crc16_modbus_detects}

-- The frame is bytes, and its last two bytes are the checksum of the rest.
pub record IsFramed (frame : Bytes) : Type 0 where
  pub bytes : All IsByte frame
  pub checked : from_bytes_little (last_two frame) ≡ crc16_modbus (but_last_two frame)

pub but_last_two-append : (xs : Bytes) (v : ℕ) → but_last_two (xs ++ le16 v) ≡ xs
but_last_two-append xs v =
    take-append_left (length (xs ++ le16 v) - 2) xs (le16 v)
      (omega (arith, length-append xs (le16 v)))

pub last_two-append : (xs : Bytes) (v : ℕ) → last_two (xs ++ le16 v) ≡ le16 v
last_two-append xs v =
    drop-append_left (length (xs ++ le16 v) - 2) xs (le16 v)
      (omega (arith, length-append xs (le16 v)))

le16-from_bytes_little :
    (xs : Bytes) → All IsByte xs → length xs ≡ 2 → le16 (from_bytes_little xs) ≡ xs
le16-from_bytes_little [] h e = absurd (omega arith)
le16-from_bytes_little (a ∷ []) h e = absurd (omega arith)
le16-from_bytes_little (a ∷ b ∷ []) h e = ground arith
le16-from_bytes_little (a ∷ b ∷ c ∷ xs) h e = absurd (omega arith)

-- The checksum of a frame with its trailer is 0.
IsFramed-residue : (frame : Bytes) → 2 ≤ length frame → IsFramed frame → crc16_modbus frame ≡ 0
IsFramed-residue frame h f =
    let n = length frame - 2 in
    let trailer : le16 (crc16_modbus (take n frame)) ≡ drop n frame =
      ap le16 (sym f.checked)
      ∙ le16-from_bytes_little (drop n frame) (All-drop IsByte n frame f.bytes)
          (omega (arith, length-drop n frame)) in
    ap crc16_modbus (sym (take-append-drop n frame))
    ∙ ap (λ t. crc16_modbus (take n frame ++ t)) (sym trailer)
    ∙ crc16_modbus_residue (take n frame) (All-take IsByte n frame f.bytes)

-- Two frames that end in their checksum do not differ in exactly one byte, wherever it stands.
pub IsFramed-differ :
    (front back : Bytes) (a b : ℕ)
    → 2 ≤ length (front ++ (a ∷ back))
    → a ≢ b
    → IsFramed (front ++ (a ∷ back))
    → IsFramed (front ++ (b ∷ back))
    → ⊥
IsFramed-differ front back a b h ne f g =
    let (hf, (ha, hb)) = All-append_inv IsByte front (a ∷ back) f.bytes in
    let (_, (hc, _)) = All-append_inv IsByte front (b ∷ back) g.bytes in
    crc16_modbus_detects front back a b hf hb ha hc ne (
      IsFramed-residue _ h f
      ∙ sym (
          IsFramed-residue _
            (omega (arith, length-append front (a ∷ back), length-append front (b ∷ back))) g))
