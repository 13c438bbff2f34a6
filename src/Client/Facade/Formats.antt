-- ===== src/Client/Facade/Formats.antt =====
-- Values in registers by a format of `struct`, there and back.
use modbusgw.Base.{
  ==_iff, ◌/◌, ◌%◌, false, List, [], ◌∷◌, none, some, All, IsByte, length, Bytes, String, ok, ◌≡◌,
  refl, ap, ◌∙◌, arith,
}
use modbusgw.Messages.Requests.{pack_values}
use modbusgw.Messages.Requests.RoundTrip.{words, pack_values-words}
use modbusgw.Client.Facade.{
  Objects, unpacked, pairs, pack_struct, packed, packed_items, retried, encode_register_payload,
  decode_registers,
}

-- Two bytes to a register.
pub length-pairs : (raw : Bytes) → length raw % 2 ≡ 0 → length (pairs raw) ≡ length raw / 2
unfolding pairs
length-pairs [] h = refl
length-pairs (x ∷ []) h = absurd (omega arith)
length-pairs (hi ∷ lo ∷ rest) h = omega (arith, length-pairs rest (omega arith))

words-pairs : (raw : Bytes) → All IsByte raw → length raw % 2 ≡ 0 → words (pairs raw) ≡ raw
unfolding pairs
words-pairs [] b h = refl
words-pairs (x ∷ []) b h = absurd (omega arith)
words-pairs (hi ∷ lo ∷ rest) b h = ground (arith, words-pairs rest b.1.1 (omega arith))

module _ {V : Type 0} (py : Objects V) (fmt : String) where
  -- `struct` gives back what it packed by this format.
  abbrev pub Restores : Type 0
  Restores =
      (items : List V) (raw : Bytes)
      → py.pack fmt items ≡ ok raw
      → All IsByte raw × (py.calcsize fmt ≡ ok (length raw)) × (py.unpack fmt raw ≡ ok items)

  -- A list or tuple that the format packs into these bytes, a whole number of registers.
  pub record IsPacked (value : V) (items : List V) (raw : Bytes) : Type 0 where
    pub no_bytes : py.as_bytes value ≡ none
    pub no_text : py.is_text value ≡ false
    pub sequence : py.as_sequence value ≡ some items
    pub packs : py.pack fmt items ≡ ok raw
    pub even : length raw % 2 ≡ 0

  pub encode_register_payload-eq-ok :
      {value : V} {items : List V} {raw : Bytes}
      → IsPacked value items raw
      → encode_register_payload py fmt value ≡ ok (pairs raw)
  unfolding encode_register_payload pack_struct packed packed_items retried
  encode_register_payload-eq-ok p =
      rw (p.no_bytes, p.no_text, p.sequence, p.packs, (==_iff _ _).1 p.even) refl

  pub decode_registers-pairs :
      {items : List V} {raw : Bytes}
      → Restores
      → py.pack fmt items ≡ ok raw
      → length raw % 2 ≡ 0
      → decode_registers py (pairs raw) (some fmt) ≡ ok (unpacked items)
  unfolding decode_registers
  decode_registers-pairs {items} {raw} r p even =
      let (bytes, size, unpacks) = r items raw p in
      let joined : pack_values [] (pairs raw) ≡ ok raw =
        pack_values-words [] (pairs raw) ∙ ap ok (words-pairs raw bytes even) in
      rw (joined, size, (==_iff (length raw) (length raw)).1 refl, unpacks) refl
