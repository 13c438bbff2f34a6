-- ===== src/Messages/Requests/RoundTrip.antt =====
-- What `to_adu` of a request writes, `from_adu` reads back.
use modbusgw.Base.{
  true, false, >>=-eq-ok, >>=-eq-ok, lt→ltb, ℕ, ◌+◌, ◌*◌, ◌/◌, ◌%◌, ◌^◌, ◌<◌, Bool, List, [], ◌∷◌,
  ◌++◌, map, if◌then◌else◌, length, Bytes, be16, bit_and, ok, Exn, pack_hh, take_all, pack_hh-eq-ok,
  arith, ◌≡◌, refl, sym, ap, ◌∙◌,
}
use mathlib.Core.List.{append-nil, append_assoc}
use modbusgw.Base.Bits.{bit_and_mask}
use modbusgw.Messages.Coils.{pack_coils, unpack_coils}
use modbusgw.Messages.Coils.RoundTrip.{unpack_coils-pack_coils}
use modbusgw.Messages.Requests.{
  decode_pair, decode_coils, decode_registers, pack_values, unpack_values, encode_request,
  RequestBody, read_coils_request, read_discrete_inputs_request, read_holding_registers_request,
  read_input_registers_request, write_single_coil_request, write_single_register_request,
  write_multiple_coils_request, write_multiple_registers_request, raw_request, flag, word,
  request_class, pack_hhb, request_code, request_from_payload, RequestClass,
}

pub decode_pair-pack_hh :
    {B : Type 0} (e : Exn) (make : ℕ → ℕ → B) (a b : ℕ) {p : Bytes}
    → pack_hh a b ≡ ok p
    → decode_pair e make p ≡ ok (make a b, p)
unfolding decode_pair
decode_pair-pack_hh e make a b h = let (ha, hb, q) = pack_hh-eq-ok a b h in rw q (ground arith)

-- Registers as bytes, each cut to 16 bits.
abbrev pub words : List ℕ → Bytes
words [] = []
words (v ∷ vs) = be16 (v % 2 ^ 16) ++ words vs

pub length-words : (vs : List ℕ) → length (words vs) ≡ length vs * 2
length-words [] = omega arith
length-words (v ∷ vs) = omega (arith, length-words vs)

pub pack_values-words :
    (payload : Bytes) (vs : List ℕ) → pack_values payload vs ≡ ok (payload ++ words vs)
unfolding pack_values
pack_values-words payload [] = ap ok (sym (append-nil payload))
pack_values-words payload (v ∷ vs) =
    let masked : bit_and v 0xFFFF ≡ v % 2 ^ 16 = bit_and_mask 16 v in
    rw (masked, lt→ltb (v % 2 ^ 16) (2 ^ 16) (omega arith))
      (pack_values-words (payload ++ be16 (v % 2 ^ 16)) vs
        ∙ ap ok (append_assoc payload (be16 (v % 2 ^ 16)) (words vs)))

pub unpack_values-words :
    (vs : List ℕ) → unpack_values (length vs) (words vs) ≡ ok (map (λ v. v % 2 ^ 16) vs)
unfolding unpack_values
unpack_values-words [] = refl
unpack_values-words (v ∷ vs) = rw (unpack_values-words vs) (ground arith)

-- What the receiver of a request reads: 16-bit values, and a coil value as the word that was sent.
abbrev pub received : RequestBody → RequestBody
received (write_single_coil_request a (flag b)) =
    write_single_coil_request a (word (if b then 0xFF00 else 0))
received (write_single_coil_request a (word v)) = write_single_coil_request a (word (v % 2 ^ 16))
received (write_single_register_request a v) = write_single_register_request a (v % 2 ^ 16)
received (write_multiple_registers_request a vs) =
    write_multiple_registers_request a (map (λ v. v % 2 ^ 16) vs)
received body = body

-- A raw request that carries the code of no class.
abbrev pub IsUnregistered : RequestBody → Type 0
IsUnregistered (raw_request _ fc) = request_class fc ≡ RequestClass.raw
IsUnregistered _ = Unit {0}

-- The layout that the two classes with many values share.
module _ (a_hi a_lo n_hi n_lo byte_count : ℕ) (rest : Bytes) (fits : byte_count ≡ length rest) where
  abbrev counted : Bytes
  counted = a_hi ∷ a_lo ∷ n_hi ∷ n_lo ∷ byte_count ∷ rest

  decode_coils-counted_payload :
      decode_coils counted
      ≡ ok (
        write_multiple_coils_request (a_hi * 256 + a_lo) (unpack_coils rest (n_hi * 256 + n_lo)),
        counted,
      )
  unfolding decode_coils
  decode_coils-counted_payload =
      rw (take_all byte_count rest (omega arith), take_all (5 + byte_count) counted (omega arith))
        (ground arith)

  decode_registers-counted_payload :
      {vs : List ℕ}
      → byte_count ≡ (n_hi * 256 + n_lo) * 2
      → unpack_values (n_hi * 256 + n_lo) rest ≡ ok vs
      → decode_registers counted
        ≡ ok (write_multiple_registers_request (a_hi * 256 + a_lo) vs, counted)
  unfolding decode_registers
  decode_registers-counted_payload e h = ground (
    arith,
    h,
    take_all byte_count rest (omega arith),
    take_all ((n_hi * 256 + n_lo) * 2) rest (omega arith),
    take_all (5 + byte_count) counted (omega arith),
  )

halves : (n : ℕ) → n / 256 * 256 + n % 256 ≡ n
halves n = omega arith

pub pack_hhb-eq-ok :
    (a b c : ℕ) {p : Bytes}
    → pack_hhb a b c ≡ ok p
    → (a < 2 ^ 16) × (b < 2 ^ 16) × (c < 256) × (p ≡ (be16 a ++ be16 b) ++ (c ∷ []))
pack_hhb-eq-ok a b c h = ground arith

decode_coils-encode :
    (a : ℕ) (values : List Bool) {p : Bytes}
    → encode_request (write_multiple_coils_request a values) ≡ ok p
    → decode_coils p ≡ ok (write_multiple_coils_request a values, p)
unfolding encode_request
decode_coils-encode a values h =
    let packed = pack_coils values in
    let n = length values in
    let (header, made, whole) = >>=-eq-ok (pack_hhb a n (length packed)) _ h in
    let (ha, hn, hc, shape) = pack_hhb-eq-ok a n (length packed) made in
    ground (
      arith,
      decode_coils-counted_payload (a / 256) (a % 256) (n / 256) (n % 256) (length packed) packed
          refl,
      ap (unpack_coils packed) (halves n),
      unpack_coils-pack_coils values,
      ap (λ t. t ++ packed) shape,
      whole,
    )

decode_registers-encode :
    (a : ℕ) (values : List ℕ) {p : Bytes}
    → encode_request (write_multiple_registers_request a values) ≡ ok p
    → decode_registers p ≡ ok (write_multiple_registers_request a (map (λ v. v % 2 ^ 16) values), p)
unfolding encode_request
decode_registers-encode a values h =
    let n = length values in
    let (header, made, whole) = >>=-eq-ok (pack_hhb a n (n * 2)) _ h in
    let (ha, hn, hc, shape) = pack_hhb-eq-ok a n (n * 2) made in
    ground (
      arith,
      decode_registers-counted_payload (a / 256) (a % 256) (n / 256) (n % 256) (n * 2)
          (words values) (omega (arith, length-words values)) (omega arith)
          (ap (λ t. unpack_values t (words values)) (halves n) ∙ unpack_values-words values),
      ap (λ t. t ++ words values) shape,
      pack_values-words header values,
      whole,
    )

pub from_payload-encode :
    (body : RequestBody) {p : Bytes}
    → IsUnregistered body
    → encode_request body ≡ ok p
    → request_from_payload (request_class (request_code body)) (request_code body) p
      ≡ ok (received body, p)
unfolding request_from_payload request_class request_code encode_request
from_payload-encode (read_coils_request a q) u h = decode_pair-pack_hh _ _ a q h
from_payload-encode (read_discrete_inputs_request a q) u h = decode_pair-pack_hh _ _ a q h
from_payload-encode (read_holding_registers_request a q) u h = decode_pair-pack_hh _ _ a q h
from_payload-encode (read_input_registers_request a q) u h = decode_pair-pack_hh _ _ a q h
from_payload-encode (write_single_coil_request a (flag true)) u h =
    decode_pair-pack_hh _ (λ a v. write_single_coil_request a (word v)) a 0xFF00 h
from_payload-encode (write_single_coil_request a (flag false)) u h =
    decode_pair-pack_hh _ (λ a v. write_single_coil_request a (word v)) a 0 h
from_payload-encode (write_single_coil_request a (word v)) u h =
    rw (← bit_and_mask 16 v)
      (decode_pair-pack_hh _ (λ a v. write_single_coil_request a (word v)) a (bit_and v 0xFFFF) h)
from_payload-encode (write_single_register_request a v) u h =
    rw (← bit_and_mask 16 v) (decode_pair-pack_hh _ _ a (bit_and v 0xFFFF) h)
from_payload-encode (write_multiple_coils_request a values) u h = decode_coils-encode a values h
from_payload-encode (write_multiple_registers_request a values) u h =
    decode_registers-encode a values h
from_payload-encode (raw_request payload fc) u h = rw u (ground arith)
