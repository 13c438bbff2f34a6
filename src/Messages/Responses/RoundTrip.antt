-- ===== src/Messages/Responses/RoundTrip.antt =====
-- What `to_adu` of a response writes, `from_adu` reads back; this is how a reply crosses the gateway.
use modbusgw.Base.{
  true, false, ◌==◌, ℕ, ◌*◌, ◌/◌, ◌%◌, ◌^◌, ◌<◌, List, ◌∷◌, ◌++◌, map, Bytes, bit_and, bit_or,
  length, take_all, bytes_one, bytes_one-eq-ok, ok, >>=-eq-ok, arith, ◌≡◌, ◌∙◌, ap,
}
use modbusgw.Base.Bits.{bit_and_mask, bit_and_single, bit-bit_or_single, bit_or_single-mod}
use modbusgw.Messages.Requests.RoundTrip.{
  decode_pair-pack_hh, words, length-words, pack_values-words, unpack_values-words,
}
use modbusgw.Messages.Requests.{unpack_values}
use modbusgw.Messages.Responses.{
  ResponseBody, read_coils_response, read_discrete_inputs_response, read_holding_registers_response,
  read_input_registers_response, write_single_coil_response, write_single_register_response,
  write_multiple_coils_response, write_multiple_registers_response, exception_response,
  raw_response, ResponseClass, response_class, response_code, response_methods, encode_response,
  decode_response, response_from_payload, encode_bits, encode_values, decode_bits, decode_words,
}

-- What the receiver of a response reads: 16-bit values, and the function code of an exception
-- without the top bit.
abbrev pub received : ResponseBody → ResponseBody
received (read_holding_registers_response vs) =
    read_holding_registers_response (map (λ v. v % 2 ^ 16) vs)
received (read_input_registers_response vs) =
    read_input_registers_response (map (λ v. v % 2 ^ 16) vs)
received (write_single_coil_response a v) = write_single_coil_response a (v % 2 ^ 16)
received (write_single_register_response a v) = write_single_register_response a (v % 2 ^ 16)
received (exception_response base_code exception_code) =
    exception_response (base_code % 128) exception_code
received body = body

-- A raw response that carries neither the code of a class nor the mark of an exception.
abbrev pub IsUnregistered : ResponseBody → Type 0
IsUnregistered (raw_response _ fc) = (response_class fc ≡ ResponseClass.raw) × (fc < 128)
IsUnregistered _ = Unit {0}

decode_bits-encode :
    (make : Bytes → ResponseBody) (values : Bytes) {p : Bytes}
    → encode_bits values ≡ ok p
    → decode_bits make p ≡ ok (make values, p)
unfolding encode_bits decode_bits
decode_bits-encode make values h =
    let (header, made, whole) = >>=-eq-ok (bytes_one (length values)) _ h in
    let (fits, shape) = bytes_one-eq-ok (length values) made in
    ground
      (arith, take_all (length values) values (omega arith), ap (λ t. t ++ values) shape, whole)

decode_words_counted :
    (make : List ℕ → ResponseBody) (vs : List ℕ)
    → decode_words make (length vs * 2 ∷ words vs)
      ≡ ok (make (map (λ v. v % 2 ^ 16) vs), length vs * 2 ∷ words vs)
unfolding decode_words
decode_words_counted make vs =
    let half : length (words vs) / 2 ≡ length vs = omega (arith, length-words vs) in
    ground (
      arith,
      take_all (length vs * 2) (words vs) (omega (arith, length-words vs)),
      length-words vs,
      ap (λ t. unpack_values t (words vs)) half ∙ unpack_values-words vs,
    )

decode_words-encode :
    (make : List ℕ → ResponseBody) (values : List ℕ) {p : Bytes}
    → encode_values values ≡ ok p
    → decode_words make p ≡ ok (make (map (λ v. v % 2 ^ 16) values), p)
unfolding encode_values decode_words
decode_words-encode make values h =
    let n = length values in
    let (header, made, whole) = >>=-eq-ok (bytes_one (n * 2)) _ h in
    let (fits, shape) = bytes_one-eq-ok (n * 2) made in
    ground (
      arith,
      decode_words_counted make values,
      ap (λ t. t ++ words values) shape,
      pack_values-words header values,
      whole,
    )

-- The top bit that marks an exception is found again, and taken off.
is_marked : (c : ℕ) → (bit_and (bit_or c 0x80) 0x80 == 0) ≡ false
is_marked c = ground (arith, bit_and_single 7 (bit_or c 0x80), bit-bit_or_single 7 7 c)

unmarked : (c : ℕ) → bit_and (bit_or c 0x80) 0x7F ≡ c % 128
unmarked c = bit_and_mask 7 (bit_or c 0x80) ∙ bit_or_single-mod 7 c

not_marked : (c : ℕ) → c < 128 → (bit_and c 0x80 == 0) ≡ true
not_marked c h = ground (arith, bit_and_single 7 c)

pub decode_response-encode :
    (body : ResponseBody) {p : Bytes}
    → IsUnregistered body
    → encode_response body ≡ ok p
    → decode_response (response_code body) p ≡ ok (received body, p)
unfolding decode_response response_from_payload response_class response_code encode_response
decode_response-encode (read_coils_response vs) u h = decode_bits-encode read_coils_response vs h
decode_response-encode (read_discrete_inputs_response vs) u h =
    decode_bits-encode read_discrete_inputs_response vs h
decode_response-encode (read_holding_registers_response vs) u h =
    decode_words-encode read_holding_registers_response vs h
decode_response-encode (read_input_registers_response vs) u h =
    decode_words-encode read_input_registers_response vs h
decode_response-encode (write_single_coil_response a v) u h =
    rw (← bit_and_mask 16 v) (decode_pair-pack_hh _ _ a (bit_and v 0xFFFF) h)
decode_response-encode (write_single_register_response a v) u h =
    rw (← bit_and_mask 16 v) (decode_pair-pack_hh _ _ a (bit_and v 0xFFFF) h)
decode_response-encode (write_multiple_coils_response a q) u h = decode_pair-pack_hh _ _ a q h
decode_response-encode (write_multiple_registers_response a q) u h = decode_pair-pack_hh _ _ a q h
decode_response-encode (exception_response c x) u h =
    let (fits, shape) = bytes_one-eq-ok x h in rw (is_marked c, unmarked c, shape)
decode_response-encode (raw_response payload fc) u h = rw (not_marked fc u.1, u.0) (ground arith)
