-- ===== src/Messages/Responses.antt =====
-- The response classes: fields, `encode`, `_from_payload`, and `ModbusResponse.from_adu`.
pub mod RoundTrip
pub mod Framing
mod Tests
use modbusgw.Base.{
  ℕ, ◌*◌, ◌/◌, ◌%◌, Bool, not, List, [], ◌∷◌, ◌++◌, Option, ◌==◌, if◌then◌else◌, length, take,
  Bytes, bit_and, bit_or, Result, ok, raise, raise_if, ◌>>=◌, ◌>>◌, value_error, pack_hh, bytes_one,
}
use modbusgw.Messages.Pdu.{Pdu, PduMethods, new, attach_raw, split_adu}
use modbusgw.Messages.Coils.{unpack_coils}
use modbusgw.Messages.Requests.{Decoded, decode_pair, pack_values, unpack_values}

-- The fields of each response class. An exception holds the code of the function that failed,
-- without the top bit, and the exception code.
pub data ResponseBody : Type 0 where
  read_coils_response : Bytes → ResponseBody
  read_discrete_inputs_response : Bytes → ResponseBody
  read_holding_registers_response : List ℕ → ResponseBody
  read_input_registers_response : List ℕ → ResponseBody
  write_single_coil_response : ℕ → ℕ → ResponseBody
  write_single_register_response : ℕ → ℕ → ResponseBody
  write_multiple_coils_response : ℕ → ℕ → ResponseBody
  write_multiple_registers_response : ℕ → ℕ → ResponseBody
  exception_response : ℕ → ℕ → ResponseBody
  raw_response : Bytes → ℕ → ResponseBody

unfoldable pub response_code : ResponseBody → ℕ
response_code (read_coils_response _) = 1
response_code (read_discrete_inputs_response _) = 2
response_code (read_holding_registers_response _) = 3
response_code (read_input_registers_response _) = 4
response_code (write_single_coil_response _ _) = 5
response_code (write_single_register_response _ _) = 6
response_code (write_multiple_coils_response _ _) = 15
response_code (write_multiple_registers_response _ _) = 16
response_code (exception_response base_code _) = bit_or base_code 0x80
response_code (raw_response _ function_code) = function_code

-- `encode` of the two classes of bits, and of the two of registers
pub encode_bits : Bytes → Result Bytes
encode_bits values = do header ← bytes_one (length values); ok (header ++ values)

unfoldable pub encode_values : List ℕ → Result Bytes
encode_values values = do header ← bytes_one (length values * 2); pack_values header values

unfoldable pub encode_response : ResponseBody → Result Bytes
unfolding encode_bits encode_values
encode_response (read_coils_response values) = encode_bits values
encode_response (read_discrete_inputs_response values) = encode_bits values
encode_response (read_holding_registers_response values) = encode_values values
encode_response (read_input_registers_response values) = encode_values values
encode_response (write_single_coil_response a value) = pack_hh a (bit_and value 0xFFFF)
encode_response (write_single_register_response a value) = pack_hh a (bit_and value 0xFFFF)
encode_response (write_multiple_coils_response a quantity) = pack_hh a quantity
encode_response (write_multiple_registers_response a quantity) = pack_hh a quantity
encode_response (exception_response _ exception_code) = bytes_one exception_code
encode_response (raw_response payload _) = ok payload

instance abbrev pub response_methods : PduMethods ResponseBody
response_methods = record { function_code = response_code; encode = encode_response }

abbrev pub Response : Type 0
Response = Pdu ResponseBody

-- `isinstance(response, ModbusExceptionResponse)`
abbrev pub is_exception : ResponseBody → Bool
is_exception (exception_response _ _) = Bool.true
is_exception _ = Bool.false

-- the property `bits`
pub bits : Bytes → List Bool
bits values = unpack_coils values (length values * 8)

pub decode_bits : (Bytes → ResponseBody) → Bytes → Decoded ResponseBody
decode_bits make [] = raise (value_error "Invalid read coils response")
decode_bits make (byte_count ∷ rest) =
    ok (make (take byte_count rest), byte_count ∷ take byte_count rest)

pub decode_words : (List ℕ → ResponseBody) → Bytes → Decoded ResponseBody
decode_words make [] = raise (value_error "Invalid read holding registers response")
decode_words make (byte_count ∷ rest) = do
  let words = take byte_count rest
  raise_if (not (length words % 2 == 0)) (value_error "Register response byte count is odd")
  values ← unpack_values (length words / 2) words
  ok (make values, byte_count ∷ words)

decode_exception : ℕ → Bytes → Decoded ResponseBody
decode_exception base_code [] = raise (value_error "Invalid exception response")
decode_exception base_code (exception_code ∷ rest) =
    ok (exception_response base_code exception_code, exception_code ∷ [])

-- The classes in `_registry`, and `RawModbusResponse`, which is not registered.
pub data ResponseClass : Type 0 where
  read_coils read_discrete_inputs read_holding_registers read_input_registers : ResponseClass
  write_single_coil write_single_register : ResponseClass
  write_multiple_coils write_multiple_registers raw : ResponseClass

-- `_from_payload` of a class
pub response_from_payload : ResponseClass → ℕ → Bytes → Decoded ResponseBody
unfolding decode_pair decode_bits decode_words
response_from_payload read_coils fc = decode_bits read_coils_response
response_from_payload read_discrete_inputs fc = decode_bits read_discrete_inputs_response
response_from_payload read_holding_registers fc = decode_words read_holding_registers_response
response_from_payload read_input_registers fc = decode_words read_input_registers_response
response_from_payload write_single_coil fc =
    decode_pair (value_error "Invalid write single coil response") write_single_coil_response
response_from_payload write_single_register fc =
    decode_pair (value_error "Invalid write single register response")
      write_single_register_response
response_from_payload write_multiple_coils fc =
    decode_pair (value_error "Invalid write multiple coils response") write_multiple_coils_response
response_from_payload write_multiple_registers fc =
    decode_pair (value_error "Invalid write multiple registers response")
      write_multiple_registers_response
response_from_payload raw fc = λ payload. ok (raw_response payload fc, payload)

-- `cls._registry.get(function_code, RawModbusResponse)`
pub response_class : ℕ → ResponseClass
response_class fc =
    if fc == 1
    then read_coils
    else if fc == 2
    then read_discrete_inputs
    else if fc == 3
    then read_holding_registers
    else if fc == 4
    then read_input_registers
    else if fc == 5
    then write_single_coil
    else if fc == 6
    then write_single_register
    else if fc == 15
    then write_multiple_coils
    else if fc == 16
    then write_multiple_registers
    else raw

-- The body of `from_adu` after the split: the top bit of the function code marks an exception.
pub decode_response : ℕ → Bytes → Decoded ResponseBody
unfolding decode_exception response_class response_from_payload
decode_response fc payload =
    if bit_and fc 0x80 == 0
    then response_from_payload (response_class fc) fc payload
    else decode_exception (bit_and fc 0x7F) payload

-- `ModbusResponse.from_adu`
pub response_from_adu : Bytes → Option Bytes → Result Response
unfolding decode_response split_adu attach_raw
response_from_adu adu mbap = do
  (unit_id, fc, payload) ← split_adu adu
  (body, kept) ← decode_response fc payload
  ok (attach_raw (new unit_id body) kept adu mbap)
