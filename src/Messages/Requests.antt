-- ===== src/Messages/Requests.antt =====
-- The request classes: fields, `encode`, `_from_payload`, and `ModbusRequest.from_adu`.
pub mod RoundTrip
pub mod Limits
pub mod Framing
mod Tests
use modbusgw.Base.{
  ℕ, zero, suc, ◌+◌, ◌*◌, Bool, List, [], ◌∷◌, ◌++◌, Option, ◌==◌, ltb, if◌then◌else◌, length, take,
  drop, Bytes, bit_and, Result, ok, raise, raise_if, ◌>>=◌, ◌>>◌, Exn, value_error, struct_error,
  pack_h, pack_b, pack_hh, unpack_hh, get_or,
}
use modbusgw.Messages.Pdu.{Pdu, PduMethods, new, attach_raw, split_adu}
use modbusgw.Messages.Coils.{pack_coils, unpack_coils}

-- `int | bool`, the value of a single coil
pub data CoilValue : Type 0 where
  flag : Bool → CoilValue
  word : ℕ → CoilValue

-- The fields of each request class.
pub data RequestBody : Type 0 where
  read_coils_request : ℕ → ℕ → RequestBody
  read_discrete_inputs_request : ℕ → ℕ → RequestBody
  read_holding_registers_request : ℕ → ℕ → RequestBody
  read_input_registers_request : ℕ → ℕ → RequestBody
  write_single_coil_request : ℕ → CoilValue → RequestBody
  write_single_register_request : ℕ → ℕ → RequestBody
  write_multiple_coils_request : ℕ → List Bool → RequestBody
  write_multiple_registers_request : ℕ → List ℕ → RequestBody
  raw_request : Bytes → ℕ → RequestBody

-- `FUNCTION_CODE`, or the override of a raw request
unfoldable pub request_code : RequestBody → ℕ
request_code (read_coils_request _ _) = 1
request_code (read_discrete_inputs_request _ _) = 2
request_code (read_holding_registers_request _ _) = 3
request_code (read_input_registers_request _ _) = 4
request_code (write_single_coil_request _ _) = 5
request_code (write_single_register_request _ _) = 6
request_code (write_multiple_coils_request _ _) = 15
request_code (write_multiple_registers_request _ _) = 16
request_code (raw_request _ function_code) = function_code

-- What the attribute `register` is. `ModbusRequest.register` is a class method, and a raw request
-- has no property of that name that would hide it.
pub data Register : Type 0 where
  address : ℕ → Register
  bound_method : Register

unfoldable pub register : RequestBody → Register
register (read_coils_request a _) = address a
register (read_discrete_inputs_request a _) = address a
register (read_holding_registers_request a _) = address a
register (read_input_registers_request a _) = address a
register (write_single_coil_request a _) = address a
register (write_single_register_request a _) = address a
register (write_multiple_coils_request a _) = address a
register (write_multiple_registers_request a _) = address a
register (raw_request _ _) = bound_method

-- `_encode_value`
pub encode_value : CoilValue → ℕ
encode_value (flag b) = if b then 0xFF00 else 0x0000
encode_value (word v) = bit_and v 0xFFFF

-- `for value in values: payload += struct.pack(">H", value & 0xFFFF)`
unfoldable pub pack_values : Bytes → List ℕ → Result Bytes
pack_values payload [] = ok payload
pack_values payload (v ∷ vs) = do x ← pack_h (bit_and v 0xFFFF); pack_values (payload ++ x) vs

-- `struct.pack(">HHB", a, b, c)`
abbrev pub pack_hhb : ℕ → ℕ → ℕ → Result Bytes
pack_hhb a b c = do x ← pack_hh a b; y ← pack_b c; ok (x ++ y)

unfoldable pub encode_request : RequestBody → Result Bytes
unfolding encode_value
encode_request (read_coils_request a quantity) = pack_hh a quantity
encode_request (read_discrete_inputs_request a quantity) = pack_hh a quantity
encode_request (read_holding_registers_request a quantity) = pack_hh a quantity
encode_request (read_input_registers_request a quantity) = pack_hh a quantity
encode_request (write_single_coil_request a value) = pack_hh a (encode_value value)
encode_request (write_single_register_request a value) = pack_hh a (bit_and value 0xFFFF)
encode_request (write_multiple_coils_request a values) =
    let bytes_payload = pack_coils values in
    do header ← pack_hhb a (length values) (length bytes_payload); ok (header ++ bytes_payload)
encode_request (write_multiple_registers_request a values) = do
  payload ← pack_hhb a (length values) (length values * 2)
  pack_values payload values
encode_request (raw_request payload _) = ok payload

instance abbrev pub request_methods : PduMethods RequestBody
request_methods = record { function_code = request_code; encode = encode_request }

abbrev pub Request : Type 0
Request = Pdu RequestBody

-- `struct.unpack(">" + "H" * quantity, data)`, which wants exactly `2 * quantity` bytes
pub unpack_values : ℕ → Bytes → Result (List ℕ)
unpack_values zero [] = ok []
unpack_values (suc quantity) (hi ∷ lo ∷ rest) = do
  values ← unpack_values quantity rest
  ok ((hi * 256 + lo) ∷ values)
unpack_values _ _ = raise struct_error

-- What `_from_payload` makes: the fields, and the part of the payload that it keeps.
abbrev pub Decoded : Type 0 → Type 0
Decoded B = Result (B × Bytes)

-- The classes whose payload is two 16-bit numbers.
unfoldable pub decode_pair : {B : Type 0} → Exn → (ℕ → ℕ → B) → Bytes → Decoded B
decode_pair e make payload =
    if ltb (length payload) 4
    then raise e
    else do (a, v) ← unpack_hh (take 4 payload); ok (make a v, take 4 payload)

pub decode_coils : Bytes → Decoded RequestBody
decode_coils payload =
    if ltb (length payload) 5
    then raise (value_error "Invalid write multiple coils request")
    else do
      (a, quantity) ← unpack_hh (take 4 payload)
      let byte_count = get_or payload 4 0
      let values = unpack_coils (take byte_count (drop 5 payload)) quantity
      ok (write_multiple_coils_request a values, take (5 + byte_count) payload)

pub decode_registers : Bytes → Decoded RequestBody
decode_registers payload =
    if ltb (length payload) 5
    then raise (value_error "Invalid write multiple registers request")
    else do
      (a, quantity) ← unpack_hh (take 4 payload)
      let byte_count = get_or payload 4 0
      let words = take byte_count (drop 5 payload)
      raise_if (ltb (length words) (quantity * 2))
          (value_error "Write multiple registers payload truncated")
      values ← unpack_values quantity (take (quantity * 2) words)
      ok (write_multiple_registers_request a values, take (5 + byte_count) payload)

-- The classes in `_registry`, and `RawModbusRequest`, which is not registered.
pub data RequestClass : Type 0 where
  read_coils read_discrete_inputs read_holding_registers read_input_registers : RequestClass
  write_single_coil write_single_register : RequestClass
  write_multiple_coils write_multiple_registers raw : RequestClass

-- `_from_payload` of a class
pub request_from_payload : RequestClass → ℕ → Bytes → Decoded RequestBody
unfolding decode_pair decode_coils decode_registers
request_from_payload read_coils fc =
    decode_pair (value_error "Invalid read coils request") read_coils_request
request_from_payload read_discrete_inputs fc =
    decode_pair (value_error "Invalid read coils request") read_discrete_inputs_request
request_from_payload read_holding_registers fc =
    decode_pair (value_error "Invalid read holding registers request")
      read_holding_registers_request
request_from_payload read_input_registers fc =
    decode_pair (value_error "Invalid read holding registers request") read_input_registers_request
request_from_payload write_single_coil fc =
    decode_pair (value_error "Invalid write single coil request")
      (λ a v. write_single_coil_request a (word v))
request_from_payload write_single_register fc =
    decode_pair (value_error "Invalid write single register request") write_single_register_request
request_from_payload write_multiple_coils fc = decode_coils
request_from_payload write_multiple_registers fc = decode_registers
request_from_payload raw fc = λ payload. ok (raw_request payload fc, payload)

-- `cls._registry.get(function_code, RawModbusRequest)`
pub request_class : ℕ → RequestClass
request_class fc =
    if fc == 1
    then read_coils
    else if fc == 2
    then read_discrete_inputs
    else if fc == 3
    then read_holding_registers
    else if fc == 4
    then read_input_registers
    else if fc == 5
    then write_single_coil
    else if fc == 6
    then write_single_register
    else if fc == 15
    then write_multiple_coils
    else if fc == 16
    then write_multiple_registers
    else raw

-- `ModbusRequest.from_adu`
pub request_from_adu : Bytes → Option Bytes → Result Request
unfolding request_class request_from_payload split_adu attach_raw
request_from_adu adu mbap = do
  (unit_id, fc, payload) ← split_adu adu
  (body, kept) ← request_from_payload (request_class fc) fc payload
  ok (attach_raw (new unit_id body) kept adu mbap)
