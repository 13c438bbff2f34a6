-- ===== src/Client/Facade.antt =====
-- modbusgw_client/api.py: the helpers of `ModbusClient` over a transport. What the code asks of a
-- Python object, and the module `struct`, are a parameter.
pub mod Calls
pub mod Formats
use modbusgw.Base.{
  ℕ, ◌+◌, ◌*◌, ◌%◌, ◌==◌, bit_and, Bool, true, false, not, List, [], ◌∷◌, map, Option, none, some,
  if◌then◌else◌, length, take, Bytes, String, Result, ok, raise, raise_if, ◌>>=◌, ◌>>◌, Exn,
  value_error, type_error, protocol_error, modbus_server_error,
}
use modbusgw.Messages.Pdu.{new}
use modbusgw.Messages.Requests.{
  Request, RequestBody, CoilValue, request_code, read_coils_request, read_discrete_inputs_request,
  read_holding_registers_request, read_input_registers_request, write_single_coil_request,
  write_single_register_request, write_multiple_coils_request, write_multiple_registers_request,
  pack_values,
}
use modbusgw.Messages.Responses.{
  Response, ResponseBody, read_coils_response, read_discrete_inputs_response,
  read_holding_registers_response, read_input_registers_response, write_single_coil_response,
  write_single_register_response, write_multiple_coils_response, write_multiple_registers_response,
  exception_response, raw_response, bits,
}

pub record Objects (V : Type 0) : Type 0 where
  -- `isinstance(value, (bytes, bytearray))`, `isinstance(value, str)`, and
  -- `isinstance(value, Sequence)` with the items
  pub as_bytes : V → Option Bytes
  pub is_text : V → Bool
  pub as_sequence : V → Option (List V)
  -- `for v in value`, and `int(v)` where that is not negative
  pub iterate : V → Result (List V)
  pub int : V → Result ℕ
  pub pack : String → List V → Result Bytes
  pub unpack : String → Bytes → Result (List V)
  pub calcsize : String → Result ℕ

-- `isinstance(response, cls)` with the fields that the helper reads. The class of discrete inputs
-- extends that of coils, the class of input registers that of holding registers.
pub coils_of : ResponseBody → Option (List Bool)
coils_of (read_coils_response values) = some (bits values)
coils_of (read_discrete_inputs_response values) = some (bits values)
coils_of _ = none

pub holding_of : ResponseBody → Option (List ℕ)
holding_of (read_holding_registers_response values) = some values
holding_of (read_input_registers_response values) = some values
holding_of _ = none

pub inputs_of : ResponseBody → Option (List ℕ)
inputs_of (read_input_registers_response values) = some values
inputs_of _ = none

pub coil_value_of : ResponseBody → Option ℕ
coil_value_of (write_single_coil_response _ value) = some value
coil_value_of _ = none

pub register_value_of : ResponseBody → Option ℕ
register_value_of (write_single_register_response _ value) = some value
register_value_of _ = none

pub coil_quantity_of : ResponseBody → Option ℕ
coil_quantity_of (write_multiple_coils_response _ quantity) = some quantity
coil_quantity_of _ = none

pub register_quantity_of : ResponseBody → Option ℕ
register_quantity_of (write_multiple_registers_response _ quantity) = some quantity
register_quantity_of _ = none

-- `_execute` after the transport's call. `read` is the test for the expected type; `some` without a
-- test where there is none.
pub expect : {A : Type 0} → Option A → Result A
expect (some value) = ok value
expect none = raise (protocol_error "Unexpected response type")

pub checked : {A : Type 0} → ℕ → (ResponseBody → Option A) → ResponseBody → Result A
unfolding expect
checked function_code read (exception_response _ code) =
    raise (modbus_server_error function_code code)
checked function_code read body = expect (read body)

-- `_encode_register_payload` after `_pack_struct`: the registers of the bytes
pub pairs : Bytes → List ℕ
pairs [] = []
pairs (x ∷ []) = x ∷ []
pairs (hi ∷ lo ∷ rest) = (hi * 256 + lo) ∷ pairs rest

-- What the helpers for registers return: numbers, or what `struct.unpack` gives
pub data Registers (V : Type 0) : Type 0 where
  words : List ℕ → Registers V
  unpacked : List V → Registers V

module _ {V : Type 0} (py : Objects V) where
  retried : String → V → Result Bytes → Result Bytes
  retried fmt value (raise (type_error _)) = py.pack fmt (value ∷ [])
  retried fmt value outcome = outcome

  packed_items : String → V → Option (List V) → Result Bytes
  unfolding retried
  packed_items fmt value (some items) = retried fmt value (py.pack fmt items)
  packed_items fmt value none = py.pack fmt (value ∷ [])

  packed : String → V → Option Bytes → Result Bytes
  unfolding packed_items
  packed fmt value (some raw) = ok raw
  packed fmt value none =
      if py.is_text value
      then raise (type_error "fmt payload cannot be a string")
      else packed_items fmt value (py.as_sequence value)

  -- `_pack_struct`
  pub pack_struct : String → V → Result Bytes
  unfolding packed
  pack_struct fmt value = packed fmt value (py.as_bytes value)

  -- `_encode_register_payload`
  pub encode_register_payload : String → V → Result (List ℕ)
  unfolding pairs
  encode_register_payload fmt value = do
    raw ← pack_struct fmt value
    raise_if (not (length raw % 2 == 0))
        (value_error "Formatted payload must cover a whole number of registers")
    ok (pairs raw)

  -- `_decode_registers`
  pub decode_registers : List ℕ → Option String → Result (Registers V)
  decode_registers values none = ok (words values)
  decode_registers values (some fmt) = do
    raw ← pack_values [] values
    expected ← py.calcsize fmt
    raise_if (not (expected == length raw)) (value_error "fmt expects another number of bytes")
    items ← py.unpack fmt raw
    ok (unpacked items)

  -- `tuple(int(v) & 0xFFFF for v in values)`
  pub masked : List V → Result (List ℕ)
  masked [] = ok []
  masked (v ∷ vs) = do n ← py.int v; ns ← masked vs; ok (bit_and n 0xFFFF ∷ ns)

  -- the first lines of `write_registers`
  pub payload_of : Option String → V → Result (List ℕ)
  payload_of (some fmt) values = encode_register_payload fmt values
  payload_of none values = py.iterate values >>= masked
