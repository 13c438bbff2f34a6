-- ===== src/Client/Facade/Calls.antt =====
-- The methods of `ModbusClient` that ask the transport.
use modbusgw.Base.{
  ℕ, ◌==◌, bit_and, Bool, not, List, [], ◌∷◌, map, Option, none, some, length, take, String,
}
use modbusgw.Base.Exec.{Exec, pure, lift, ◌>>=◌, ◌>>◌}
use modbusgw.Messages.Pdu.{new}
use modbusgw.Messages.Requests.{
  Request, RequestBody, CoilValue, request_code, read_coils_request, read_discrete_inputs_request,
  read_holding_registers_request, read_input_registers_request, write_single_coil_request,
  write_single_register_request, write_multiple_coils_request, write_multiple_registers_request,
}
use modbusgw.Messages.Responses.{Response, ResponseBody}
use modbusgw.Client.Facade.{
  Objects, Registers, coils_of, holding_of, inputs_of, coil_value_of, register_value_of,
  coil_quantity_of, register_quantity_of, checked, encode_register_payload, decode_registers,
  payload_of,
}
pub mod ReadBack
pub mod OverSerial
mod Tests

-- `_unit`
abbrev pub unit : ℕ → Option ℕ → ℕ
unit default_unit_id none = default_unit_id
unit default_unit_id (some override) = override

-- The transport's `execute`
module _ {W : Type 0} (transport : Request → Exec W Response) where
  -- `_execute` with an expected type, and the fields that the helper reads
  pub execute_as : {A : Type 0} → Request → (ResponseBody → Option A) → Exec W A
  execute_as request read = do
    response ← transport request
    lift (checked (request_code request.body) read response.body)

  -- `execute`
  pub execute : Request → Exec W Response
  execute request = do
    response ← transport request
    lift (checked (request_code request.body) (λ body. some response) response.body)

-- the attribute `default_unit_id` besides
module _ {W : Type 0} (transport : Request → Exec W Response) (default_unit_id : ℕ) where
  abbrev ask : {A : Type 0} → Option ℕ → RequestBody → (ResponseBody → Option A) → Exec W A
  ask unit_id body read = execute_as transport (new (unit default_unit_id unit_id) body) read

  pub read_coils : ℕ → ℕ → Option ℕ → Exec W (List Bool)
  read_coils address quantity unit_id = do
    bits ← ask unit_id (read_coils_request address quantity) coils_of
    pure (take quantity bits)

  pub read_discrete_inputs : ℕ → ℕ → Option ℕ → Exec W (List Bool)
  read_discrete_inputs address quantity unit_id = do
    bits ← ask unit_id (read_discrete_inputs_request address quantity) coils_of
    pure (take quantity bits)

  pub write_coil : ℕ → CoilValue → Option ℕ → Exec W Bool
  write_coil address value unit_id = do
    answer ← ask unit_id (write_single_coil_request address value) coil_value_of
    pure (not (answer == 0))

  pub write_coils : ℕ → List Bool → Option ℕ → Exec W ℕ
  write_coils address values unit_id =
      ask unit_id (write_multiple_coils_request address values) coil_quantity_of

  -- the request of `write_register`, and that of `write_registers`
  pub write_word : ℕ → ℕ → Option ℕ → Exec W ℕ
  write_word address value unit_id =
      ask unit_id (write_single_register_request address value) register_value_of

  pub write_words : ℕ → List ℕ → Option ℕ → Exec W ℕ
  write_words address values unit_id =
      ask unit_id (write_multiple_registers_request address values) register_quantity_of

  -- `write_register` after it has encoded the value
  pub write_encoded : ℕ → Option ℕ → List ℕ → Exec W ℕ
  unfolding write_word write_words
  write_encoded address unit_id (register ∷ []) = write_word address register unit_id
  write_encoded address unit_id registers =
      write_words address (map (λ v. bit_and v 0xFFFF) registers) unit_id

  module _ {V : Type 0} (py : Objects V) where
    pub read_input_registers : ℕ → ℕ → Option String → Option ℕ → Exec W (Registers V)
    read_input_registers address quantity fmt unit_id = do
      values ← ask unit_id (read_input_registers_request address quantity) inputs_of
      lift (decode_registers py values fmt)

    pub read_holding_registers : ℕ → ℕ → Option String → Option ℕ → Exec W (Registers V)
    read_holding_registers address quantity fmt unit_id = do
      values ← ask unit_id (read_holding_registers_request address quantity) holding_of
      lift (decode_registers py values fmt)

    pub write_register : ℕ → V → Option ℕ → Option String → Exec W ℕ
    write_register address value unit_id none = do
      n ← lift (py.int value)
      write_word address (bit_and n 0xFFFF) unit_id
    write_register address value unit_id (some fmt) = do
      registers ← lift (encode_register_payload py fmt value)
      write_encoded address unit_id registers

    pub write_registers : ℕ → V → Option ℕ → Option String → Exec W ℕ
    write_registers address values unit_id fmt = do
      packed ← lift (payload_of py fmt values)
      write_words address packed unit_id
