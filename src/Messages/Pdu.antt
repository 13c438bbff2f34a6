-- ===== src/Messages/Pdu.antt =====
-- The base class `ModbusPDU`: the unit, the raw bytes that an instance keeps, and the methods that
-- every request and response inherits. What the subclasses override is an interface.
pub mod Framing
use modbusgw.Base.{ℕ, ◌∷◌, ◌++◌, Option, none, some, ◌==◌, if◌then◌else◌, Bytes}
use modbusgw.Base.{Result, ok, raise, value_error, bytes_two, ◌||◌}

-- `raw_pdu`, `raw_adu` and `mbap`, which `__post_init__` sets to None
pub record Raw : Type 0 where
  pub raw_pdu : Option Bytes
  pub raw_adu : Option Bytes
  pub mbap : Option Bytes

abbrev no_raw : Raw
no_raw = record { raw_pdu = none; raw_adu = none; mbap = none }

-- `B` holds the fields of the subclass.
pub record Pdu (B : Type 0) : Type 0 where
  pub unit_id : ℕ
  pub body : B
  pub raw : Raw

-- The methods that the subclasses give.
pub record PduMethods (B : Type 0) : Type 0 where
  pub function_code : B → ℕ
  pub encode : B → Result Bytes

pub data Operation : Type 0 where
  read write : Operation

-- `_OPERATION_MAP.get(fc)`
pub operation : ℕ → Option Operation
operation fc =
    if fc == 1 || fc == 2 || fc == 3 || fc == 4
    then some read
    else if fc == 5 || fc == 6 || fc == 15 || fc == 16
    then some write
    else none

abbrev pub new : {B : Type 0} → ℕ → B → Pdu B
new unit_id body = record { unit_id = unit_id; body = body; raw = no_raw }

-- `_attach_raw`
unfoldable pub attach_raw : {B : Type 0} → Pdu B → Bytes → Bytes → Option Bytes → Pdu B
attach_raw pdu payload adu mbap = record pdu {
  raw = record { raw_pdu = some payload; raw_adu = some adu; mbap = mbap };
}

-- `_split_adu`
unfoldable pub split_adu : Bytes → Result (ℕ × ℕ × Bytes)
split_adu (unit_id ∷ function_code ∷ payload) = ok (unit_id, function_code, payload)
split_adu _ = raise (value_error "Frame too short")

unfoldable pub with_unit : {B : Type 0} → Pdu B → ℕ → Pdu B
with_unit pdu unit_id = record { unit_id = unit_id; body = pdu.body; raw = pdu.raw }

module _ {B : Type 0} ⦃m : PduMethods B⦄ where
  store_pdu : Pdu B → Bytes → Pdu B
  store_pdu pdu payload = record pdu { raw = record pdu.raw { raw_pdu = some payload } }

  store_adu : Pdu B → Bytes → Pdu B
  store_adu pdu frame = record pdu { raw = record pdu.raw { raw_adu = some frame } }

  -- `to_adu` keeps the bytes that it made: the payload also where the header does not fit.
  unfoldable pub to_adu : Pdu B → Result Bytes × Pdu B
  unfolding store_pdu store_adu
  to_adu pdu = elim (m.encode pdu.body) [
    | raise e ↦ (raise e, pdu)
    | ok payload ↦ elim (bytes_two pdu.unit_id (m.function_code pdu.body)) [
      | raise e ↦ (raise e, store_pdu pdu payload)
      | ok header ↦ (ok (header ++ payload), store_adu (store_pdu pdu payload) (header ++ payload))
    ]
  ]
