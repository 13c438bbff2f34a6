-- ===== src/Client/Facade/Calls/Tests.antt =====
-- The theorem on reading back, at a pair of numbers, over a device that keeps registers.
use modbusgw.Base.{
  ℕ, ◌+◌, ◌*◌, ◌/◌, ◌%◌, false, List, [], ◌∷◌, Option, none, some, length, Bytes, Result, ok, raise,
  struct_error, type_error, pack_hh, ◌≡◌, refl, sym, subst, arith, All, IsByte, pack_hh-eq-ok,
}
use modbusgw.Base.Exec.{Exec, ◌>>=◌}
use modbusgw.Messages.Pdu.{new}
use modbusgw.Messages.Requests.{
  Request, RequestBody, request_code, read_holding_registers_request,
  write_multiple_registers_request,
}
use modbusgw.Messages.Responses.{
  Response, ResponseBody, read_holding_registers_response, write_multiple_registers_response,
  exception_response,
}
use modbusgw.Client.Facade.{
  Objects, unpacked, payload_of, encode_register_payload, pack_struct, checked,
  register_quantity_of,
}
use modbusgw.Client.Facade.Calls.{execute_as, write_words, read_holding_registers, write_registers}
use modbusgw.Client.Facade.Formats.{Restores, IsPacked}
use modbusgw.Client.Facade.Calls.ReadBack.{Keeps, write_registers-read_holding_registers}

data PyObject : Type 0 where
  number : ℕ → PyObject
  pair : ℕ → ℕ → PyObject

abbrev items_of : PyObject → Option (List PyObject)
items_of (pair a b) = some (number a ∷ number b ∷ [])
items_of (number n) = none

abbrev int_of : PyObject → Result ℕ
int_of (number n) = ok n
int_of (pair a b) = raise (type_error "int")

-- The format ">HH".
abbrev pack_two : List PyObject → Result Bytes
pack_two (number a ∷ number b ∷ []) = pack_hh a b
pack_two _ = raise struct_error

abbrev unpack_two : Bytes → Result (List PyObject)
unpack_two (a ∷ b ∷ c ∷ d ∷ []) = ok (number (a * 256 + b) ∷ number (c * 256 + d) ∷ [])
unpack_two _ = raise struct_error

abbrev python : Objects PyObject
python = record {
  as_bytes = λ v. none;
  is_text = λ v. false;
  as_sequence = items_of;
  iterate = λ v. raise (type_error "iter");
  int = int_of;
  pack = λ fmt items. pack_two items;
  unpack = λ fmt raw. unpack_two raw;
  calcsize = λ fmt. ok 4;
}

python-Restores : Restores python ">HH"
python-Restores [] raw e = absurd (cc)
python-Restores (number a ∷ []) raw e = absurd (cc)
python-Restores (number a ∷ number b ∷ []) raw e =
    let (small_a, small_b, shape) = pack_hh-eq-ok a b e in
    let split : (n : ℕ) → n / 256 * 256 + n % 256 ≡ n = λ n. omega arith in
    subst
      (λ r.
        All IsByte r
        × (python.calcsize ">HH" ≡ ok (length r))
        × (unpack_two r ≡ ok (number a ∷ number b ∷ [])))
      (sym shape)
      (
        (omega arith, (omega arith, (omega arith, (omega arith, tt)))),
        refl,
        rw (split a, split b) refl,
      )
python-Restores (number a ∷ number b ∷ c ∷ rest) raw e = absurd (cc)
python-Restores (number a ∷ pair b b' ∷ rest) raw e = absurd (cc)
python-Restores (pair a a' ∷ rest) raw e = absurd (cc)

-- It holds one block of registers.
abbrev answer : RequestBody → List ℕ → ResponseBody × List ℕ
answer (write_multiple_registers_request address registers) held =
    (write_multiple_registers_response address (length registers), registers)
answer (read_holding_registers_request address quantity) held =
    (read_holding_registers_response held, held)
answer body held = (exception_response (request_code body) 1, held)

abbrev device : Request → Exec (List ℕ) Response
device request held =
    let (body, later) = answer request.body held in (some (ok (new request.unit_id body)), later)

device-Keeps : Keeps device
device-Keeps unit_id address registers response w w1 e served = (registers, cc)

abbrev two_numbers : PyObject
two_numbers = pair 513 7

abbrev two_registers : Bytes
two_registers = 2 ∷ 1 ∷ 0 ∷ 7 ∷ []

two_numbers-IsPacked : IsPacked python ">HH" two_numbers (number 513 ∷ number 7 ∷ []) two_registers
two_numbers-IsPacked = record {
  no_bytes = refl;
  no_text = refl;
  sequence = refl;
  packs = refl;
  even = refl;
}

written :
    write_registers device 1 python 100 two_numbers none (some ">HH") []
    ≡ (some (ok 2), 513 ∷ 7 ∷ [])
unfolding write_registers write_words execute_as ◌>>=◌ payload_of encode_register_payload
    pack_struct checked register_quantity_of
written = refl

write_registers-read_holding_registers_example :
    (w : List ℕ) × (read_holding_registers device 1 python 100 2 (some ">HH") none (513 ∷ 7 ∷ [])
      ≡ (some (ok (unpacked (number 513 ∷ number 7 ∷ []))), w))
write_registers-read_holding_registers_example =
    write_registers-read_holding_registers device python 1 ">HH" 100 2 none [] device-Keeps
      python-Restores two_numbers-IsPacked written
