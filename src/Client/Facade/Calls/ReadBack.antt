-- ===== src/Client/Facade/Calls/ReadBack.antt =====
-- What was written through the client is read back through it.
use modbusgw.Base.{
  ℕ, ◌/◌, false, List, Option, none, some, length, Bytes, String, ok, ◌≡◌, refl, ap, sym, ◌∙◌,
}
use modbusgw.Base.Exec.{Exec, lift}
use modbusgw.Base.Exec.Runs.{bind_ok, bind-eq-ok}
use modbusgw.Messages.Pdu.{new}
use modbusgw.Messages.Requests.{
  Request, request_code, read_holding_registers_request, write_multiple_registers_request,
}
use modbusgw.Messages.Responses.{
  Response, ResponseBody, read_coils_response, read_discrete_inputs_response,
  read_holding_registers_response, read_input_registers_response, write_single_coil_response,
  write_single_register_response, write_multiple_coils_response, write_multiple_registers_response,
  exception_response, raw_response, is_exception,
}
use modbusgw.Client.Facade.{
  Objects, unpacked, pairs, holding_of, register_quantity_of, checked, expect, payload_of,
  encode_register_payload, decode_registers,
}
use modbusgw.Client.Facade.Calls.{
  unit, execute_as, write_words, write_registers, read_holding_registers,
}
use modbusgw.Client.Facade.Formats.{
  Restores, IsPacked, encode_register_payload-eq-ok, decode_registers-pairs, length-pairs,
}

expect-eq-ok : {A : Type 0} (o : Option A) {a : A} → expect o ≡ ok a → o ≡ some a
unfolding expect
expect-eq-ok (some x) e = cc
expect-eq-ok none e = cc

-- What passes `_execute` is no exception, and of the expected type.
checked-eq-ok :
    {A : Type 0} (fc : ℕ) (read : ResponseBody → Option A) (body : ResponseBody) {a : A}
    → checked fc read body ≡ ok a
    → (is_exception body ≡ false) × (read body ≡ some a)
unfolding checked
checked-eq-ok fc read (read_coils_response _) e = (refl, expect-eq-ok _ e)
checked-eq-ok fc read (read_discrete_inputs_response _) e = (refl, expect-eq-ok _ e)
checked-eq-ok fc read (read_holding_registers_response _) e = (refl, expect-eq-ok _ e)
checked-eq-ok fc read (read_input_registers_response _) e = (refl, expect-eq-ok _ e)
checked-eq-ok fc read (write_single_coil_response _ _) e = (refl, expect-eq-ok _ e)
checked-eq-ok fc read (write_single_register_response _ _) e = (refl, expect-eq-ok _ e)
checked-eq-ok fc read (write_multiple_coils_response _ _) e = (refl, expect-eq-ok _ e)
checked-eq-ok fc read (write_multiple_registers_response _ _) e = (refl, expect-eq-ok _ e)
checked-eq-ok fc read (exception_response _ _) e = cc
checked-eq-ok fc read (raw_response _ _) e = (refl, expect-eq-ok _ e)

some-injective : {A : Type 0} {a b : A} → some a ≡ some b → a ≡ b
some-injective e = cc

module _ {W : Type 0} (transport : Request → Exec W Response) where
  -- If a helper's call returns, the transport has answered with what the helper expects.
  pub execute_as-eq-ok :
      {A : Type 0} (request : Request) (read : ResponseBody → Option A) (w : W) {a : A} {w' : W}
      → execute_as transport request read w ≡ (some (ok a), w')
      → (response : Response) × (transport request w ≡ (some (ok response), w'))
        × (is_exception response.body ≡ false)
        × (read response.body ≡ some a)
  unfolding execute_as
  execute_as-eq-ok request read w {a} {w'} e =
      let (response, w1, asked, lifted) = bind-eq-ok (transport request) _ w e in
      let passed : checked (request_code request.body) read response.body ≡ ok a =
        some-injective (ap (λ end. end.0) lifted) in
      let (served, fields) = checked-eq-ok (request_code request.body) read response.body passed in
      (
        response,
        asked ∙ ap (λ t. (some (ok response), t)) (ap (λ end. end.1) lifted),
        served,
        fields,
      )

  pub execute_as_answered :
      {A : Type 0} (request : Request) (read : ResponseBody → Option A) {response : Response}
      {a : A} {w w' : W}
      → transport request w ≡ (some (ok response), w')
      → checked (request_code request.body) read response.body ≡ ok a
      → execute_as transport request read w ≡ (some (ok a), w')
  unfolding execute_as
  execute_as_answered request read {w' = w'} asked passed =
      bind_ok (transport request) _ asked ∙ ap (λ r. (some r, w')) passed

  -- What the transport answers when it is asked for registers that it has just written
  abbrev pub Keeps : Type 0
  Keeps =
      (unit_id address : ℕ) (registers : List ℕ) (response : Response) (w w1 : W)
      → transport (new unit_id (write_multiple_registers_request address registers)) w
        ≡ (some (ok response), w1)
      → is_exception response.body ≡ false
      → (w2 : W) × (transport
            (new unit_id (read_holding_registers_request address (length registers))) w1
          ≡ (some (ok (new unit_id (read_holding_registers_response registers))), w2))

  module _ {V : Type 0} (py : Objects V) (default_unit_id : ℕ) (fmt : String) where
    -- If `write_registers` returns for a list of values in a format that gives back what it packs,
    -- over a transport that keeps what is written, then `read_holding_registers` with the same
    -- format returns this list.
    pub write_registers-read_holding_registers :
        (address n : ℕ) (unit_id : Option ℕ) {value : V} {items : List V} {raw : Bytes} (w : W)
        {w1 : W}
        → Keeps
        → Restores py fmt
        → IsPacked py fmt value items raw
        → write_registers transport default_unit_id py address value unit_id (some fmt) w
          ≡ (some (ok n), w1)
        → (w2 : W) × (read_holding_registers transport default_unit_id py address
              (length raw / 2)
              (some fmt)
              unit_id
              w1
            ≡ (some (ok (unpacked items)), w2))
    unfolding write_registers read_holding_registers write_words payload_of checked expect
        holding_of
    write_registers-read_holding_registers address n unit_id {value} {items} {raw} w {w1} keeps
          restores p e =
        let sent_words : write_words transport default_unit_id address (pairs raw) unit_id w
            ≡ (some (ok n), w1) =
          sym (
            bind_ok (lift (encode_register_payload py fmt value))
              (λ packed. write_words transport default_unit_id address packed unit_id)
              (ap (λ r. (some r, w)) (encode_register_payload-eq-ok py fmt p)))
          ∙ e in
        let (response, asked, served, fields) =
          execute_as-eq-ok _ register_quantity_of w sent_words in
        let (w2, kept) =
          keeps (unit default_unit_id unit_id) address (pairs raw) response w w1 asked served in
        let reading : ℕ → Request =
          λ q. new (unit default_unit_id unit_id) (read_holding_registers_request address q) in
        let asked_back : transport (reading (length raw / 2)) w1 ≡ _ =
          ap (λ q. transport (reading q) w1) (sym (length-pairs raw p.even)) ∙ kept in
        (
          w2,
          bind_ok (execute_as transport (reading (length raw / 2)) holding_of)
                (λ values. lift (decode_registers py values (some fmt)))
                (execute_as_answered (reading (length raw / 2)) holding_of asked_back refl)
              ∙ ap (λ r. (some r, w2)) (decode_registers-pairs py fmt restores p.packs p.even),
        )
