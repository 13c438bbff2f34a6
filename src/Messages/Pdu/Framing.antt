-- ===== src/Messages/Pdu/Framing.antt =====
-- `to_adu` by its outcomes, for any class of data unit.
use modbusgw.Base.{Result-cases, inl, inr, ◌<◌, ◌∷◌, Bytes, ok, arith, ◌≡◌}
use modbusgw.Messages.Pdu.{Pdu, PduMethods, to_adu}

module _ {B : Type 0} ⦃m : PduMethods B⦄ where
  -- A frame is the unit, the function code and the payload.
  pub to_adu-eq-ok :
      (pdu : Pdu B) {adu : Bytes}
      → (to_adu pdu).0 ≡ ok adu
      → (payload : Bytes) × (m.encode pdu.body ≡ ok payload)
        × (adu ≡ pdu.unit_id ∷ m.function_code pdu.body ∷ payload)
        × (pdu.unit_id < 256)
        × (m.function_code pdu.body < 256)
  unfolding to_adu
  to_adu-eq-ok pdu h = elim (Result-cases (m.encode pdu.body)) [
    | inl (payload, e) ↦ (payload, e, ground arith, ground arith, ground arith)
    | inr (x, e) ↦ absurd (ground arith)
  ]

  pub to_adu-encode :
      (pdu : Pdu B) {payload : Bytes}
      → m.encode pdu.body ≡ ok payload
      → pdu.unit_id < 256
      → m.function_code pdu.body < 256
      → (to_adu pdu).0 ≡ ok (pdu.unit_id ∷ m.function_code pdu.body ∷ payload)
  unfolding to_adu
  to_adu-encode pdu e hu hc = ground arith
