-- ===== src/Client/Facade/Calls/OverSerial.antt =====
-- A helper of `ModbusClient` over the serial transport.
use modbusgw.Base.{
  ℕ, ◌%◌, ◌^◌, ◌≤◌, true, List, [], ◌++◌, map, Option, none, some, length, Bytes, ok, ◌≡◌, refl,
  le16,
}
use modbusgw.Base.Exec.{lift}
use modbusgw.Base.Exec.Runs.{bind_ok}
use modbusgw.Messages.Pdu.{new, to_adu}
use modbusgw.Messages.Requests.{request_methods, read_holding_registers_request}
use modbusgw.Messages.Responses.{response_methods, read_holding_registers_response}
use modbusgw.Client.Codecs.{client_crc}
use modbusgw.Client.Serial.{SerialClient, Port, send, execute}
use modbusgw.Client.Serial.Exchange.{Delivers, NoneBefore, execute-arrived}
use modbusgw.Client.Facade.{Objects, words, holding_of, checked, expect, decode_registers}
use modbusgw.Client.Facade.Calls.{unit, execute_as, read_holding_registers}
use modbusgw.Client.Facade.Calls.ReadBack.{execute_as_answered}

module _ {V W : Type 0} (py : Objects V) (port : Port W) (default_unit_id : ℕ) where
  -- If `to_adu` writes the request, its frame is sent over an open port without an error, and a
  -- device answers before the clock runs out with a response for holding registers that `to_adu`
  -- writes in at most 254 bytes, whose bytes arrive one at a time and of which no shorter part passes
  -- for a frame, then `read_holding_registers` without a format returns the registers of the response,
  -- each cut to 16 bits, and the client keeps its port.
  pub read_holding_registers-execute :
      (address quantity : ℕ) (unit_id : Option ℕ) (device : ℕ) (values : List ℕ) (c : SerialClient)
      (w w1 w2 : W) {adu reply : Bytes}
      → c.has_port ≡ true
      → (to_adu
          (new (unit default_unit_id unit_id) (read_holding_registers_request address quantity))).0
        ≡ ok adu
      → send port (adu ++ le16 (client_crc adu)) (c, w) ≡ (some (ok tt), (c, w1))
      → (to_adu (new device (read_holding_registers_response values))).0 ≡ ok reply
      → length reply ≤ 254
      → Delivers port (reply ++ le16 (client_crc reply)) w1 w2
      → length (reply ++ le16 (client_crc reply)) ≤ port.rounds w1
      → NoneBefore port [] (reply ++ le16 (client_crc reply))
      → read_holding_registers
          (execute port)
          default_unit_id
          py
          address
          quantity
          none
          unit_id
          (c, w)
        ≡ (some (ok (words (map (λ v. v % 2 ^ 16) values))), (c, w2))
  unfolding read_holding_registers checked expect holding_of decode_registers
  read_holding_registers-execute address quantity unit_id device values c w w1 w2 hc ha hs he h d k
        none_before =
      let request =
        new (unit default_unit_id unit_id) (read_holding_registers_request address quantity) in
      let answer = new device (read_holding_registers_response values) in
      let asked = execute-arrived port c request answer w w1 w2 hc ha hs tt he h d k none_before in
      bind_ok (execute_as (execute port) request holding_of)
        (λ registers. lift (decode_registers py registers none))
        (execute_as_answered (execute port) request holding_of asked refl)
