-- ===== src/Client/Serial/Tests.antt =====
-- The theorems on the serial client, and on the facade above it, at a port that gives the bytes of a list.
use modbusgw.Base.{
  ℕ, ◌≤◌, true, false, [], ◌∷◌, ◌++◌, none, some, length, take, drop, Bytes, ok, ◌≡◌, refl, arith,
  le16, zero, suc,
}
use modbusgw.Base.Exec.{◌>>=◌}
use modbusgw.Base.Exec.Runs.{Ends}
use modbusgw.Messages.Pdu.{new, to_adu}
use modbusgw.Messages.Requests.{
  Request, request_code, encode_request, read_coils_request, request_methods,
  read_holding_registers_request, pack_values,
}
use modbusgw.Messages.Responses.{
  Response, response_methods, encode_response, response_code, exception_response,
  read_holding_registers_response, encode_values,
}
use modbusgw.Messages.Responses.Framing.{arrived}
use modbusgw.Client.Codecs.{client_crc, shift_loop, shift_rounds, shift_bit}
use modbusgw.Client.Serial.{SerialClient, Port, send, read_frame, has_valid_crc, execute}
use modbusgw.Client.Serial.Laws.{Bounded, Stripped, read_frame-Stripped}
use modbusgw.Client.Facade.{Objects, words}
use modbusgw.Client.Facade.Calls.{read_holding_registers}
use modbusgw.Client.Facade.Calls.OverSerial.{read_holding_registers-execute}
use modbusgw.Client.Serial.Exchange.{Delivers, NoneBefore, execute-arrived}

-- A read gives what is left, up to the size that is asked for.
abbrev line : Port Bytes
line = record {
  create = λ w. (ok tt, w);
  has_reset = true;
  reset_input_buffer = λ w. (ok tt, w);
  write = λ frame w. (ok tt, w);
  flush = λ w. (ok tt, w);
  read = λ n w. (ok (take n w), drop n w);
  close_port = λ w. w;
  rounds = λ w. 300;
}

abbrev open_client : SerialClient
open_client = record { has_port = true }

length-take_most : (n : ℕ) (xs : Bytes) → length (take n xs) ≤ n
length-take_most zero xs = omega arith
length-take_most (suc n) [] = omega arith
length-take_most (suc n) (x ∷ xs) = omega (arith, length-take_most n xs)

line-Bounded : Bounded line
line-Bounded n w chunk e = grind (arith, length-take_most n w)

-- A frame after which the line is quiet.
read_frame-Stripped_example :
    Ends
      (Stripped line)
      (λ s. Unit {0})
      (read_frame line (open_client, 1 ∷ 129 ∷ 2 ∷ 193 ∷ 145 ∷ 7 ∷ []))
read_frame-Stripped_example =
    read_frame-Stripped line (open_client, 1 ∷ 129 ∷ 2 ∷ 193 ∷ 145 ∷ 7 ∷ []) line-Bounded

abbrev two_coils : Request
two_coils = new 1 (read_coils_request 0 2)

-- Illegal data address.
abbrev refusal : Response
refusal = new 1 (exception_response 1 2)

two_coils_sent : (to_adu two_coils).0 ≡ ok (1 ∷ 1 ∷ 0 ∷ 0 ∷ 0 ∷ 2 ∷ [])
unfolding to_adu encode_request request_code
two_coils_sent = refl

abbrev refusal_bytes : Bytes
refusal_bytes = 1 ∷ 129 ∷ 2 ∷ []

refusal_sent : (to_adu refusal).0 ≡ ok refusal_bytes
unfolding to_adu encode_response response_code
refusal_sent = refl

abbrev refusal_frame : Bytes
refusal_frame = refusal_bytes ++ le16 (client_crc refusal_bytes)

written :
    (frame : Bytes)
    → send line frame (open_client, refusal_frame) ≡ (some (ok tt), (open_client, refusal_frame))
unfolding send ◌>>=◌
written frame = refl

delivered : Delivers line refusal_frame refusal_frame []
delivered = (_, refl, (_, refl, (_, refl, (_, refl, (_, refl, refl)))))

whole : NoneBefore line [] refusal_frame
unfolding has_valid_crc client_crc shift_loop shift_rounds shift_bit
whole = (refl, (refl, (refl, (refl, tt))))

execute-arrived_example :
    execute line two_coils (open_client, refusal_frame)
    ≡ (some (ok (arrived refusal refusal_bytes none)), (open_client, []))
execute-arrived_example =
    execute-arrived line open_client two_coils refusal refusal_frame refusal_frame [] refl
      two_coils_sent (written _) tt refusal_sent (omega arith) delivered (omega arith) whole

-- The facade above the same line: two registers of device 1.
abbrev objects : Objects ℕ
objects = record {
  as_bytes = λ v. none;
  is_text = λ v. false;
  as_sequence = λ v. none;
  iterate = λ v. ok (v ∷ []);
  int = λ v. ok v;
  pack = λ fmt items. ok items;
  unpack = λ fmt raw. ok raw;
  calcsize = λ fmt. ok 0;
}

two_registers_asked :
    (to_adu (new 1 (read_holding_registers_request 0 2))).0 ≡ ok (1 ∷ 3 ∷ 0 ∷ 0 ∷ 0 ∷ 2 ∷ [])
unfolding to_adu encode_request request_code
two_registers_asked = refl

abbrev registers_bytes : Bytes
registers_bytes = 1 ∷ 3 ∷ 4 ∷ 2 ∷ 1 ∷ 0 ∷ 7 ∷ []

registers_sent :
    (to_adu (new 1 (read_holding_registers_response (513 ∷ 7 ∷ [])))).0 ≡ ok registers_bytes
unfolding to_adu encode_response response_code encode_values pack_values
registers_sent = refl

abbrev registers_frame : Bytes
registers_frame = registers_bytes ++ le16 (client_crc registers_bytes)

request_written :
    (frame : Bytes)
    → send line frame (open_client, registers_frame)
      ≡ (some (ok tt), (open_client, registers_frame))
unfolding send ◌>>=◌
request_written frame = refl

registers_delivered : Delivers line registers_frame registers_frame []
registers_delivered = (
  _,
  refl,
  (_, refl, (_, refl, (_, refl, (_, refl, (_, refl, (_, refl, (_, refl, (_, refl, refl)))))))),
)

registers_whole : NoneBefore line [] registers_frame
unfolding has_valid_crc client_crc shift_loop shift_rounds shift_bit
registers_whole = (refl, (refl, (refl, (refl, (refl, (refl, (refl, (refl, tt))))))))

read_holding_registers-execute_example :
    read_holding_registers (execute line) 1 objects 0 2 none none (open_client, registers_frame)
    ≡ (some (ok (words (513 ∷ 7 ∷ []))), (open_client, []))
read_holding_registers-execute_example =
    read_holding_registers-execute objects line 1 0 2 none 1 (513 ∷ 7 ∷ []) open_client
      registers_frame registers_frame [] refl two_registers_asked (request_written _) registers_sent
      (omega arith) registers_delivered (omega arith) registers_whole
