-- ===== src/Client/Tcp/Tests.antt =====
-- The theorems on the client at a request for two coils, over scripted sockets.
use modbusgw.Base.{
  ℕ, ◌≤◌, true, List, [], ◌∷◌, some, length, take, Bytes, Result, ok, raise, transport_error, ◌≡◌,
  refl, arith, zero, suc,
}
use modbusgw.Messages.Pdu.{new, to_adu}
use modbusgw.Messages.Requests.{
  Request, request_code, encode_request, read_coils_request, request_methods,
}
use modbusgw.Client.Codecs.{build_mbap_frame}
use modbusgw.Client.Tcp.{TcpClient, Sockets, count_from, connect, read_exact, execute}
use modbusgw.Client.Tcp.Laws.{Bounded, HasLength, read_exact-HasLength, execute_keeps_dead_socket}

-- Sockets that give the chunks of a script, each cut to the size that is asked for.
abbrev next_chunk : ℕ → List Bytes → Result Bytes × List Bytes
next_chunk n [] = (ok [], [])
next_chunk n (chunk ∷ rest) = (ok (take n chunk), rest)

abbrev scripted : Sockets (List Bytes)
scripted = record {
  create = λ w. (ok tt, w);
  sendall = λ frame w. (ok tt, w);
  recv = next_chunk;
  close_socket = λ w. w;
}

abbrev open_client : TcpClient
open_client = record { has_socket = true; next_count = 0x10000 }

abbrev two_coils : Request
two_coils = new 1 (read_coils_request 0 2)

length-take_most : (n : ℕ) (xs : Bytes) → length (take n xs) ≤ n
length-take_most zero xs = omega arith
length-take_most (suc n) [] = omega arith
length-take_most (suc n) (x ∷ xs) = omega (arith, length-take_most n xs)

scripted-Bounded : Bounded scripted
scripted-Bounded n [] chunk e = ground arith
scripted-Bounded n (x ∷ rest) chunk e = grind (arith, length-take_most n x)

-- A header of seven bytes, in two chunks.
read_exact-HasLength_example :
    HasLength 7
      (read_exact scripted 7 (open_client, (0 ∷ 1 ∷ 0 ∷ []) ∷ (0 ∷ 0 ∷ 3 ∷ 1 ∷ []) ∷ [])).0
read_exact-HasLength_example =
    read_exact-HasLength scripted 7 (open_client, (0 ∷ 1 ∷ 0 ∷ []) ∷ (0 ∷ 0 ∷ 3 ∷ 1 ∷ []) ∷ [])
      scripted-Bounded

two_coils_sent : (to_adu two_coils).0 ≡ ok (1 ∷ 1 ∷ 0 ∷ 0 ∷ 0 ∷ 2 ∷ [])
unfolding to_adu encode_request request_code
two_coils_sent = refl

two_coils_framed :
    build_mbap_frame (count_from 0x10000).0 (1 ∷ 1 ∷ 0 ∷ 0 ∷ 0 ∷ 2 ∷ [])
    ≡ ok (0 ∷ 1 ∷ 0 ∷ 0 ∷ 0 ∷ 6 ∷ 1 ∷ 1 ∷ 0 ∷ 0 ∷ 0 ∷ 2 ∷ [])
unfolding build_mbap_frame count_from
two_coils_framed = refl

-- The peer has closed.
execute_keeps_dead_socket_example :
    let (outcome, (c, w)) = execute scripted two_coils (open_client, []) in
    (outcome ≡ some (raise (transport_error "Connection closed by peer")))
    × (c.has_socket ≡ true)
    × (connect scripted (c, w) ≡ (some (ok tt), (c, w)))
execute_keeps_dead_socket_example =
    execute_keeps_dead_socket scripted open_client two_coils [] [] [] refl two_coils_sent
      two_coils_framed refl refl
