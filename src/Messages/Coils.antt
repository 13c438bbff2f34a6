-- ===== src/Messages/Coils.antt =====
-- `_pack_coils` and `_unpack_coils`: one bit to a coil, lowest bit first.
pub mod RoundTrip
mod Tests
use modbusgw.Base.{
  ℕ, zero, suc, ◌+◌, ◌/◌, ◌%◌, ◌^◌, bit_and, bit_or, Bool, true, false, not, List, [], ◌∷◌, ◌==◌,
  leb, if◌then◌else◌, length, get_or, set, replicate, Bytes,
}

-- `for idx, bit in enumerate(bits): if bit: result[idx // 8] |= 1 << (idx % 8)`
pub pack_loop : List Bool → ℕ → Bytes → Bytes
pack_loop [] idx result = result
pack_loop (bit ∷ bits) idx result = pack_loop bits (idx + 1) (
    if bit
    then set result (idx / 8) (bit_or (get_or result (idx / 8) 0) (2 ^ (idx % 8)))
    else result)

pub pack_coils : List Bool → Bytes
unfolding pack_loop
pack_coils bits = pack_loop bits 0 (replicate ((length bits + 7) / 8) 0)

-- `for idx in range(quantity)`, with the count of rounds to go; a byte that is not there ends it
pub unpack_loop : Bytes → ℕ → ℕ → List Bool
unpack_loop xs zero idx = []
unpack_loop xs (suc left) idx =
    let rest = unpack_loop xs left (idx + 1) in
    if leb (length xs) (idx / 8)
    then []
    else not (bit_and (get_or xs (idx / 8) 0) (2 ^ (idx % 8)) == 0) ∷ rest

pub unpack_coils : Bytes → ℕ → List Bool
unfolding unpack_loop
unpack_coils xs quantity = unpack_loop xs quantity 0
