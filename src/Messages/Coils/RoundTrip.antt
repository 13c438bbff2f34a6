-- ===== src/Messages/Coils/RoundTrip.antt =====
-- What is packed is unpacked again, bit by bit.
use modbusgw.Base.{
  get_or_ext, min, length-replicate, get_or-replicate, ℕ, zero, suc, ◌+◌, ◌-◌, ◌*◌, ◌/◌, ◌%◌, ◌^◌,
  ◌<◌, ◌≤◌, bit_or, Bool, true, false, List, [], ◌∷◌, ◌==◌, leb, length, get_or, set, replicate,
  Bytes, ◌≡◌, refl, ap, ◌∙◌, ◌&&◌, ◌||◌, arith, length-set, length-replicate, get_or-set_self,
  get_or-set_ne, get_or-replicate,
}
use modbusgw.Base.Bits.{bit, bit_and_single, bit-bit_or_single}
use modbusgw.Messages.Coils.{pack_loop, pack_coils, unpack_loop, unpack_coils}

-- Coil `i` as the packed bytes hold it.
abbrev pub coil : Bytes → ℕ → Bool
coil xs i = bit (get_or xs (i / 8) 0) (i % 8)

-- One round of `pack_loop` on a set bit.
abbrev mark : Bytes → ℕ → Bytes
mark xs i = set xs (i / 8) (bit_or (get_or xs (i / 8) 0) (2 ^ (i % 8)))

coil-mark :
    (xs : Bytes) (i j : ℕ) → i / 8 < length xs → coil (mark xs i) j ≡ ((i == j) || coil xs j)
coil-mark xs i j h = ground (
  arith,
  get_or-set_self xs (i / 8) (bit_or (get_or xs (i / 8) 0) (2 ^ (i % 8))) 0 h,
  get_or-set_ne xs (i / 8) (j / 8) (bit_or (get_or xs (i / 8) 0) (2 ^ (i % 8))) 0,
  bit-bit_or_single (i % 8) (j % 8) (get_or xs (i / 8) 0),
)

get_or-cons :
    (x : Bool) (xs : List Bool) (k : ℕ) → 0 < k → get_or (x ∷ xs) k false ≡ get_or xs (k - 1) false
get_or-cons x xs zero h = absurd (omega arith)
get_or-cons x xs (suc k) h = ap (λ t. get_or xs t false) (omega arith)

-- The coils that are set after the loop: those before it, and those of the bits that it went over.
coil-pack_loop :
    (bits : List Bool) (i : ℕ) (xs : Bytes) (j : ℕ)
    → i + length bits ≤ 8 * length xs
    → coil (pack_loop bits i xs) j ≡ (coil xs j || (leb i j && get_or bits (j - i) false))
unfolding pack_loop
coil-pack_loop [] i xs j h = ground arith
coil-pack_loop (true ∷ bits) i xs j h = ground (
  arith,
  coil-pack_loop bits (i + 1) (mark xs i) j,
  coil-mark xs i j,
  length-set xs (i / 8) (bit_or (get_or xs (i / 8) 0) (2 ^ (i % 8))),
  get_or-cons true bits (j - i),
)
coil-pack_loop (false ∷ bits) i xs j h =
    ground (arith, coil-pack_loop bits (i + 1) xs j, get_or-cons false bits (j - i))

length-pack_loop :
    (bits : List Bool) (i : ℕ) (xs : Bytes) → length (pack_loop bits i xs) ≡ length xs
unfolding pack_loop
length-pack_loop [] i xs = refl
length-pack_loop (true ∷ bits) i xs = length-pack_loop bits (i + 1) _ ∙ length-set xs _ _
length-pack_loop (false ∷ bits) i xs = length-pack_loop bits (i + 1) xs

pub length-pack_coils : (bits : List Bool) → length (pack_coils bits) ≡ (length bits + 7) / 8
unfolding pack_coils
length-pack_coils bits = length-pack_loop bits 0 _ ∙ length-replicate _ 0

length-unpack_loop :
    (xs : Bytes) (left i : ℕ) → length (unpack_loop xs left i) ≡ min left (8 * length xs - i)
unfolding unpack_loop
length-unpack_loop xs zero i = omega arith
length-unpack_loop xs (suc left) i = ground (arith, length-unpack_loop xs left (i + 1))

get_or-unpack_loop :
    (xs : Bytes) (left i k : ℕ)
    → i + left ≤ 8 * length xs
    → k < left
    → get_or (unpack_loop xs left i) k false ≡ coil xs (i + k)
unfolding unpack_loop
get_or-unpack_loop xs zero i k h l = absurd (omega arith)
get_or-unpack_loop xs (suc left) i zero h l =
    ground (arith, bit_and_single (i % 8) (get_or xs (i / 8) 0))
get_or-unpack_loop xs (suc left) i (suc k) h l =
    ground (arith, get_or-unpack_loop xs left (i + 1) k)

bit_of_zero : (k : ℕ) → bit 0 k ≡ false
bit_of_zero zero = refl
bit_of_zero (suc k) = bit_of_zero k

minus_zero : (j : ℕ) → j - 0 ≡ j
minus_zero j = omega arith

coil-pack_coils : (bits : List Bool) (j : ℕ) → coil (pack_coils bits) j ≡ get_or bits j false
unfolding pack_coils
coil-pack_coils bits j =
    let blank : Bytes = replicate ((length bits + 7) / 8) 0 in
    ground (
      arith,
      coil-pack_loop bits 0 blank j,
      length-replicate {A = ℕ} ((length bits + 7) / 8) 0,
      get_or-replicate {A = ℕ} ((length bits + 7) / 8) (j / 8) 0,
      bit_of_zero (j % 8),
      ap (λ t. get_or bits t false) (minus_zero j),
    )

-- Unpacking as many coils as were packed gives them back, whatever their number.
pub unpack_coils-pack_coils :
    (bits : List Bool) → unpack_coils (pack_coils bits) (length bits) ≡ bits
unfolding unpack_coils
unpack_coils-pack_coils bits =
    let room : 0 + length bits ≤ 8 * length (pack_coils bits) =
      omega (arith, length-pack_coils bits) in
    let len = length-unpack_loop (pack_coils bits) (length bits) 0 in
    get_or_ext false _ bits (omega (arith, len, room)) (λ k l.
      get_or-unpack_loop (pack_coils bits) (length bits) 0 k room (omega arith)
      ∙ coil-pack_coils bits (0 + k)
      ∙ ap (λ t. get_or bits t false) (omega arith))
