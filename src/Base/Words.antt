-- ===== src/Base/Words.antt =====
-- Fixed-width integers in bytes: `struct.pack` and `struct.unpack` at ">H" and ">HH",
-- `int.to_bytes` and `int.from_bytes` at two bytes, `bytes([…])`.
use Prim.Native.Nat.{ℕ, ◌+◌, ◌-◌, ◌*◌, ◌/◌, ◌%◌, ◌^◌, ◌<◌}
use mathlib.Core.Path.{◌≡◌}
use mathlib.Core.List.{List, [], ◌∷◌, ◌++◌}
use native.Mathlib.Omega.{arith}
use modbusgw.Base.Tests.{ltb, if◌then◌else◌}
use modbusgw.Base.Lists.{length, take, drop}
use modbusgw.Base.Errors.{Result, ok, raise, struct_error, byte_range, overflow_error, ◌>>=◌}

abbrev pub Bytes : Type 0
Bytes = List ℕ

abbrev pub IsByte : ℕ → Type 0
IsByte b = b < 256

-- The two bytes of a number below 2 ^ 16, high byte first.
abbrev pub be16 : ℕ → Bytes
be16 v = v / 256 ∷ v % 256 ∷ []

abbrev pub le16 : ℕ → Bytes
le16 v = v % 256 ∷ v / 256 ∷ []

-- `struct.pack(">H", v)`
abbrev pub pack_h : ℕ → Result Bytes
pack_h v = if ltb v (2 ^ 16) then ok (be16 v) else raise struct_error

-- `struct.pack(">B", v)`
abbrev pub pack_b : ℕ → Result Bytes
pack_b v = if ltb v 256 then ok (v ∷ []) else raise struct_error

-- `struct.pack(">HH", a, b)`
abbrev pub pack_hh : ℕ → ℕ → Result Bytes
pack_hh a b = do x ← pack_h a; y ← pack_h b; ok (x ++ y)

-- `struct.unpack(">HH", data)`, which wants exactly four bytes
abbrev pub unpack_hh : Bytes → Result (ℕ × ℕ)
unpack_hh (a ∷ b ∷ c ∷ d ∷ []) = ok (a * 256 + b, c * 256 + d)
unpack_hh _ = raise struct_error

-- `v.to_bytes(2, 'big')` and `v.to_bytes(2, 'little')`
abbrev pub to_bytes_big : ℕ → Result Bytes
to_bytes_big v = if ltb v (2 ^ 16) then ok (be16 v) else raise overflow_error

abbrev pub to_bytes_little : ℕ → Result Bytes
to_bytes_little v = if ltb v (2 ^ 16) then ok (le16 v) else raise overflow_error

-- `int.from_bytes(data, 'big')` and `int.from_bytes(data, 'little')`
abbrev pub from_bytes_big_acc : ℕ → Bytes → ℕ
from_bytes_big_acc n [] = n
from_bytes_big_acc n (b ∷ bs) = from_bytes_big_acc (n * 256 + b) bs

abbrev pub from_bytes_big : Bytes → ℕ
from_bytes_big = from_bytes_big_acc 0

abbrev pub from_bytes_little : Bytes → ℕ
from_bytes_little [] = 0
from_bytes_little (b ∷ bs) = b + 256 * from_bytes_little bs

-- `bytes([a])` and `bytes([a, b])`
abbrev pub bytes_one : ℕ → Result Bytes
bytes_one a = if ltb a 256 then ok (a ∷ []) else raise byte_range

abbrev pub bytes_two : ℕ → ℕ → Result Bytes
bytes_two a b = do x ← bytes_one a; y ← bytes_one b; ok (x ++ y)

-- `data[:-2]` and `data[-2:]`
abbrev pub but_last_two : Bytes → Bytes
but_last_two xs = take (length xs - 2) xs

abbrev pub last_two : Bytes → Bytes
last_two xs = drop (length xs - 2) xs

pub from_bytes_little-le16 : (v : ℕ) → from_bytes_little (le16 v) ≡ v
from_bytes_little-le16 v = omega arith
