-- ===== src/Base/WordLaws.antt =====
-- Two-byte fields: what was packed, and that it is read back.
use Prim.Native.Nat.{ℕ, ◌^◌, ◌<◌}
use mathlib.Core.Path.{◌≡◌}
use mathlib.Core.List.{[], ◌∷◌, ◌++◌}
use native.Mathlib.Omega.{arith}
use modbusgw.Base.Errors.{ok}
use modbusgw.Base.Words.{Bytes, be16, pack_hh, bytes_one}

pub pack_hh-eq-ok :
    (a b : ℕ) {p : Bytes}
    → pack_hh a b ≡ ok p
    → (a < 2 ^ 16) × (b < 2 ^ 16) × (p ≡ be16 a ++ be16 b)
pack_hh-eq-ok a b h = ground arith

pub bytes_one-eq-ok : (a : ℕ) {p : Bytes} → bytes_one a ≡ ok p → (a < 256) × (p ≡ a ∷ [])
bytes_one-eq-ok a h = ground arith
