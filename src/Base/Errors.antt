-- ===== src/Base/Errors.antt =====
-- Python's exceptions as values. A call that may raise returns a `Result`.
use Prim.Native.Nat.{ℕ}
use Prim.Native.String.{String}
use mathlib.Core.Path.{◌≡◌, refl}
use mathlib.Core.Logic.{◌⊎◌, inl, inr}
use mathlib.Core.Bool.{Bool, true, false}

-- The exceptions that the modelled code raises itself carry their message. `struct_error` and
-- `byte_range` are raised by `struct.pack` and by `bytes([…])` on a number that does not fit.
pub data Exn : Type 0 where
  value_error type_error runtime_error timeout_error connection_error : String → Exn
  transport_error protocol_error connection_closed cli_error attribute_error argument_type_error :
      String → Exn
  os_error process_lookup_error permission_error serial_exception : Exn
  modbus_server_error : ℕ → ℕ → Exn
  struct_error byte_range overflow_error incomplete_read : Exn

-- `except OSError`: which exceptions that clause takes
abbrev pub is_os_error : Exn → Bool
is_os_error (timeout_error text) = true
is_os_error (connection_error text) = true
is_os_error os_error = true
is_os_error process_lookup_error = true
is_os_error permission_error = true
is_os_error serial_exception = true
is_os_error _ = false

pub data Result {ℓ} (A : Type ℓ) : Type ℓ where
  ok : A → Result A
  raise : Exn → Result A

-- Runs the second call on what the first one returned; what that one raises goes out.
abbrev pub ◌>>=◌ {ℓ ℓ'} : {A : Type ℓ} {B : Type ℓ'} → Result A → (A → Result B) → Result B
raise x >>= next = raise x
ok value >>= next = next value

abbrev pub ◌>>◌ {ℓ ℓ'} : {A : Type ℓ} {B : Type ℓ'} → Result A → Result B → Result B
first >> second = first >>= λ value. second

infixl 5 ◌>>=◌ ◌>>◌
-- `if test: raise e`
abbrev pub raise_if : Bool → Exn → Result (Unit {0})
raise_if true e = raise e
raise_if false e = ok tt

-- If the whole returns, the first call returned, and the second one on its value.
pub >>=-eq-ok {ℓ ℓ'} :
    {A : Type ℓ} {B : Type ℓ'} (first : Result A) (next : A → Result B) {out : B}
    → (first >>= next) ≡ ok out
    → (value : A) × (first ≡ ok value) × (next value ≡ ok out)
>>=-eq-ok (raise x) next e = cc
>>=-eq-ok (ok value) next e = (value, refl, e)

pub Result-cases {ℓ} :
    {A : Type ℓ} (r : Result A) → ((a : A) × (r ≡ ok a)) ⊎ ((e : Exn) × (r ≡ raise e))
Result-cases (ok a) = inl (a, refl)
Result-cases (raise e) = inr (e, refl)
