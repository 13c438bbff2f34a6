-- ===== src/Frontends/Tcp/Tests.antt =====
-- The policies at a frontend with one network and one name. Addresses are numbers here, and a
-- network is the numbers below a bound.
use modbusgw.Base.{ℕ, ltb, Bool, true, [], ◌∷◌, Option, none, some}
use modbusgw.Base.Texts.{Text}
use modbusgw.Frontends.Tcp.{TlsConfig, Listener, Certificate}

abbrev tls : TlsConfig
tls = record {
  ca_file = some (b'c' ∷ []);
  cert_file = none;
  key_file = none;
  require_client_cert = true;
  client_dn_allow = (b'C' ∷ b'N' ∷ b'=' ∷ b'a' ∷ []) ∷ [];
}

abbrev read_address : Text → Option ℕ
read_address [] = none
read_address (c ∷ cs) = some c

abbrev below : ℕ → ℕ → Bool
below net ip = ltb ip net

abbrev built : Listener ℕ
built = record {
  allow = b'9' ∷ [];
  dn_allow = some ((b'c' ∷ b'n' ∷ b'=' ∷ b'a' ∷ []) ∷ []);
  client_counter = 0;
}

-- A certificate whose subject has the common name `A`
abbrev certificate : Certificate
certificate = some (
    some (
      (((b'c' ∷ b'o' ∷ b'm' ∷ b'm' ∷ b'o' ∷ b'n' ∷ b'N' ∷ b'a' ∷ b'm' ∷ b'e' ∷ []), b'A' ∷ []) ∷ [])
      ∷ []))
