-- ===== src/Frontends/Tcp.antt =====
-- modbusgw/frontends/tcp_modbus.py: who may connect, by address and by the subject of the client's
-- certificate. The loop over a client's stream and the replies are in Frontends/Mbap. Python's
-- module ipaddress is a parameter: addresses, networks, and which addresses lie in a network. So are
-- the methods strip and lower of a text, which follow Unicode.
pub mod Policy
pub mod Subjects
mod Tests
use modbusgw.Base.{
  ℕ, ◌+◌, Bool, true, false, not, ◌&&◌, ◌||◌, List, [], ◌∷◌, ◌++◌, map, Option, none, some,
  if◌then◌else◌, Result, ok, raise, value_error,
}
use modbusgw.Base.Texts.{Text, text_eq}

pub record TlsConfig : Type 0 where
  pub ca_file : Option Text
  pub cert_file : Option Text
  pub key_file : Option Text
  pub require_client_cert : Bool
  pub client_dn_allow : List Text

-- `ssl.CERT_REQUIRED` and `ssl.CERT_OPTIONAL`
pub data VerifyMode : Type 0 where
  cert_required cert_optional : VerifyMode

-- What the policies need of a frontend: `_allow`, `_dn_allow` and `_client_counter`
pub record Listener (Net : Type 0) : Type 0 where
  pub allow : List Net
  pub dn_allow : Option (List Text)
  pub client_counter : ℕ

-- The `verify_mode` that `_build_ssl_context` sets
pub verify_mode : TlsConfig → VerifyMode
verify_mode tls = if tls.require_client_cert then cert_required else cert_optional

listener : {Net : Type 0} → List Net → Result (Option (List Text)) → Result (Listener Net)
listener nets (raise e) = raise e
listener nets (ok policy) = ok (record { allow = nets; dn_allow = policy; client_counter = 0 })

-- `value in self._dn_allow`
pub member : Text → List Text → Bool
member x [] = false
member x (y ∷ ys) = text_eq y x || member x ys

-- `strip` and `lower` are Python's.
module _ (strip lower : Text → Text) where
  -- `_normalize_dn`
  pub normalize_dn : Text → Text
  normalize_dn value = lower (strip value)

  -- The end of `__init__`: the names that are allowed, or none where any is
  dn_policy : TlsConfig → List Text → Result (Option (List Text))
  dn_policy tls [] = ok none
  dn_policy tls (entry ∷ rest) =
      if not tls.require_client_cert
      then raise (value_error "client_dn_allow requires require_client_cert=True")
      else elim tls.ca_file [
        | none ↦ raise (value_error "client_dn_allow requires a ca_file to be configured")
        | some file ↦ ok (some (map normalize_dn (entry ∷ rest)))
      ]

  tls_policy : Option TlsConfig → Result (Option (List Text))
  unfolding dn_policy
  tls_policy none = ok none
  tls_policy (some tls) = dn_policy tls tls.client_dn_allow

  -- `__init__`
  pub new_listener : {Net : Type 0} → List Net → Option TlsConfig → Result (Listener Net)
  unfolding tls_policy listener
  new_listener nets tls = listener nets (tls_policy tls)

  -- `_is_client_dn_allowed`
  pub is_client_dn_allowed : Option (List Text) → Option Text → Bool
  is_client_dn_allowed none dn = true
  is_client_dn_allowed (some allowed) none = false
  is_client_dn_allowed (some allowed) (some dn) = member (normalize_dn dn) allowed

-- A subject is a list of relative names, each a list of attributes with their values.
abbrev pub Subject : Type 0
Subject = List (List (Text × Text))

-- `_DN_ALIASES`
abbrev pub dn_aliases : List (Text × Text)
dn_aliases =
    ((b'c' ∷ b'o' ∷ b'm' ∷ b'm' ∷ b'o' ∷ b'n' ∷ b'N' ∷ b'a' ∷ b'm' ∷ b'e' ∷ []), (b'C' ∷ b'N' ∷ []))
    ∷ (
      (b'c' ∷ b'o' ∷ b'u' ∷ b'n' ∷ b't' ∷ b'r' ∷ b'y' ∷ b'N' ∷ b'a' ∷ b'm' ∷ b'e' ∷ []),
      (b'C' ∷ []),
    )
    ∷ (
      (b'l' ∷ b'o' ∷ b'c' ∷ b'a' ∷ b'l' ∷ b'i' ∷ b't' ∷ b'y' ∷ b'N' ∷ b'a' ∷ b'm' ∷ b'e' ∷ []),
      (b'L' ∷ []),
    )
    ∷ (
      (b's' ∷ b't' ∷ b'a' ∷ b't' ∷ b'e' ∷ b'O' ∷ b'r' ∷ b'P' ∷ b'r' ∷ b'o' ∷ b'v' ∷ b'i' ∷ b'n'
          ∷ b'c' ∷ b'e' ∷ b'N' ∷ b'a' ∷ b'm' ∷ b'e' ∷ []),
      (b'S' ∷ b'T' ∷ []),
    )
    ∷ (
      (b'o' ∷ b'r' ∷ b'g' ∷ b'a' ∷ b'n' ∷ b'i' ∷ b'z' ∷ b'a' ∷ b't' ∷ b'i' ∷ b'o' ∷ b'n' ∷ b'N'
          ∷ b'a' ∷ b'm' ∷ b'e' ∷ []),
      (b'O' ∷ []),
    )
    ∷ (
      (b'o' ∷ b'r' ∷ b'g' ∷ b'a' ∷ b'n' ∷ b'i' ∷ b'z' ∷ b'a' ∷ b't' ∷ b'i' ∷ b'o' ∷ b'n' ∷ b'a'
          ∷ b'l' ∷ b'U' ∷ b'n' ∷ b'i' ∷ b't' ∷ b'N' ∷ b'a' ∷ b'm' ∷ b'e' ∷ []),
      (b'O' ∷ b'U' ∷ []),
    )
    ∷ (
      (b'e' ∷ b'm' ∷ b'a' ∷ b'i' ∷ b'l' ∷ b'A' ∷ b'd' ∷ b'd' ∷ b'r' ∷ b'e' ∷ b's' ∷ b's' ∷ []),
      (b'e' ∷ b'm' ∷ b'a' ∷ b'i' ∷ b'l' ∷ b'A' ∷ b'd' ∷ b'd' ∷ b'r' ∷ b'e' ∷ b's' ∷ b's' ∷ []),
    )
    ∷ []

-- `_DN_ALIASES.get(attr, attr)`, over the table of aliases
label : List (Text × Text) → Text → Text
label [] attr = attr
label ((name, alias) ∷ rest) attr = if text_eq name attr then alias else label rest attr

attributes : List (Text × Text) → List (Text × Text) → List Text
unfolding label
attributes aliases [] = []
attributes aliases ((attr, value) ∷ rest) =
    (label aliases attr ++ (b'=' ∷ value)) ∷ attributes aliases rest

pub components : List (Text × Text) → Subject → List Text
unfolding attributes
components aliases [] = []
components aliases (rdn ∷ rest) = attributes aliases rdn ++ components aliases rest

-- `','.join(components)`
pub join_commas : List Text → Text
join_commas [] = []
join_commas (x ∷ []) = x
join_commas (x ∷ y ∷ rest) = x ++ (b',' ∷ join_commas (y ∷ rest))

-- `_subject_to_string`
pub subject_to_string : Subject → Text
unfolding components join_commas
subject_to_string subject = join_commas (components dn_aliases subject)

-- A connection without TLS, or with it and the certificate's subject, if there are a certificate and a
-- subject in it
abbrev pub Certificate : Type 0
Certificate = Option (Option Subject)

-- `_extract_client_dn`
pub extract_client_dn : Certificate → Option Text
extract_client_dn none = none
extract_client_dn (some none) = none
extract_client_dn (some (some [])) = none
extract_client_dn (some (some (rdn ∷ rest))) = some (subject_to_string (rdn ∷ rest))

module _ {Ip Net : Type 0} (strip lower : Text → Text) (ip_address : Text → Option Ip)
    (contains : Net → Ip → Bool) where
  any_contains : Ip → List Net → Bool
  any_contains ip [] = false
  any_contains ip (net ∷ rest) = contains net ip || any_contains ip rest

  in_allowed : List Net → Option Ip → Bool
  unfolding any_contains
  in_allowed nets none = false
  in_allowed [] (some ip) = true
  in_allowed (net ∷ rest) (some ip) = any_contains ip (net ∷ rest)

  -- `_allow_connection`
  pub allow_connection : List Net → Text → Bool
  unfolding in_allowed
  allow_connection nets ip = in_allowed nets (ip_address ip)

  -- `addr[0] if addr else '0.0.0.0'`
  abbrev pub peer_ip : Option Text → Text
  peer_ip (some ip) = ip
  peer_ip none = b'0' ∷ b'.' ∷ b'0' ∷ b'.' ∷ b'0' ∷ b'.' ∷ b'0' ∷ []

  -- `_handle_client` up to its loop: the client's number, if it is admitted. A client that the
  -- second policy denies has used one up.
  pub connect : Option Text → Certificate → Listener Net → Option ℕ × Listener Net
  connect peer certificate l =
      let number = l.client_counter + 1 in
      let counted = record l { client_counter = number } in
      if not (allow_connection l.allow (peer_ip peer))
      then (none, l)
      else if not (is_client_dn_allowed strip lower l.dn_allow (extract_client_dn certificate))
      then (none, counted)
      else (some number, counted)
