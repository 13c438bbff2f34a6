-- ===== src/Frontends/Tcp/Policy.antt =====
-- Which clients are admitted.
use modbusgw.Base.{
  ℕ, Bool, true, not, List, [], map, Option, none, some, if◌then◌else◌, ◌⊎◌, ◌≡◌, ◌≢◌,
}
use modbusgw.Base.Texts.{Text}
use modbusgw.Frontends.Tcp.{Certificate, TlsConfig, Listener, normalize_dn}
use modbusgw.Frontends.Tcp.Subjects.{Any, joined, HasSubject}

module _ {Ip Net : Type 0} (strip lower : Text → Text) (ip_address : Text → Option Ip)
    (contains : Net → Ip → Bool) where
  -- An entry of the list and a name agree but for case and the white space around them.
  abbrev pub Names : List Text → Text → Type 0
  Names entries dn = Any (λ entry. lower (strip entry) ≡ lower (strip dn)) entries

  -- The address is one that `ipaddress` reads, and in one of the networks if there are any.
  abbrev pub InNetworks : List Net → Text → Type 0
  InNetworks nets text =
      (ip : Ip) × (ip_address text ≡ some ip)
      × ((nets ≡ []) ⊎ Any (λ net. contains net ip ≡ true) nets)

  abbrev admitted : Bool → Bool → ℕ → Listener Net → Listener Net → Option ℕ
  admitted a b n l k =
      let end : Option ℕ × Listener Net =
        if not a then (none, l) else if not b then (none, k) else (some n, k) in
      end.0

  -- Either the policy on names is off, or it is on and certificates are asked for.
  abbrev Policy : TlsConfig → List Text → Option (List Text) → Type 0
  Policy tls entries policy =
      ((entries ≡ []) × (policy ≡ none))
      ⊎ ((entries ≢ [])
          × (tls.require_client_cert ≡ true)
          × (policy ≡ some (map (normalize_dn strip lower) entries)))

  abbrev pub DnAllowed : List Text → Option Text → Type 0
  DnAllowed entries dn = (entries ≡ []) ⊎ ((name : Text) × (dn ≡ some name) × Names entries name)

  -- The names that the certificate can agree with, in the words of its subject
  abbrev pub SubjectAllowed : List Text → Certificate → List Text → Type 0
  SubjectAllowed entries certificate parts =
      (entries ≡ []) ⊎ (HasSubject certificate × Names entries (joined parts))
