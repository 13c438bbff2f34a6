-- ===== src/Frontends/Tcp/Subjects.antt =====
-- What a certificate says of its subject, in the words of `_subject_to_string`.
use modbusgw.Base.{
  All, ◌++◌, Bool, true, false, ◌||◌, List, [], ◌∷◌, none, some, if◌then◌else◌, inl, inr, ◌⊎◌, ◌≡◌,
  ◌≢◌, ◌↔◌, refl, ap, subst, sym,
}
use mathlib.Core.List.{append-nil}
use modbusgw.Base.Texts.{Text, text_eq, text_eq_iff}
use modbusgw.Frontends.Tcp.{
  Subject, Certificate, dn_aliases, label, attributes, components, join_commas,
}

-- The predicate at some element
abbrev pub Any {ℓ} : {A : Type ℓ} → (A → Type 0) → List A → Type 0
Any P [] = ⊥
Any P (x ∷ xs) = P x ⊎ Any P xs

pub or_iff :
    {P Q : Type 0} (b c : Bool) → ((b ≡ true) ↔ P) → ((c ≡ true) ↔ Q) → ((b || c) ≡ true) ↔ (P ⊎ Q)
or_iff true c (f, g) (h, k) = (λ e. inl (f refl), λ e. refl)
or_iff false true (f, g) (h, k) = (λ e. inr (h refl), λ e. refl)
or_iff {P} {Q} false false (f, g) (h, k) = (λ e. absurd (cc e), back)
  where
    back : P ⊎ Q → false ≡ true
    back (inl p) = g p
    back (inr q) = k q

-- The attributes of a subject in order
abbrev pub flat : Subject → List (Text × Text)
flat [] = []
flat (rdn ∷ rest) = rdn ++ flat rest

-- The attributes that have a short name in a distinguished name
abbrev pub short_names : List (Text × Text)
short_names =
    ((b'c' ∷ b'o' ∷ b'm' ∷ b'm' ∷ b'o' ∷ b'n' ∷ b'N' ∷ b'a' ∷ b'm' ∷ b'e' ∷ []), (b'C' ∷ b'N' ∷ []))
    ∷ (
      (b'c' ∷ b'o' ∷ b'u' ∷ b'n' ∷ b't' ∷ b'r' ∷ b'y' ∷ b'N' ∷ b'a' ∷ b'm' ∷ b'e' ∷ []),
      (b'C' ∷ []),
    )
    ∷ (
      (b'l' ∷ b'o' ∷ b'c' ∷ b'a' ∷ b'l' ∷ b'i' ∷ b't' ∷ b'y' ∷ b'N' ∷ b'a' ∷ b'm' ∷ b'e' ∷ []),
      (b'L' ∷ []),
    )
    ∷ (
      (b's' ∷ b't' ∷ b'a' ∷ b't' ∷ b'e' ∷ b'O' ∷ b'r' ∷ b'P' ∷ b'r' ∷ b'o' ∷ b'v' ∷ b'i' ∷ b'n'
          ∷ b'c' ∷ b'e' ∷ b'N' ∷ b'a' ∷ b'm' ∷ b'e' ∷ []),
      (b'S' ∷ b'T' ∷ []),
    )
    ∷ (
      (b'o' ∷ b'r' ∷ b'g' ∷ b'a' ∷ b'n' ∷ b'i' ∷ b'z' ∷ b'a' ∷ b't' ∷ b'i' ∷ b'o' ∷ b'n' ∷ b'N'
          ∷ b'a' ∷ b'm' ∷ b'e' ∷ []),
      (b'O' ∷ []),
    )
    ∷ (
      (b'o' ∷ b'r' ∷ b'g' ∷ b'a' ∷ b'n' ∷ b'i' ∷ b'z' ∷ b'a' ∷ b't' ∷ b'i' ∷ b'o' ∷ b'n' ∷ b'a'
          ∷ b'l' ∷ b'U' ∷ b'n' ∷ b'i' ∷ b't' ∷ b'N' ∷ b'a' ∷ b'm' ∷ b'e' ∷ []),
      (b'O' ∷ b'U' ∷ []),
    )
    ∷ (
      (b'e' ∷ b'm' ∷ b'a' ∷ b'i' ∷ b'l' ∷ b'A' ∷ b'd' ∷ b'd' ∷ b'r' ∷ b'e' ∷ b's' ∷ b's' ∷ []),
      (b'e' ∷ b'm' ∷ b'a' ∷ b'i' ∷ b'l' ∷ b'A' ∷ b'd' ∷ b'd' ∷ b'r' ∷ b'e' ∷ b's' ∷ b's' ∷ []),
    )
    ∷ []

-- The short name of an attribute in the table, or the attribute where it has none
abbrev pub IsLabel : List (Text × Text) → Text → Text → Type 0
IsLabel table attr short =
    Any (λ row. (row.0 ≡ attr) × (row.1 ≡ short)) table
    ⊎ (All (λ row. row.0 ≢ attr) table × (short ≡ attr))

-- Each attribute is spelled as its short name, `=`, and its value.
abbrev pub Spelled : List (Text × Text) → List Text → Type 0
Spelled [] [] = Unit {0}
Spelled ((attr, value) ∷ rest) (part ∷ parts) =
    ((short : Text) × IsLabel short_names attr short × (part ≡ short ++ (b'=' ∷ value)))
    × Spelled rest parts
Spelled _ _ = ⊥

-- Parts with commas between
abbrev pub after_commas : List Text → Text
after_commas [] = []
after_commas (part ∷ parts) = (b',' ∷ part) ++ after_commas parts

abbrev pub joined : List Text → Text
joined [] = []
joined (part ∷ parts) = part ++ after_commas parts

pub join_commas-joined : (parts : List Text) → join_commas parts ≡ joined parts
unfolding join_commas
join_commas-joined [] = refl
join_commas-joined (x ∷ []) = sym (append-nil x)
join_commas-joined (x ∷ y ∷ rest) = ap (λ t. x ++ (b',' ∷ t)) (join_commas-joined (y ∷ rest))

IsLabel-label : (table : List (Text × Text)) (attr : Text) → IsLabel table attr (label table attr)
unfolding label
IsLabel-label [] attr = inr (tt, refl)
IsLabel-label ((name, alias) ∷ rest) attr = go (text_eq name attr) refl (IsLabel-label rest attr)
  where
    go :
        (same : Bool)
        → text_eq name attr ≡ same
        → IsLabel rest attr (label rest attr)
        → IsLabel ((name, alias) ∷ rest) attr (if same then alias else label rest attr)
    go true y ih = inl (inl ((text_eq_iff name attr).0 y, refl))
    go false n (inl found) = inl (inr found)
    go false n (inr (absent, e)) =
        inr (((λ same. absurd (cc (n, (text_eq_iff name attr).1 same))), absent), e)

Spelled-append :
    (ls rs : List (Text × Text)) (xs ys : List Text)
    → Spelled ls xs
    → Spelled rs ys
    → Spelled (ls ++ rs) (xs ++ ys)
Spelled-append [] rs [] ys h k = k
Spelled-append [] rs (x ∷ xs) ys h k = absurd h
Spelled-append (l ∷ ls) rs [] ys h k = absurd h
Spelled-append (l ∷ ls) rs (x ∷ xs) ys h k = (h.0, Spelled-append ls rs xs ys h.1 k)

Spelled-attributes : (rdn : List (Text × Text)) → Spelled rdn (attributes dn_aliases rdn)
unfolding attributes
Spelled-attributes [] = tt
Spelled-attributes ((attr, value) ∷ rest) =
    ((label dn_aliases attr, IsLabel-label dn_aliases attr, refl), Spelled-attributes rest)

Spelled-components : (subject : Subject) → Spelled (flat subject) (components dn_aliases subject)
unfolding components
Spelled-components [] = tt
Spelled-components (rdn ∷ rest) =
    Spelled-append rdn (flat rest) (attributes dn_aliases rdn) (components dn_aliases rest)
      (Spelled-attributes rdn) (Spelled-components rest)

-- The parts are those of the certificate's subject.
abbrev pub Spells : Certificate → List Text → Type 0
Spells certificate parts =
    (subject : Subject) → certificate ≡ some (some subject) → Spelled (flat subject) parts

abbrev pub HasSubject : Certificate → Type 0
HasSubject certificate = (subject : Subject) × (certificate ≡ some (some subject)) × (subject ≢ [])

unfoldable pub parts_of : Certificate → List Text
parts_of none = []
parts_of (some none) = []
parts_of (some (some subject)) = components dn_aliases subject

pub Spells-parts_of : (certificate : Certificate) → Spells certificate (parts_of certificate)
unfolding parts_of
Spells-parts_of none subject e = absurd (cc)
Spells-parts_of (some none) subject e = absurd (cc)
Spells-parts_of (some (some s)) subject e =
    let same : s ≡ subject = cc in
    subst (λ t. Spelled (flat t) (components dn_aliases s)) same (Spelled-components s)
