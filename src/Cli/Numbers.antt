-- ===== src/Cli/Numbers.antt =====
-- The numbers that modbusgw/cli.py reads: the text of a pid file, and a umask. A text is its code
-- points; of Python's `int`, what it does with ASCII characters is modelled.
pub mod Laws
use modbusgw.Base.Texts.{Text, strip, lower}
use modbusgw.Base.{
  ℕ, zero, suc, ◌+◌, ◌-◌, ◌*◌, ◌/◌, ◌%◌, ◌≤◌, ◌<◌, Bool, true, false, not, ◌&&◌, ◌||◌, List, [],
  ◌∷◌, ◌++◌, map, Option, none, some, ◌==◌, ltb, leb, if◌then◌else◌, drop, Result, ok, raise,
  argument_type_error, ◌≡◌, refl, ap, sym, ◌∙◌, arith,
}

-- `negsuc n` is -(n + 1).
pub data ℤ : Type 0 where
  pos negsuc : ℕ → ℤ

-- The digits of a number in a base up to ten, with single underscores between digits; `after_digit`
-- says whether a digit stands before.
digits : ℕ → ℕ → Bool → Text → Option ℕ
digits base acc after_digit [] = if after_digit then some acc else none
digits base acc after_digit (c ∷ cs) =
    let more = digits base (acc * base + (c - b'0')) true cs in
    let joined = digits base acc false cs in
    if leb b'0' c && ltb (c - b'0') base
    then more
    else if c == b'_' && after_digit
    then joined
    else none

abbrev negated : ℕ → ℤ
negated zero = pos zero
negated (suc n) = negsuc n

abbrev signed : (ℕ → ℤ) → Option ℕ → Option ℤ
signed sign none = none
signed sign (some n) = some (sign n)

-- In base eight the digits may have the prefix 0o.
starts_0o : Text → Bool
starts_0o (a ∷ b ∷ cs) = a == b'0' && b == b'o'
starts_0o _ = false

skip_underscore : Text → Text
skip_underscore [] = []
skip_underscore (c ∷ cs) = if c == b'_' then cs else c ∷ cs

unsigned : ℕ → Text → Option ℕ
unfolding digits starts_0o skip_underscore
unsigned base text =
    digits base 0 false
      (if base == 8 && starts_0o text then skip_underscore (drop 2 text) else text)

sign_and_digits : ℕ → Text → Option ℤ
unfolding unsigned
sign_and_digits base [] = none
sign_and_digits base (c ∷ cs) =
    if c == b'-'
    then signed negated (unsigned base cs)
    else if c == b'+'
    then signed pos (unsigned base cs)
    else signed pos (unsigned base (c ∷ cs))

-- `int(text, base)`; none is a ValueError
pub to_int : ℕ → Text → Option ℤ
unfolding strip sign_and_digits
to_int base text = sign_and_digits base (strip text)

umask_of : Option ℤ → Result ℕ
umask_of none = raise (argument_type_error "umask must be an octal value")
umask_of (some (negsuc n)) = raise (argument_type_error "umask must be between 000 and 777")
umask_of (some (pos n)) =
    if ltb 511 n then raise (argument_type_error "umask must be between 000 and 777") else ok n

-- What `_parse_umask` hands to `int`: the text in lower case, less one prefix
umask_text : Text → Text
unfolding strip starts_0o lower
umask_text value = let raw = lower (strip value) in if starts_0o raw then drop 2 raw else raw

-- `_parse_umask`
pub parse_umask : Text → Result ℕ
unfolding to_int umask_of umask_text
parse_umask value = umask_of (to_int 8 (umask_text value))

-- The three octal digits of a umask, and the decimal digits that `str` writes of a number.
abbrev pub octal : ℕ → Text
octal m = (b'0' + m / 64) ∷ (b'0' + m / 8 % 8) ∷ (b'0' + m % 8) ∷ []

decimal_digits : ℕ → ℕ → Text → Text
decimal_digits zero n behind = behind
decimal_digits (suc fuel) n behind =
    let longer = decimal_digits fuel (n / 10) ((b'0' + n % 10) ∷ behind) in
    if ltb n 10 then (b'0' + n) ∷ behind else longer

pub decimal : ℕ → Text
decimal n = decimal_digits (suc n) n []
