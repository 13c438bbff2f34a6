-- ===== src/Cli/Numbers/Laws.antt =====
-- What is written is read back: a umask in octal, and the process number in a pid file.
use modbusgw.Base.{
  ℕ, zero, suc, ◌+◌, ◌-◌, ◌*◌, ◌/◌, ◌%◌, ◌≤◌, ◌<◌, Bool, true, false, ◌&&◌, [], ◌∷◌, All, Option,
  none, some, ◌==◌, ltb, leb, if_of_true, if_of_false, Bool-cases, inl, inr, Result, ok, raise, ◌≡◌,
  refl, ap, ◌∙◌, arith,
}
use modbusgw.Base.Texts.{Text, strip_left, strip_right, strip, is_space}
use modbusgw.Cli.Numbers.{
  digits, unsigned, sign_and_digits, to_int, parse_umask, umask_of, umask_text, signed, octal,
  decimal_digits, decimal, ℤ, pos, negsuc,
}

-- `f(i)` for every `i` below a bound
all_below : ℕ → (ℕ → Bool) → Bool
all_below zero f = true
all_below (suc n) f = f n && all_below n f

all_below_sound : (n : ℕ) (f : ℕ → Bool) (i : ℕ) → all_below n f ≡ true → i < n → f i ≡ true
unfolding all_below
all_below_sound zero f i h lt = absurd (omega arith)
all_below_sound (suc n) f i h lt = ground (arith, all_below_sound n f i)

abbrev reads_as : ℕ → Result ℕ → Bool
reads_as m (ok n) = m == n
reads_as m (raise e) = false

umask_table :
    all_below 512
      (λ m. reads_as m (parse_umask (octal m)) && reads_as m (parse_umask (b'0' ∷ b'o' ∷ octal m)))
    ≡ true
unfolding all_below parse_umask
umask_table = refl

ok_of_reads_as : (m : ℕ) (r : Result ℕ) → reads_as m r ≡ true → r ≡ ok m
ok_of_reads_as m (ok n) h = ground arith
ok_of_reads_as m (raise e) h = cc

-- Every umask in three octal digits is read as itself, with the prefix 0o or without it.
pub parse_umask-octal :
    (m : ℕ)
    → m ≤ 511
    → (parse_umask (octal m) ≡ ok m) × (parse_umask (b'0' ∷ b'o' ∷ octal m) ≡ ok m)
parse_umask-octal m h =
    let both = all_below_sound 512 _ m umask_table (omega arith) in
    (
      ok_of_reads_as m (parse_umask (octal m)) (ground arith),
      ok_of_reads_as m (parse_umask (b'0' ∷ b'o' ∷ octal m)) (ground arith),
    )

umask_of-le : (r : Option ℤ) {m : ℕ} → umask_of r ≡ ok m → m ≤ 511
unfolding umask_of
umask_of-le none h = cc
umask_of-le (some (negsuc n)) h = cc
umask_of-le (some (pos n)) h = ground arith

-- A umask that is accepted is at most 0o777.
pub parse_umask-le : (text : Text) {m : ℕ} → parse_umask text ≡ ok m → m ≤ 511
unfolding parse_umask
parse_umask-le text h = umask_of-le (to_int 8 (umask_text text)) h

abbrev IsDigit : ℕ → Type 0
IsDigit c = (b'0' ≤ c) × (c ≤ b'9')

digit_test : (c : ℕ) → IsDigit c → (leb b'0' c && ltb (c - b'0') 10) ≡ true
digit_test c h = ground arith

digit_is_no_sign : (c : ℕ) → IsDigit c → ((c == b'-') ≡ false) × ((c == b'+') ≡ false)
digit_is_no_sign c h = (ground arith, ground arith)

digits_step :
    (acc c : ℕ) (after_digit : Bool) (cs : Text)
    → IsDigit c
    → digits 10 acc after_digit (c ∷ cs) ≡ digits 10 (acc * 10 + (c - b'0')) true cs
unfolding digits
digits_step acc c after_digit cs h = if_of_true _ _ (digit_test c h)

digits-decimal_digits :
    (fuel n : ℕ) (behind : Text)
    → n < fuel
    → digits 10 0 false (decimal_digits fuel n behind) ≡ digits 10 n true behind
unfolding decimal_digits
digits-decimal_digits zero n behind h = absurd (omega arith)
digits-decimal_digits (suc fuel) n behind h = elim (Bool-cases (ltb n 10)) [
  | inl y ↦
      ap (digits 10 0 false) (if_of_true _ _ y)
      ∙ (digits_step 0 (b'0' + n) false behind (ground arith)
          ∙ ap (λ t. digits 10 t true behind) (omega arith))
  | inr y ↦
      ap (digits 10 0 false) (if_of_false _ _ y)
      ∙ (digits-decimal_digits fuel (n / 10) ((b'0' + n % 10) ∷ behind) (ground arith)
          ∙ (digits_step (n / 10) (b'0' + n % 10) true behind (omega arith)
              ∙ ap (λ t. digits 10 t true behind) (omega arith)))
]

decimal_digits-IsDigit :
    (fuel n : ℕ) (behind : Text) → All IsDigit behind → All IsDigit (decimal_digits fuel n behind)
unfolding decimal_digits
decimal_digits-IsDigit zero n behind h = h
decimal_digits-IsDigit (suc fuel) n behind h = elim (Bool-cases (ltb n 10)) [
  | inl y ↦ rw y (ground arith, h)
  | inr y ↦ rw y (decimal_digits-IsDigit fuel (n / 10) ((b'0' + n % 10) ∷ behind) (omega arith, h))
]

digit_is_no_space : (c : ℕ) → IsDigit c → is_space c ≡ false
digit_is_no_space c h = ground arith

strip_left-digits : (xs : Text) → All IsDigit xs → strip_left xs ≡ xs
unfolding strip_left
strip_left-digits [] h = refl
strip_left-digits (c ∷ cs) h = if_of_false _ _ (digit_is_no_space c h.0)

strip_right-digits : (xs : Text) → All IsDigit xs → strip_right xs ≡ xs
unfolding strip_right
strip_right-digits [] h = refl
strip_right-digits (c ∷ []) h = if_of_false _ _ (digit_is_no_space c h.0)
strip_right-digits (c ∷ (d ∷ ds)) h = rw (strip_right-digits (d ∷ ds) h.1) refl

sign_and_digits-digits :
    (xs : Text) (n : ℕ)
    → All IsDigit xs
    → digits 10 0 false xs ≡ some n
    → sign_and_digits 10 xs ≡ some (pos n)
unfolding sign_and_digits unsigned digits
sign_and_digits-digits [] n h e = cc
sign_and_digits-digits (c ∷ cs) n h e =
    let (a, b) = digit_is_no_sign c h.0 in
    if_of_false _ _ a ∙ (if_of_false _ _ b ∙ ap (signed (λ x. pos x)) e)

-- The number of a process, as the application writes it in the pid file, is read back by `int`.
pub to_int-decimal : (n : ℕ) → to_int 10 (decimal n) ≡ some (pos n)
unfolding to_int strip decimal digits
to_int-decimal n =
    let xs = decimal n in
    let h = decimal_digits-IsDigit (suc n) n [] tt in
    ap (sign_and_digits 10) (ap strip_right (strip_left-digits xs h) ∙ strip_right-digits xs h)
    ∙ sign_and_digits-digits xs n h (digits-decimal_digits (suc n) n [] (omega arith))
