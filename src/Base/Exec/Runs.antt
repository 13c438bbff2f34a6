-- ===== src/Base/Exec/Runs.antt =====
-- What holds of a coroutine however its steps end, step by step.
use mathlib.Core.Path.{◌≡◌, refl}
use mathlib.Core.Logic.{◌≢◌}
use mathlib.Core.Option.{Option, none, some}
use modbusgw.Base.Errors.{Exn, Result, ok, raise}
use modbusgw.Base.Exec.{Exec, attempt, ◌>>=◌}

-- If the call returns, what it returns is `P`.
abbrev pub Gives : {A : Type 0} → (A → Type 0) → Option (Result A) → Type 0
Gives P none = Unit
Gives P (some (raise e)) = Unit
Gives P (some (ok a)) = P a

module _ {S : Type 0} where
  -- Where `I` holds before, the call is not suspended, and `J` holds after it, also if it raises.
  abbrev pub Runs : {A : Type 0} → (S → Type 0) → (S → Type 0) → Exec S A → Type 0
  Runs I J call = (s : S) → I s → ((call s).0 ≢ none) × J (call s).1

  -- How a call ends that is not suspended: with a value and a state that `P` relates, or with an
  -- exception and a state of which `J` holds.
  abbrev pub Ends : {A : Type 0} → (A → S → Type 0) → (S → Type 0) → Option (Result A) × S → Type 0
  Ends P J (none, s) = ⊥
  Ends P J (some (ok a), s) = P a s
  Ends P J (some (raise e), s) = J s

module _ {S A B : Type 0} where
  pub Gives-bind :
      (P : B → Type 0) (call : Exec S A) (next : A → Exec S B) (s : S)
      → ((a : A) (s' : S) → Gives P (next a s').0)
      → Gives P ((call >>= next) s).0
  unfolding ◌>>=◌
  Gives-bind P call next s h = go (call s)
    where
      go : (end : Option (Result A) × S) → Gives P (((λ (s' : S). end) >>= next) s).0
      go (none, s') = tt
      go (some (raise e), s') = tt
      go (some (ok a), s') = h a s'

  pub Runs-bind :
      (I J : S → Type 0) (call : Exec S A) (next : A → Exec S B)
      → Runs I J call
      → ((a : A) → Runs J J (next a))
      → Runs I J (call >>= next)
  unfolding ◌>>=◌
  Runs-bind I J call next h k s i = go (call s) (h s i)
    where
      go :
          (end : Option (Result A) × S)
          → (end.0 ≢ none) × J end.1
          → ((((λ (s' : S). end) >>= next) s).0 ≢ none) × J (((λ (s' : S). end) >>= next) s).1
      go (none, s') g = absurd (g.0 refl)
      go (some (raise e), s') g = (λ e. absurd (cc), g.1)
      go (some (ok a), s') g = k a s' g.1

  -- What a `try` block raises is handled: the rest runs in any case.
  pub Runs-attempt :
      (I J K : S → Type 0) (call : Exec S A) (next : Result A → Exec S B)
      → Runs I J call
      → ((outcome : Result A) → Runs J K (next outcome))
      → Runs I K (attempt call >>= next)
  unfolding ◌>>=◌
  Runs-attempt I J K call next h k s i = go (call s) (h s i)
    where
      go :
          (end : Option (Result A) × S)
          → (end.0 ≢ none) × J end.1
          → (((attempt (λ (s' : S). end) >>= next) s).0 ≢ none)
            × K ((attempt (λ (s' : S). end) >>= next) s).1
      go (none, s') g = absurd (g.0 refl)
      go (some outcome, s') g = k outcome s' g.1

  pub Ends-bind :
      (P : A → S → Type 0) (J : S → Type 0) (call : Exec S A) (next : A → Exec S B) (s : S)
      → Ends P J (call s)
      → ((a : A) (s' : S) → P a s' → ((next a s').0 ≢ none) × J (next a s').1)
      → (((call >>= next) s).0 ≢ none) × J ((call >>= next) s).1
  unfolding ◌>>=◌
  Ends-bind P J call next s h k = go (call s) h
    where
      go :
          (end : Option (Result A) × S)
          → Ends P J end
          → ((((λ (s' : S). end) >>= next) s).0 ≢ none) × J (((λ (s' : S). end) >>= next) s).1
      go (none, s') g = absurd g
      go (some (raise e), s') g = (λ e. absurd (cc), g)
      go (some (ok a), s') g = k a s' g

  pub Gives-attempt :
      (P : A → Type 0) (Q : B → Type 0) (call : Exec S A) (next : Result A → Exec S B) (s : S)
      → Gives P (call s).0
      → ((outcome : Result A) (s' : S) → Gives P (some outcome) → Gives Q (next outcome s').0)
      → Gives Q ((attempt call >>= next) s).0
  unfolding ◌>>=◌
  Gives-attempt P Q call next s h k = go (call s) h
    where
      go :
          (end : Option (Result A) × S)
          → Gives P end.0
          → Gives Q ((attempt (λ (s' : S). end) >>= next) s).0
      go (none, s') g = tt
      go (some outcome, s') g = k outcome s' g

  -- A `try` block that is not suspended ends as its handler does.
  pub attempt-bind :
      (Q : Option (Result B) → Type 0) (call : Exec S A) (next : Result A → Exec S B) (s : S)
      → (call s).0 ≢ none
      → ((outcome : Result A) (s' : S) → (call s).0 ≡ some outcome → Q (next outcome s').0)
      → Q ((attempt call >>= next) s).0
  unfolding ◌>>=◌
  attempt-bind Q call next s awake k = go (call s) awake k
    where
      go :
          (end : Option (Result A) × S)
          → end.0 ≢ none
          → ((outcome : Result A) (s' : S) → end.0 ≡ some outcome → Q (next outcome s').0)
          → Q ((attempt (λ (s' : S). end) >>= next) s).0
      go (none, s') h k = absurd (h refl)
      go (some outcome, s') h k = k outcome s' refl

-- A call whose end is known, and what follows it.
module _ {S A B : Type 0} (call : Exec S A) {s s' : S} where
  pub bind_ok :
      (next : A → Exec S B) {a : A} → call s ≡ (some (ok a), s') → (call >>= next) s ≡ next a s'
  unfolding ◌>>=◌
  bind_ok next e = rw e

  pub bind_raise :
      (next : A → Exec S B) {x : Exn}
      → call s ≡ (some (raise x), s')
      → (call >>= next) s ≡ (some (raise x), s')
  unfolding ◌>>=◌
  bind_raise next e = rw e

  pub bind_attempt :
      (next : Result A → Exec S B) {outcome : Result A}
      → call s ≡ (some outcome, s')
      → (attempt call >>= next) s ≡ next outcome s'
  unfolding ◌>>=◌
  bind_attempt next e = rw e

module _ {S A B : Type 0} where
  -- If the whole returns, the first call returned, and what follows it.
  pub bind-eq-ok :
      (call : Exec S A) (next : A → Exec S B) (s : S) {b : B} {s' : S}
      → (call >>= next) s ≡ (some (ok b), s')
      → (a : A) × (s1 : S) × (call s ≡ (some (ok a), s1)) × (next a s1 ≡ (some (ok b), s'))
  unfolding ◌>>=◌
  bind-eq-ok call next s {b} {s'} e = go (call s) refl e
    where
      go :
          (end : Option (Result A) × S)
          → call s ≡ end
          → ((λ (t : S). end) >>= next) s ≡ (some (ok b), s')
          → (a : A) × (s1 : S) × (call s ≡ (some (ok a), s1)) × (next a s1 ≡ (some (ok b), s'))
      go (none, s1) h g = absurd (cc)
      go (some (raise x), s1) h g = absurd (cc)
      go (some (ok a), s1) h g = (a, s1, h, g)

-- `Ends` step by step: what holds of each result, and what holds where the call raises.
module _ {S : Type 0} where
  pub Ends-map :
      {A : Type 0} (P Q : A → S → Type 0) (J K : S → Type 0) (end : Option (Result A) × S)
      → ((a : A) (s : S) → P a s → Q a s)
      → ((s : S) → J s → K s)
      → Ends P J end
      → Ends Q K end
  Ends-map P Q J K (none, s) f g e = e
  Ends-map P Q J K (some (ok a), s) f g e = f a s e
  Ends-map P Q J K (some (raise x), s) f g e = g s e

  pub Ends-then :
      {A B : Type 0} (P : A → S → Type 0) (Q : B → S → Type 0) (J K : S → Type 0) (call : Exec S A)
      (next : A → Exec S B) (s : S)
      → Ends P J (call s)
      → ((a : A) (s' : S) → P a s' → Ends Q K (next a s'))
      → ((s' : S) → J s' → K s')
      → Ends Q K ((call >>= next) s)
  unfolding ◌>>=◌
  Ends-then {A} {B} P Q J K call next s h k weaken = go (call s) h
    where
      go : (end : Option (Result A) × S) → Ends P J end → Ends Q K (((λ (s' : S). end) >>= next) s)
      go (none, s') g = g
      go (some (raise e), s') g = weaken s' g
      go (some (ok a), s') g = k a s' g

  -- After a `try` block the handler has both cases.
  pub Ends-try :
      {A B : Type 0} (P : A → S → Type 0) (Q : B → S → Type 0) (J K : S → Type 0) (call : Exec S A)
      (next : Result A → Exec S B) (s : S)
      → Ends P J (call s)
      → ((a : A) (s' : S) → P a s' → Ends Q K (next (ok a) s'))
      → ((e : Exn) (s' : S) → J s' → Ends Q K (next (raise e) s'))
      → Ends Q K ((attempt call >>= next) s)
  unfolding ◌>>=◌
  Ends-try {A} {B} P Q J K call next s h k l = go (call s) h
    where
      go :
          (end : Option (Result A) × S)
          → Ends P J end
          → Ends Q K ((attempt (λ (s' : S). end) >>= next) s)
      go (none, s') g = g
      go (some (raise e), s') g = l e s' g
      go (some (ok a), s') g = k a s' g

  -- What holds of the state, however the call has ended.
  pub Ends-settled :
      {A : Type 0} (J : S → Type 0) (r : Result A) (s : S) → J s → Ends (λ a. J) J (some r, s)
  Ends-settled J (ok a) s h = h
  Ends-settled J (raise e) s h = h
