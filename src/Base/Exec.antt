-- ===== src/Base/Exec.antt =====
-- Coroutines with a state. Each gives what it returns or raises, or `none` if it is suspended for
-- good, beside the state that it leaves; what was written before a raise stays written.
pub mod Runs
use mathlib.Core.Option.{Option, none, some}
use modbusgw.Base.Errors.{Exn, Result, ok, raise}

abbrev pub Exec : Type 0 → Type 0 → Type 0
Exec S A = S → Option (Result A) × S

module _ {S A : Type 0} where
  abbrev pub pure : A → Exec S A
  pure value state = (some (ok value), state)

  abbrev pub fail : Exn → Exec S A
  fail e state = (some (raise e), state)

  abbrev pub lift : Result A → Exec S A
  lift outcome state = (some outcome, state)

  abbrev suspend : Exec S A
  suspend state = (none, state)

  -- `try`: what the call raises is a value to go on with.
  abbrev tried : Option (Result A) × S → Option (Result (Result A)) × S
  tried (none, state) = (none, state)
  tried (some outcome, state) = (some (ok outcome), state)

  abbrev pub attempt : Exec S A → Exec S (Result A)
  attempt call state = tried (call state)

module _ {S A B : Type 0} where
  abbrev resume : Option (Result A) × S → (A → Exec S B) → Option (Result B) × S
  resume (some (ok value), state) next = next value state
  resume (some (raise e), state) next = (some (raise e), state)
  resume (none, state) next = (none, state)

  infixl 5 ◌>>=◌ ◌>>◌
  unfoldable pub ◌>>=◌ : Exec S A → (A → Exec S B) → Exec S B
  ◌>>=◌ call next state = resume (call state) next

  abbrev pub ◌>>◌ : Exec S A → Exec S B → Exec S B
  ◌>>◌ call next = call >>= λ value. next
