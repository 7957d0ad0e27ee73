-- ===== src/Exec.antt =====
-- Go methods that change an object and may fail: a function from the state to the result and the
-- state after it. What was written before an error stays written.

pub mod Steps
use garam_agent_operator.Definition.Errors.{Error, Result, ok, err, panic, is_not_found}
use garam_agent_operator.Prelude.{Option, some, none, if◌then◌else◌}

abbrev pub Exec : Type 0 → Type 0 → Type 0
Exec State A = State → Result A × State

abbrev pub optional_result : {A : Type 0} → Result A → Result (Option A)
optional_result (ok a) = ok (some a)
optional_result (err e) = if is_not_found e then ok none else err e
optional_result panic = panic

module _ {State A : Type 0} where
  abbrev pub pure : A → Exec State A
  pure a s = (ok a, s)

  abbrev pub raise : Error → Exec State A
  raise e s = (err e, s)

  abbrev pub lift : Result A → Exec State A
  lift r s = (r, s)

module _ {State A : Type 0} where
  -- A call whose `ErrNotFound` the caller takes for an answer: `none`.
  abbrev pub optional : Exec State A → Exec State (Option A)
  optional m s = let (r, s') = m s in (optional_result r, s')

module _ {State A B : Type 0} where
  abbrev pub continue : Result A → (A → Exec State B) → Exec State B
  continue (ok a) f s = f a s
  continue (err e) f s = (err e, s)
  continue panic f s = (panic, s)

  infixl 10 ◌>>=◌ ◌>>◌
  abbrev pub ◌>>=◌ : Exec State A → (A → Exec State B) → Exec State B
  ◌>>=◌ m f s = let (r, s') = m s in continue r f s'

  abbrev pub ◌>>◌ : Exec State A → Exec State B → Exec State B
  m >> n = m >>= λ _. n
