-- ===== src/Handler.antt =====
-- Handlers of requests: a function from the state to what it answers, or why it fails, and the state
-- after it. A call of the definition service keeps what it wrote before it failed.
pub mod Steps
use garam_agent_operator.Prelude.{◌≡◌, refl, ◌⊎◌, inl, inr, Option, none, some, if◌then◌else◌}
use garam_agent_operator.Definition.Errors.{Error, Result, ok, err, panic, is_not_found}
use garam_agent_operator.Exec.{Exec}

-- `E` is the type of the failures.
pub data Outcome (E A : Type 0) : Type 0 where
  done : A → Outcome E A
  fails : E → Outcome E A
  panics : Outcome E A

pub Outcome-cases :
    {E A : Type 0} (o : Outcome E A)
    → ((a : A) × (o ≡ done a)) ⊎ ((e : E) × (o ≡ fails e)) ⊎ (o ≡ panics)
Outcome-cases (done a) = inl (a, refl)
Outcome-cases (fails e) = inr (inl (e, refl))
Outcome-cases panics = inr (inr refl)

abbrev pub Handler : Type 0 → Type 0 → Type 0 → Type 0
Handler E State A = State → Outcome E A × State

module _ {E A : Type 0} (wrap : Error → E) where
  abbrev pub serviced : Result A → Outcome E A
  serviced (ok a) = done a
  serviced (err e) = fails (wrap e)
  serviced panic = panics

  abbrev pub found_or : E → Result A → Outcome E A
  found_or missing (ok a) = done a
  found_or missing (err e) = if is_not_found e then fails missing else fails (wrap e)
  found_or missing panic = panics

module _ {E State A : Type 0} where
  abbrev pub answer : A → Handler E State A
  answer a s = (done a, s)

  abbrev pub fail : E → Handler E State A
  fail f s = (fails f, s)

  -- A call of the definition service.
  abbrev pub service : (Error → E) → Exec State A → Handler E State A
  service wrap m s = let (r, s') = m s in (serviced wrap r, s')

  -- A call whose `ErrNotFound` is answered with a failure of its own.
  abbrev pub find_or : (Error → E) → E → Exec State A → Handler E State A
  find_or wrap missing m s = let (r, s') = m s in (found_or wrap missing r, s')

  -- A value that was read, or a failure.
  abbrev pub read_or : E → Option A → Handler E State A
  read_or missing none s = (fails missing, s)
  read_or missing (some a) s = (done a, s)

module _ {E State A B : Type 0} where
  abbrev pub continue : Outcome E A → (A → Handler E State B) → Handler E State B
  continue (done a) f s = f a s
  continue (fails e) f s = (fails e, s)
  continue panics f s = (panics, s)

  infixl 10 ◌>>=◌ ◌>>◌
  abbrev pub ◌>>=◌ : Handler E State A → (A → Handler E State B) → Handler E State B
  ◌>>=◌ m f s = let (r, s') = m s in continue r f s'

  abbrev pub ◌>>◌ : Handler E State A → Handler E State B → Handler E State B
  m >> n = m >>= λ _. n
