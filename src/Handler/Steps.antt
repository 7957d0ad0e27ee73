-- ===== src/Handler/Steps.antt =====
-- What holds after a chain of a handler's calls, one call at a time.
use garam_agent_operator.Prelude.{Option, none, some, ◌≡◌, refl, subst, sym, arith}
use garam_agent_operator.Definition.Errors.{Error, Result, ok, err, panic}
use garam_agent_operator.Exec.{Exec}
use garam_agent_operator.Handler.{
  Outcome, done, fails, panics, Handler, answer, continue, serviced, service, read_or, ◌>>=◌,
}

module _ {E State B : Type 0} where
  -- Where the handler answers, the answer and the state after it are as said.
  abbrev pub Gives : (B → State → Type 0) → Outcome E B × State → Type 0
  Gives R p = (b : B) → p.0 ≡ done b → R b p.1

  -- Where it does not, the state after it is as said.
  abbrev pub Keeps : (State → Type 0) → Outcome E B × State → Type 0
  Keeps P p = ((b : B) → p.0 ≡ done b → ⊥) → P p.1

module _ {E State A B : Type 0} (R : B → State → Type 0) where
  continue-Gives :
      (r : Outcome E A) (f : A → Handler E State B) (s : State)
      → ((a : A) → r ≡ done a → Gives R (f a s))
      → Gives R (continue r f s)
  continue-Gives (done a) f s h = h a refl
  continue-Gives (fails e) f s h = λ b k. absurd (ground arith)
  continue-Gives panics f s h = λ b k. absurd (ground arith)

  pub bind-Gives :
      (m : Handler E State A) (f : A → Handler E State B) (s : State)
      → ((a : A) → (m s).0 ≡ done a → Gives R (f a (m s).1))
      → Gives R ((m >>= f) s)
  bind-Gives m f s h = continue-Gives (m s).0 f (m s).1 h

  -- A call that changes nothing, and then another.
  pub bind_reads-Gives :
      (m : Handler E State A) (f : A → Handler E State B) (s : State)
      → (m s).1 ≡ s
      → ((a : A) → (m s).0 ≡ done a → Gives R (f a s))
      → Gives R ((m >>= f) s)
  bind_reads-Gives m f s same h =
      bind-Gives m f s (λ a e. subst (λ (t : State). Gives R (f a t)) (sym same) (h a e))

module _ {E State A B : Type 0} (P : State → Type 0) where
  continue-Keeps :
      (r : Outcome E A) (f : A → Handler E State B) (s : State)
      → P s
      → ((a : A) → r ≡ done a → Keeps P (f a s))
      → Keeps P (continue r f s)
  continue-Keeps (done a) f s h k = k a refl
  continue-Keeps (fails e) f s h k = λ _. h
  continue-Keeps panics f s h k = λ _. h

  pub bind-Keeps :
      (m : Handler E State A) (f : A → Handler E State B) (s : State)
      → P (m s).1
      → ((a : A) → (m s).0 ≡ done a → Keeps P (f a (m s).1))
      → Keeps P ((m >>= f) s)
  bind-Keeps m f s h k = continue-Keeps (m s).0 f (m s).1 h k

  pub bind_reads-Keeps :
      (m : Handler E State A) (f : A → Handler E State B) (s : State)
      → (m s).1 ≡ s
      → P s
      → ((a : A) → (m s).0 ≡ done a → Keeps P (f a s))
      → Keeps P ((m >>= f) s)
  bind_reads-Keeps m f s same h k =
      bind-Keeps m f s (subst P (sym same) h)
        (λ a e. subst (λ (t : State). Keeps P (f a t)) (sym same) (k a e))

module _ {E A : Type 0} (wrap : Error → E) where
  serviced_done : (r : Result A) (a : A) → serviced wrap r ≡ done a → r ≡ ok a
  serviced_done (ok b) a h = ground arith
  serviced_done (err e) a h = absurd (ground arith)
  serviced_done panic a h = absurd (ground arith)

module _ {E State A : Type 0} where
  pub service_done :
      (wrap : Error → E) (m : Exec State A) (s : State) (a : A)
      → (service wrap m s).0 ≡ done a
      → (m s).0 ≡ ok a
  service_done wrap m s a h = serviced_done wrap (m s).0 a h

-- A value that was read, and then a call.
module _ {E State A B : Type 0} where
  pub read_or-Gives :
      (R : B → State → Type 0) (missing : E) (o : Option A) (f : A → Handler E State B) (s : State)
      → ((a : A) → o ≡ some a → Gives R (f a s))
      → Gives R ((read_or missing o >>= f) s)
  read_or-Gives R missing none f s h = λ b k. absurd (ground arith)
  read_or-Gives R missing (some a) f s h = h a refl

  pub read_or-Keeps :
      (P : State → Type 0) (missing : E) (o : Option A) (f : A → Handler E State B) (s : State)
      → P s
      → ((a : A) → o ≡ some a → Keeps P (f a s))
      → Keeps P ((read_or missing o >>= f) s)
  read_or-Keeps P missing none f s h k = λ _. h
  read_or-Keeps P missing (some a) f s h k = k a refl

module _ {E State A B : Type 0} (P : State → Type 0) (g : A → B) where
  continue_answer-Keeps :
      (r : Outcome E A) (s : State) → Keeps P (r, s) → Keeps P (continue r (λ a. answer (g a)) s)
  continue_answer-Keeps (done a) s h = λ k. absurd (k (g a) refl)
  continue_answer-Keeps (fails e) s h = λ _. h (λ a k. absurd (ground arith))
  continue_answer-Keeps panics s h = λ _. h (λ a k. absurd (ground arith))

  -- A handler whose answer is changed.
  pub bind_answer-Keeps :
      (m : Handler E State A) (s : State) → Keeps P (m s) → Keeps P ((m >>= λ a. answer (g a)) s)
  bind_answer-Keeps m s h = continue_answer-Keeps (m s).0 (m s).1 h

module _ {E State A : Type 0} (P : State → Type 0) (wrap : Error → E) where
  serviced-Keeps :
      (r : Result A) (s : State) → (((a : A) → r ≡ ok a → ⊥) → P s) → Keeps P (serviced wrap r, s)
  serviced-Keeps (ok a) s h = λ k. absurd (k a refl)
  serviced-Keeps (err e) s h = λ _. h (λ a k. absurd (ground arith))
  serviced-Keeps panic s h = λ _. h (λ a k. absurd (ground arith))

  pub service-Keeps :
      (m : Exec State A) (s : State)
      → (((a : A) → (m s).0 ≡ ok a → ⊥) → P (m s).1)
      → Keeps P (service wrap m s)
  service-Keeps m s h = serviced-Keeps (m s).0 (m s).1 h

module _ {E State A B : Type 0} where
  continue-state :
      (r : Outcome E A) (f : A → Handler E State B) (s : State)
      → ((a : A) → r ≡ done a → (f a s).1 ≡ s)
      → (continue r f s).1 ≡ s
  continue-state (done a) f s h = h a refl
  continue-state (fails e) f s h = refl
  continue-state panics f s h = refl

  -- Two calls that change nothing.
  pub bind-state :
      (m : Handler E State A) (f : A → Handler E State B) (s : State)
      → (m s).1 ≡ s
      → ((a : A) → (m s).0 ≡ done a → (f a s).1 ≡ s)
      → ((m >>= f) s).1 ≡ s
  bind-state m f s same h =
      subst (λ (t : State). (continue (m s).0 f t).1 ≡ s) (sym same) (continue-state (m s).0 f s h)
