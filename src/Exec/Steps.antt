-- ===== src/Exec/Steps.antt =====
-- What holds after a chain of calls, one call at a time.
use mathlib.Core.Path.{◌≡◌, refl, subst, sym, ap, ◌∙◌}
use native.Mathlib.Omega.{arith}
use mathlib.Core.Bool.{Bool, true, false}
use garam_agent_operator.Prelude.{if◌then◌else◌}
use garam_agent_operator.Definition.Errors.{Error, Result, ok, err, panic}
use garam_agent_operator.Exec.{Exec, continue, ◌>>=◌}

pub if_holds {ℓ} :
    {A : Type ℓ} (P : A → Type 0) (b : Bool) (x y : A)
    → (b ≡ true → P x)
    → (b ≡ false → P y)
    → P (if b then x else y)
if_holds P true x y h k = h refl
if_holds P false x y h k = k refl

module _ {State A B : Type 0} (P : State → Type 0) where
  continue-holds :
      (r : Result A) (f : A → Exec State B) (s : State)
      → P s
      → ((a : A) → r ≡ ok a → P (f a s).1)
      → P (continue r f s).1
  continue-holds (ok a) f s h k = k a refl
  continue-holds (err e) f s h k = h
  continue-holds panic f s h k = h

  -- The state holds after the first call, and after the second one if the first gives a result.
  pub bind_holds :
      (m : Exec State A) (f : A → Exec State B) (s : State)
      → P (m s).1
      → ((a : A) → (m s).0 ≡ ok a → P (f a (m s).1).1)
      → P ((m >>= f) s).1
  bind_holds m f s h k = continue-holds (m s).0 f (m s).1 h k

  -- The first call changes nothing.
  pub bind_reads :
      (m : Exec State A) (f : A → Exec State B) (s : State)
      → (m s).1 ≡ s
      → P s
      → ((a : A) → (m s).0 ≡ ok a → P (f a s).1)
      → P ((m >>= f) s).1
  bind_reads m f s same h k =
      bind_holds m f s (subst P (sym same) h)
        (λ a e. subst (λ (t : State). P (f a t).1) (sym same) (k a e))

module _ {State A B : Type 0} where
  continue-ok :
      (r : Result A) (f : A → Exec State B) (s : State) (b : B)
      → (continue r f s).0 ≡ ok b
      → (a : A) × (r ≡ ok a) × (continue r f s ≡ f a s)
  continue-ok (ok a) f s b h = (a, refl, refl)
  continue-ok (err e) f s b h = absurd (ground arith)
  continue-ok panic f s b h = absurd (ground arith)

  -- A chain that gives a result, after a first call that changes nothing.
  pub bind_reads_ok :
      (m : Exec State A) (f : A → Exec State B) (s : State) (b : B)
      → (m s).1 ≡ s
      → ((m >>= f) s).0 ≡ ok b
      → (a : A) × ((m s).0 ≡ ok a) × ((m >>= f) s ≡ f a s)
  bind_reads_ok m f s b same h =
      let (a, e, q) = continue-ok (m s).0 f (m s).1 b h in (a, e, q ∙ ap (f a) same)

  pub bind_ok :
      (m : Exec State A) (f : A → Exec State B) (s : State) (b : B)
      → ((m >>= f) s).0 ≡ ok b
      → (a : A) × ((m s).0 ≡ ok a) × ((m >>= f) s ≡ f a (m s).1)
  bind_ok m f s b h = continue-ok (m s).0 f (m s).1 b h

module _ {State B : Type 0} where
  -- Where the call gives a result, it is as said, with the state after it.
  abbrev pub Gives : (B → State → Type 0) → Result B × State → Type 0
  Gives R p = (b : B) → p.0 ≡ ok b → R b p.1

  pub err-Gives :
      (R : B → State → Type 0) (p : Result B × State) (e : Error) → p.0 ≡ err e → Gives R p
  err-Gives R p e h b k = absurd (ground arith)

  pub ok-Gives :
      (R : B → State → Type 0) (p : Result B × State) (a : B) → p.0 ≡ ok a → R a p.1 → Gives R p
  ok-Gives R p a h r b k = let same : a ≡ b = ground arith in subst (λ (x : B). R x p.1) same r

module _ {State A B : Type 0} (R : B → State → Type 0) where
  continue-Gives :
      (r : Result A) (f : A → Exec State B) (s : State)
      → ((a : A) → r ≡ ok a → Gives R (f a s))
      → Gives R (continue r f s)
  continue-Gives (ok a) f s h = h a refl
  continue-Gives (err e) f s h = λ b k. absurd (ground arith)
  continue-Gives panic f s h = λ b k. absurd (ground arith)

  -- A call that changes nothing, and then another.
  pub bind_reads-Gives :
      (m : Exec State A) (f : A → Exec State B) (s : State)
      → (m s).1 ≡ s
      → ((a : A) → (m s).0 ≡ ok a → Gives R (f a s))
      → Gives R ((m >>= f) s)
  bind_reads-Gives m f s same h =
      continue-Gives (m s).0 f (m s).1
        (λ a e. subst (λ (t : State). Gives R (f a t)) (sym same) (h a e))
