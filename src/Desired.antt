-- ===== src/Desired.antt =====
-- internal/desired: what the controller's side keeps in memory of its calls of the control service. A
-- time and a duration are numbers of nanoseconds.
pub mod Registrar
pub mod Puller
pub mod Recoverer
pub mod Images
use garam_agent_operator.Prelude.{
  ℕ, ◌+◌, ◌*◌, ◌≤◌, ◌≡◌, refl, ◌⊎◌, inl, inr, String, Bool, Option, none, some, false, ◌&&◌, ◌==◌,
  string_eq, ℕ_eq, ltb, arith, if◌then◌else◌, Bool-cases,
}

abbrev pub second : ℕ
second = 1000000000

-- `transientFirst`, `transientLast` and `refusedWait`
abbrev pub transient_first : ℕ
transient_first = second

abbrev pub transient_last : ℕ
transient_last = 30 * second

abbrev pub refused_wait : ℕ
refused_wait = 300 * second

-- What a call of the control service brings: its answer, a `RefusalError` with its status and its kind,
-- or any other error.
pub data Reply (A : Type 0) : Type 0 where
  replied : A → Reply A
  refused : ℕ → String → Reply A
  silent : Reply A

pub Reply-cases :
    {A : Type 0} (r : Reply A)
    → ((a : A) × (r ≡ replied a))
      ⊎ ((status : ℕ) × (kind : String) × (r ≡ refused status kind))
      ⊎ (r ≡ silent)
Reply-cases (replied a) = inl (a, refl)
Reply-cases (refused status kind) = inr (inl (status, kind, refl))
Reply-cases silent = inr (inr refl)

-- The wait after a call that brought no answer.
unfoldable pub next_backoff : ℕ → ℕ
next_backoff backoff =
    if backoff == 0
    then transient_first
    else if ltb transient_last (2 * backoff)
    then transient_last
    else 2 * backoff

-- `kind == refusedAs`: a refusal is logged where it is another than the last one.
abbrev pub is_refused_as : Option (ℕ × String) → ℕ → String → Bool
is_refused_as none status kind = false
is_refused_as (some (s, k)) status kind = s == status && k == kind

-- No wait, or one between a second and half a minute.
abbrev pub IsBackoff : ℕ → Type 0
IsBackoff b = (b ≡ 0) ⊎ ((transient_first ≤ b) × (b ≤ transient_last))

pub next_backoff-bounds :
    (b : ℕ) → IsBackoff b → (transient_first ≤ next_backoff b) × (next_backoff b ≤ transient_last)
unfolding next_backoff
next_backoff-bounds b (inl none_yet) = ground arith
next_backoff-bounds b (inr (low, high)) = ground arith
