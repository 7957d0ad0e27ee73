-- ===== src/Definition/Errors.antt =====
-- The errors of internal/definition/definition.go, by the sentinel that `errors.Is` finds. The text
-- wrapped round a sentinel is left out.
use garam_agent_operator.Prelude.{◌≡◌, refl, ◌⊎◌, inl, inr, Bool, String}

-- An error of a Registrar: which of its sentinels it wraps, and its text.
pub record RegistrationError : Type 0 where
  pub is_refused : Bool
  pub is_conflict : Bool
  pub message : String

pub data Error : Type 0 where
  not_found stale_revision request_reused invalid_revision invalid_status : Error
  assignment_moved invalid_secret_ref embedding_required embedding_immutable : Error
  activation_mismatch : Error
  placement_superseded previous_mismatch evidence_missing placement_conflict : Error
  invalid_profile profile_version_conflict profile_version_gap : Error
  recovery_open recovery_stage recovery_mismatch recovery_epoch : Error
  agent_stopped agent_not_stopped invalid_images : Error
  -- An error that wraps no sentinel.
  unnamed : Error
  -- An error that a Registrar returned.
  registrar : RegistrationError → Error

-- What a call returns. `panic` is an index out of range or a nil pointer dereferenced.
pub data Result {ℓ} (A : Type ℓ) : Type ℓ where
  ok : A → Result A
  err : Error → Result A
  panic : Result A

-- `errors.Is(err, ErrNotFound)`
abbrev pub is_not_found : Error → Bool
is_not_found Error.not_found = Bool.true
is_not_found _ = Bool.false

pub Result-cases {ℓ} :
    {A : Type ℓ} (r : Result A) → ((a : A) × (r ≡ ok a)) ⊎ ((e : Error) × (r ≡ err e)) ⊎ (r ≡ panic)
Result-cases (ok a) = inl (a, refl)
Result-cases (err e) = inr (inl (e, refl))
Result-cases panic = inr (inr refl)
