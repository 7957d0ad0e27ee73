-- ===== src/Service/Create.antt =====
-- internal/definition/create.go. The Registrar, which asks garam, is a parameter: what it answers a
-- registration.
use garam_agent_operator.Prelude.{Bool, false, ◌||◌, some, ◌!=◌, string_eq, ℕ_eq, if◌then◌else◌}
use garam_agent_operator.Exec.{Exec, pure, raise, lift, ◌>>=◌, ◌>>◌}
use garam_agent_operator.Definition.Errors.{Error, Result, ok, err}
use garam_agent_operator.Repository.{Memory}
use garam_agent_operator.SecretRef.{Validation}
use garam_agent_operator.Definition.Errors.{RegistrationError}
use garam_agent_operator.Definition.Types.{
  CreateInput, Creation, Outcome, Registered, Registration, Definition, Template,
}
use garam_agent_operator.Definition.Equalities.{
  binding_eq, template_ref_eq, profile_ref_eq, registered_eq,
}
use garam_agent_operator.Repository.Publishing.{get_template, get_profile}
use garam_agent_operator.Repository.Creations.{begin_creation, register_creation, fail_creation}
use garam_agent_operator.Service.Checks.{check_config}

pub data Answer : Type 0 where
  answered : Registered → Answer
  refused : RegistrationError → Answer

abbrev pub Registrar : Type 0
Registrar = Registration → Answer

-- A repeat of a creation that is registered.
unfoldable pub recheck : Creation → Registered → Answer → Result (Creation × Bool)
recheck c stored (answered answer) =
    if answer != stored then err Error.assignment_moved else ok (c, false)
recheck c stored (refused e) =
    if e.is_conflict then err Error.assignment_moved else err (Error.registrar e)

abbrev pub first_revision : CreateInput → Template → Registered → Definition
first_revision input t answer = record {
  agent = answer.agent;
  organization = input.request.organization;
  revision = 1;
  profile = input.profile;
  config = t.config;
  assignment = some (record { operator = input.controller; epoch = answer.epoch });
}

abbrev pub registration_of : CreateInput → Registration
registration_of input = record {
  request = input.request;
  controller = input.controller;
  operation_ref = input.binding.operation_ref;
}

module _ {S : Type 0} where
  -- A creation that is pending, once garam has answered.
  unfoldable pub settle_pending :
      CreateInput → Template → Answer → Exec (Memory S) (Creation × Bool)
  settle_pending input t (answered answer) =
      register_creation input.request (first_revision input t answer)
  settle_pending input t (refused e) =
      if e.is_refused || e.is_conflict
      then (do failed ← fail_creation input.request e.message e.is_conflict; pure (failed, false))
      else raise (Error.registrar e)

  -- What is done with the creation stored under the request's key.
  unfoldable pub continue_creation :
      Registrar → CreateInput → Template → Creation → Exec (Memory S) (Creation × Bool)
  unfolding recheck settle_pending
  continue_creation registrar input t c = elim c.outcome [
    | Outcome.failed _ _ ↦ pure (c, false)
    | Outcome.registered stored ↦ lift (recheck c stored (registrar (registration_of input)))
    | Outcome.pending ↦ settle_pending input t (registrar (registration_of input))
  ]

  unfoldable pub create_agent :
      Validation → Registrar → CreateInput → Exec (Memory S) (Creation × Bool)
  unfolding continue_creation
  create_agent v registrar input = do
    t ← get_template input.request.organization input.template
    lift (check_config v t.config)
    get_profile input.request.organization input.profile
    c ← begin_creation (record {
      key = input.request;
      binding = input.binding;
      controller = input.controller;
      template = input.template;
      profile = input.profile;
      outcome = Outcome.pending;
    })
    if c.binding != input.binding
          || c.controller != input.controller
          || c.template != input.template
          || c.profile != input.profile
        then raise Error.request_reused
        else continue_creation registrar input t c
