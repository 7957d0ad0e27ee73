-- ===== src/Tests/Repeats.antt =====
-- Runs of requests that are repeated, and of a controller's reports.
use garam_agent_operator.Prelude.{arith, ℕ, ◌≡◌, refl, true, false, some, [], ◌∷◌, List, string_eq}
use garam_agent_operator.Definition.Errors.{ok}
use garam_agent_operator.Definition.Types.{Creation, Outcome, Publication, Profile}
use garam_agent_operator.Repository.{Memory, new_memory, StoredOperator}
use garam_agent_operator.Repository.Calls.{Call, run}
use garam_agent_operator.Service.Create.{create_agent}
use garam_agent_operator.Service.Operations.{Operation, serve_all}
use garam_agent_operator.History.Creations.Made.{IsMade, create_agent-IsMade}
use garam_agent_operator.History.Creations.Repeats.{create_agent-repeat}
use garam_agent_operator.Tests.Data.{
  opened, deps, same, key, validation, create_input, sample_creation, template, template_ref,
  binding,
}

abbrev published : Memory ℕ
published =
    serve_all deps new_memory
      (Operation.publish_profile "org" "default" 7 ∷ Operation.publish_template "org" template ∷ [])

abbrev again : List (Call ℕ)
again = Call.publish_profile "org" "default" 8 ∷ Call.publish_template "org" template ∷ []

abbrev created : Creation
created = sample_creation (Outcome.registered (record { agent = "agent"; epoch = "epoch-1" }))

create_agent-IsMade_example :
    IsMade validation deps.registrar create_input created published
      (create_agent validation deps.registrar create_input published).1
unfolding opened
create_agent-IsMade_example =
    create_agent-IsMade validation deps.registrar create_input created published refl

create_agent-repeat_example :
    create_agent validation deps.registrar create_input
      (run same (create_agent validation deps.registrar create_input published).1 again)
    ≡ (
      ok (created, false),
      run same (create_agent validation deps.registrar create_input published).1 again,
    )
unfolding opened
create_agent-repeat_example =
    create_agent-repeat same validation deps.registrar create_input created published again refl

abbrev publication : Publication
publication = record { key = key "publish"; binding = binding "publish"; template = template_ref }

abbrev first_version : Profile ℕ
first_version = record { name = "default"; version = 1; settings = 7 }

reflexive : (s : ℕ) → same s s ≡ true
reflexive s = ground arith

abbrev reported_twice : List (Call ℕ)
reported_twice =
    Call.record_operator_contact "org" "operator" 5
    ∷ Call.report_operator_images "org" "operator" [] 6
    ∷ []

abbrev seen : StoredOperator
seen = record {
  org_grn = "org";
  operator = record {
    grn = "operator";
    images = [];
    reported_at = some 6;
    last_contact_at = some 5;
  };
}
