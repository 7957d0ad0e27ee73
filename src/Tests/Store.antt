-- ===== src/Tests/Store.antt =====
-- Runs of the store: what is published, created and configured.
use garam_agent_operator.Prelude.{ℕ, ◌≡◌, refl, true, false, some, string_eq}
use garam_agent_operator.Definition.Errors.{ok}
use garam_agent_operator.Definition.Types.{
  Profile, Template, Request, RequestOutcome, Outcome, Creation,
}
use garam_agent_operator.Definition.Equalities.{request_key_eq}
use garam_agent_operator.Repository.Creations
use garam_agent_operator.Repository.Calls.{run}
use garam_agent_operator.Service.Configure
use garam_agent_operator.History.Creations.{run-creation_settled}
use garam_agent_operator.Tests.Data.{
  later, opened, same, key, agent_store, configure_input, first, template, sample_creation,
}

abbrev profile : Profile ℕ
profile = record { name = "default"; version = 1; settings = 7 }

abbrev stored_template : Template
stored_template = record template { version = 1 }

abbrev settled : Creation
settled = sample_creation (Outcome.registered (record { agent = "agent"; epoch = "epoch-1" }))

run-creation_settled_example :
    (Creations.begin_creation settled (run same agent_store later)
      ≡ (ok settled, run same agent_store later))
    × (Creations.register_creation (key "create") first (run same agent_store later)
        ≡ (ok (settled, false), run same agent_store later))
    × (Creations.fail_creation (key "create") "refused" true (run same agent_store later)
        ≡ (ok settled, run same agent_store later))
unfolding opened
run-creation_settled_example =
    run-creation_settled same agent_store later settled settled (key "create") first "refused" true
      refl refl refl

abbrev stored_request : Request
stored_request = record (Configure.request_of configure_input) {
  outcome = some (RequestOutcome.applied 2);
}
