-- ===== src/Tests/Requests.antt =====
-- Runs of the agent routes: a runtime is activated, asks again and reports.
use garam_agent_operator.Prelude.{
  ℕ, ◌≢◌, refl, String, some, List, [], ◌∷◌, string_eq, arith, true, false,
}
use garam_agent_operator.Repository.{Memory}
use garam_agent_operator.Repository.Placements.{register_placement}
use garam_agent_operator.Repository.Activations
use garam_agent_operator.Service.Activation.{
  prepare_activation, prepare_new, operation_reference, record_runtime_status,
}
use garam_agent_operator.Service.Stop.{stopped}
use garam_agent_operator.Repository.Stops.{current_stop}
use garam_agent_operator.Repository.Creations.{creation_of}
use garam_agent_operator.Handler.{done}
use garam_agent_operator.Execution.{GaramError, answered, failed, Garam, Codec, Request}
use garam_agent_operator.Execution.Formats.{is_request_id, is_generation, is_agent_token, read_body}
use garam_agent_operator.Execution.Activate.{
  ActivationResponse, agent_token, parse_activation, placement_of, admit, call_activate,
  activate_locked, activate,
}
use garam_agent_operator.Execution.Report.{parse_status, admit_stored, admit_report, report_status}
use garam_agent_operator.Execution.Activations.{
  activate-IsActivated, activate-IsUnanswered, IsActivated, IsUnanswered,
}
use garam_agent_operator.Execution.Reports.{report_status-IsTaken, IsTaken}
use garam_agent_operator.Execution.Retries.{activate-run-IsRetry, IsRetry}
use garam_agent_operator.Execution.Respond.{Server, Route}
use garam_agent_operator.Execution.Respond
use garam_agent_operator.Execution.Contracts.{serve_all-IsOnce, IsOnce}
use garam_agent_operator.Tests.Data.{opened, agent_store, placement, same, later}

unfoldable opened_routes : Unit {0}
unfolding opened is_request_id is_generation is_agent_token read_body agent_token parse_activation
    placement_of admit call_activate activate_locked activate parse_status admit_stored admit_report
    report_status prepare_activation record_runtime_status Activations.activation_of_generation
    stopped current_stop prepare_new operation_reference creation_of
opened_routes = tt

abbrev runtime_token : String
runtime_token = "garam_at_0123456789abcdef0123456789abcdef0123456789abcdef0123456789abcdef"

abbrev generation : String
generation = "0123456789abcdef0123456789abcdef"

abbrev garam : Garam
garam = record {
  introspect = λ agent token g. answered (record {
    grn = agent;
    org = "org";
    assignee = "controller";
    epoch = "epoch-1";
    mode = "mode";
    credential = "current";
    generation = "current";
    activation_id = "activation-1";
  });
  activate = λ agent c. answered (
    record {
      activation_id = "activation-1";
      token = "runtime";
      token_version = 1;
      grn = agent;
      epoch = c.epoch;
      generation = c.generation;
    },
    true,
  );
}

abbrev codec : Codec
codec = record {
  sha256_hex = λ s. "token";
  decode_activation = λ b. some (record {
    request_id = "activate";
    epoch = "epoch-1";
    generation = generation;
    config_revision = b'1' ∷ [];
  });
  decode_status = λ b. some (record {
    activation_id = "activation-1";
    grn = "agent";
    epoch = "epoch-1";
    generation = generation;
    config_revision = b'1' ∷ [];
    state = "serving";
    started_at = 1;
    observed_at = 2;
  });
}

abbrev request : Request
request = record {
  agent = "agent";
  contract = "agent-execution.v2";
  authorization =
      "Garam-Token garam_at_0123456789abcdef0123456789abcdef0123456789abcdef0123456789abcdef";
  placement_token = "secret";
  body = b'{' ∷ [];
  is_cut = false;
  garam = garam;
}

-- The agent, with its placement.
abbrev placed_store : Memory ℕ
placed_store = (register_placement (placement "pod-1") agent_store).1

abbrev response : ℕ × ActivationResponse
response = (
  201,
  record {
    activation_id = "activation-1";
    token_version = 1;
    token = "runtime";
    grn = "agent";
    epoch = "epoch-1";
    generation = generation;
    config_revision = 1;
  },
)

abbrev activated_store : Memory ℕ
activated_store = (activate codec request placed_store).1

activate-IsActivated_example : IsActivated codec request placed_store response activated_store
unfolding opened_routes
activate-IsActivated_example = activate-IsActivated codec request placed_store response refl

abbrev undecided : Request
undecided = record request {
  garam = record garam { activate = λ agent c. failed GaramError.undecided };
}

unanswered : (x : ℕ × ActivationResponse) → (activate codec undecided placed_store).0 ≢ done x
unfolding opened_routes
unanswered x h = ground arith

activate-IsUnanswered_example :
    IsUnanswered undecided placed_store (activate codec undecided placed_store).1
activate-IsUnanswered_example = activate-IsUnanswered codec undecided placed_store unanswered

report_status-IsTaken_example :
    IsTaken codec request activated_store (report_status codec request activated_store).1
unfolding opened_routes
report_status-IsTaken_example = report_status-IsTaken codec request activated_store refl

activate-run-IsRetry_example : IsRetry request request response response
unfolding opened_routes
activate-run-IsRetry_example =
    activate-run-IsRetry same codec request request placed_store later response response refl refl
      refl refl

abbrev foreign : Request
foreign = record request {
  garam = record garam {
    introspect = λ agent token g. failed (GaramError.foreign "introspect" "garam.v9");
  };
}

abbrev server : Server ℕ
server = record { memory = placed_store; foreign_contracts = []; logged = [] }

abbrev requests : List (Route × Request)
requests = (Route.activations, foreign) ∷ (Route.runtime_status, foreign) ∷ []

serve_all-IsOnce_example : IsOnce (Respond.serve_all codec requests server)
serve_all-IsOnce_example =
    serve_all-IsOnce codec requests server (record { same = refl; distinct = tt })
