-- ===== src/Tests/Data.antt =====
-- The store and the requests of the runs.
use garam_agent_operator.Prelude.{
  ℕ, String, Bool, false, not, ◌==◌, ◌!=◌, string_eq, ℕ_eq, none, some, List, [], ◌∷◌,
}
use garam_agent_operator.Definition.Errors.{ok}
use garam_agent_operator.Definition.Types.{
  Embedding, Configuration, ProfileRef, TemplateRef, Template, Assignment, Definition, RequestKey,
  Binding, CreateInput, Creation, Outcome, ConfigureInput, PlacementInput, Placement,
  ActivationRequest, Activation, Recovery, RecoveryStage, Stop,
}
use garam_agent_operator.Definition.Placement.{no_previous, decide_placement}
use garam_agent_operator.Definition.Revision.{parse_revision}
use garam_agent_operator.Definition.Equalities.{
  profile_ref_beq, template_ref_beq, assignment_beq, request_key_beq, binding_beq, registered_beq,
  previous_placement_beq, placement_request_beq, activation_request_beq,
}
use garam_agent_operator.SecretRef.{Validation, parse}
use garam_agent_operator.SecretRef.Exact.{has_slash}
use garam_agent_operator.Map.{get, put, find_value, last_value, count}
use garam_agent_operator.Repository.{Memory, new_memory}
use garam_agent_operator.Repository.Publishing
use garam_agent_operator.Repository.Revisions
use garam_agent_operator.Repository.Creations
use garam_agent_operator.Repository.Placements
use garam_agent_operator.Repository.Activations
use garam_agent_operator.Repository.Statuses
use garam_agent_operator.Repository.Recoveries
use garam_agent_operator.Repository.Stops
use garam_agent_operator.Repository.Calls.{Call, step, run}
use garam_agent_operator.Service.Checks
use garam_agent_operator.Service.Publish
use garam_agent_operator.Service.Create
use garam_agent_operator.Service.Configure
use garam_agent_operator.Service.Read
use garam_agent_operator.Text.{codes}
use garam_agent_operator.Service.Operations.{Operation, Deps, serve, serve_all}

-- Opens what the runs compute.
unfoldable pub opened : Unit {0}
unfolding profile_ref_beq template_ref_beq assignment_beq request_key_beq binding_beq registered_beq
    previous_placement_beq placement_request_beq activation_request_beq decide_placement
    parse_revision parse get put find_value last_value count new_memory Publishing.publish_profile
    Publishing.publish_template Publishing.get_profile Publishing.get_template
    Publishing.publish_once Revisions.append_locked Revisions.configure Revisions.get_definition
    Revisions.desired Revisions.owed_to Revisions.owed_of Creations.begin_creation
    Creations.register_creation Creations.fail_creation Placements.register_placement
    Placements.current_placement Activations.insert_activation Activations.get_activation
    Activations.record_activation Activations.latest_activation Statuses.record_status
    Statuses.record_runtime_applied Statuses.get_status Statuses.get_runtime_applied
    Recoveries.open_recovery Recoveries.open_recovery_locked Recoveries.recovery_locked
    Recoveries.prepare_recovery Recoveries.latest_recovery Stops.current_stop_locked
    Stops.record_stop Stops.record_start step run Checks.check_config Checks.same_endpoint
    Publish.publish_profile Publish.publish_template Create.create_agent Configure.embedding_kept
    Configure.configure Read.execution serve serve_all
opened = tt

abbrev pub validation : Validation
validation = record { is_subdomain = λ s. not (has_slash s); is_config_map_key = λ s. s != "" }

abbrev pub same : ℕ → ℕ → Bool
same a b = a == b

abbrev pub deps : Deps ℕ
deps = record {
  validation = validation;
  check = λ s. ok tt;
  same = same;
  registrar = λ r. Create.answered (record { agent = "agent"; epoch = "epoch-1" });
  quote = codes;
}

abbrev pub embedding : Embedding
embedding = record { base_url = "https://embed"; name = "embed"; api_key = "" }

abbrev pub config : Configuration
config = record {
  model = record {
    provider = "openai";
    base_url = "";
    name = "model";
    api_key = "secret/key";
    embedding = some embedding;
  };
  ego = "ego";
  tools = [];
}

abbrev pub profile_ref : ProfileRef
profile_ref = record { name = "default"; version = 1 }

abbrev pub template_ref : TemplateRef
template_ref = record { name = "basic"; version = 1 }

abbrev pub template : Template
template = record { name = "basic"; version = 0; profile = profile_ref; config = config }

abbrev pub assignment : Assignment
assignment = record { operator = "controller"; epoch = "epoch-1" }

abbrev pub key : String → RequestKey
key id = record { organization = "org"; request_id = id }

abbrev pub binding : String → Binding
binding operation = record {
  actor = "actor";
  operation = operation;
  target = "agent";
  body_sha256 = "body";
  operation_ref = "ref";
  assignment = assignment;
}

abbrev pub create_input : CreateInput
create_input = record {
  request = key "create";
  binding = binding "create";
  controller = "controller";
  template = template_ref;
  profile = profile_ref;
}

-- A profile, a template and an agent made from them.
abbrev pub setup : List (Operation ℕ)
setup =
    Operation.publish_profile "org" "default" 7
    ∷ Operation.publish_template "org" template
    ∷ Operation.create_agent create_input
    ∷ []

abbrev pub agent_store : Memory ℕ
agent_store = serve_all deps new_memory setup

abbrev pub configure_input : ConfigureInput
configure_input = record {
  request = key "configure";
  binding = binding "configure";
  agent = "agent";
  expected_revision = 1;
  profile = profile_ref;
  config = record config { ego = "other" };
}

-- The agent's first revision.
abbrev pub first : Definition
first = record {
  agent = "agent";
  organization = "org";
  revision = 1;
  profile = profile_ref;
  config = config;
  assignment = some assignment;
}

abbrev pub placement : String → PlacementInput
placement uid = record {
  agent = "agent";
  controller = "controller";
  request = record {
    pod_uid = uid;
    pvc_uid = "pvc";
    epoch = "epoch-1";
    token_sha256 = "token";
    previous = no_previous;
  };
}

-- One that replaces another.
abbrev pub replacement : String → String → PlacementInput
replacement uid old = record {
  agent = "agent";
  controller = "controller";
  request = record {
    pod_uid = uid;
    pvc_uid = "pvc";
    epoch = "epoch-1";
    token_sha256 = "token";
    previous = record { pod_uid = old; writer_stopped_sha256 = "stopped" };
  };
}

abbrev pub placed : PlacementInput → Bool → Placement
placed input superseded = record {
  agent = input.agent;
  controller = input.controller;
  request = input.request;
  superseded = superseded;
}

abbrev pub sample_stop : String → Stop
sample_stop id = record {
  agent = "agent";
  key = key id;
  binding = binding "stop";
  activation_id = "";
  deactivated = false;
  start = none;
}

abbrev pub sample_recovery : String → RecoveryStage → Recovery
sample_recovery id stage = record {
  agent = "agent";
  request_id = id;
  key = key id;
  binding = binding "recover";
  epoch = "epoch-1";
  stage = stage;
  body = [];
  recovered = none;
}

abbrev pub activation_request : ActivationRequest
activation_request = record {
  request_id = "activate";
  epoch = "epoch-1";
  generation = "1";
  config_revision = 1;
  placement_pod_uid = "pod";
}

abbrev pub sample_activation : String → Activation
sample_activation id = record {
  agent = "agent";
  request = activation_request;
  replaces_activation_id = "";
  operation_ref = "ref";
  activation_id = id;
}

abbrev pub sample_creation : Outcome → Creation
sample_creation outcome = record {
  key = key "create";
  binding = binding "create";
  controller = "controller";
  template = template_ref;
  profile = profile_ref;
  outcome = outcome;
}

abbrev pub new : Memory ℕ
new = new_memory

-- What other requests publish meanwhile.
abbrev pub later : List (Call ℕ)
later = Call.publish_profile "org" "default" 8 ∷ Call.publish_template "org" template ∷ []
