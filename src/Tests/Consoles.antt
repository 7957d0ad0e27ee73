-- ===== src/Tests/Consoles.antt =====
-- A run of a route of the console: an agent is configured.
use garam_agent_operator.Prelude.{refl, none, some, [], ◌∷◌, false}
use garam_agent_operator.Console.{bound, deactivated, Setting, Request}
use garam_agent_operator.Console.Routes
use garam_agent_operator.Console.Routes.{authority_of, refused_for, parse_configure, authorize}
use garam_agent_operator.Console.Configured.{IsConfigured, configure-IsConfigured}
use garam_agent_operator.Tests.Data.{
  opened, agent_store, validation, config, profile_ref, assignment,
}

unfoldable opened_console : Unit {0}
unfolding opened authority_of refused_for parse_configure authorize Routes.configure
opened_console = tt

abbrev setting : Setting
setting = record {
  audience = "control";
  sha256_hex = λ b. "body";
  decode_configure = λ b. some (record {
    request_id = "configure";
    expected_revision = b'1' ∷ [];
    profile = profile_ref;
    configuration = record config { ego = "other" };
  });
  decode_create = λ b. none;
  decode_stop = λ b. none;
}

abbrev console_request : Request
console_request = record {
  org = "org";
  agent = "agent";
  authorization = "Garam-Operation authority";
  body = b'{' ∷ [];
  is_cut = false;
  now = 1;
  introspect = λ authority. bound (record {
    operation_ref = "ref";
    org = "grn:root:default:org:org";
    actor = "actor";
    audience = "control";
    operation = "agent:configure";
    target = "agent";
    assignment = some assignment;
    request_id = "configure";
    body_sha256 = "body";
    request_target = "";
    expires_at = 2;
  });
  deactivate = λ agent activation. deactivated;
}

configure-IsConfigured_example :
    IsConfigured validation setting console_request agent_store 2
      (Routes.configure validation setting console_request agent_store).1
unfolding opened_console
configure-IsConfigured_example =
    configure-IsConfigured validation setting console_request agent_store 2 refl
