-- ===== src/Tests/Feeds.antt =====
-- Runs of the controller routes: a placement is registered and the desired feed is read.
use garam_agent_operator.Prelude.{
  ℕ, refl, String, none, some, List, [], ◌∷◌, ◌==◌, string_eq, if◌then◌else◌, false,
}
use garam_agent_operator.Definition.Types.{Placement}
use garam_agent_operator.Definition.Placement.{no_previous}
use garam_agent_operator.Repository.{Memory}
use garam_agent_operator.Repository.Operators.{record_operator_contact, operator_locked}
use garam_agent_operator.Distribution.{Proved, proof, Codec, Request, Server}
use garam_agent_operator.Distribution.Session.{
  is_operator_token, presented, record_contact, authenticate, proved_epoch, placed, placed_epoch,
  assigned_to, prove_placed_at,
}
use garam_agent_operator.Distribution.Requests.{is_sha256, parse_placement, register}
use garam_agent_operator.Distribution.Registrations.{register-IsRegistered, IsRegistered}
use garam_agent_operator.Distribution.Feed.{
  parse_position, parse_wait, parse_query, Wake, DesiredResponse, wait_loop, wait_past,
  release_next, release, desired_feed,
}
use garam_agent_operator.Distribution.Releases.{desired_feed-IsFed, IsFed}
use garam_agent_operator.Text.{is_bearer, atoi}
use garam_agent_operator.MachineToken.{to_duration}
use garam_agent_operator.Definition.Revision.{all_digits, parse_int, revision_string}
use garam_agent_operator.Repository.Revisions.{position}
use garam_agent_operator.Tests.Data.{opened, agent_store, new, profile_ref, config}

unfoldable opened_controllers : Unit {0}
unfolding opened record_operator_contact operator_locked is_operator_token presented record_contact
    authenticate proved_epoch placed placed_epoch assigned_to prove_placed_at is_sha256
    parse_placement register parse_position parse_wait parse_query wait_loop wait_past release_next
    release desired_feed is_bearer to_duration atoi all_digits parse_int position revision_string
opened_controllers = tt

abbrev digest : String
digest = "0123456789abcdef0123456789abcdef0123456789abcdef0123456789abcdef"

abbrev prover : String → String → String → Proved
prover operator token agent = proof (record {
  operator = operator;
  org = "org";
  agent = if agent == "" then none else some (record { grn = agent; epoch = "epoch-1" });
})

abbrev codec : Codec
codec = record {
  decode_placement = λ b. some (record {
    epoch = "epoch-1";
    pod_uid = "pod-1";
    pvc_uid = "pvc";
    token_sha256 = digest;
    previous = none;
  });
  decode_recovery = λ b. none;
  decode_status = λ b. none;
  decode_images = λ b. none;
}

abbrev request : Request
request = record {
  agent = "agent";
  authorization =
      "Bearer garam_ot_0123456789abcdef0123456789abcdef0123456789abcdef0123456789abcdef";
  controller = "controller";
  after = b'0' ∷ [];
  wait_seconds = b'2' ∷ [];
  body = b'{' ∷ [];
  is_cut = false;
  prove = prover;
  now = 5;
}

abbrev server : Memory ℕ → Server ℕ
server m = record { memory = m; written = []; unrecorded = [] }

abbrev registered : Placement
registered = record {
  agent = "agent";
  controller = "controller";
  request = record {
    pod_uid = "pod-1";
    pvc_uid = "pvc";
    epoch = "epoch-1";
    token_sha256 = digest;
    previous = no_previous;
  };
  superseded = false;
}

register-IsRegistered_example :
    IsRegistered codec request
      (server agent_store)
      (registered, 201)
      (register codec request (server agent_store)).1
unfolding opened_controllers
register-IsRegistered_example =
    register-IsRegistered codec request (server agent_store) (registered, 201) refl

-- The agent is created while a new store's feed waits.
abbrev wakes : List (Wake ℕ)
wakes =
    record { memory = agent_store; now = 6; is_done = false }
    ∷ record { memory = agent_store; now = 9000000000; is_done = false }
    ∷ []

abbrev feed_answer : DesiredResponse ℕ
feed_answer = record {
  cursor = 1;
  agents =
      record {
        agent = "agent";
        revision = 1;
        epoch = "epoch-1";
        profile = profile_ref;
        settings = 7;
        configuration = config;
        stopped = false;
        recovery = none;
      }
      ∷ [];
}

desired_feed-IsFed_example : IsFed 10 request wakes (server new) feed_answer
unfolding opened_controllers
desired_feed-IsFed_example = desired_feed-IsFed 10 request wakes (server new) feed_answer refl
