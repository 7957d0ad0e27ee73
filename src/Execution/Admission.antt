-- ===== src/Execution/Admission.antt =====
-- What each step of an activation on the agent routes answers and leaves.
use garam_agent_operator.Prelude.{
  [], beq_refl, ◌≤◌, ◌≡◌, ◌≢◌, String, Bool, some, Bool-cases, inl, inr, ◌⊎◌, ◌==◌, string_eq,
  arith, ap, ◌∙◌,
}
use text.Mathlib.TextEquality.{eq_iff}
use garam_agent_operator.Definition.Errors.{ok}
use garam_agent_operator.Definition.Types.{Placement, Activation}
use garam_agent_operator.Map.{get, put}
use garam_agent_operator.Map.Laws.{get-put_self, get_or-put}
use garam_agent_operator.Repository.{Memory}
use garam_agent_operator.Repository.Placements.{current_placement}
use garam_agent_operator.Repository.Activations.{
  activations_of, get_activation, record_activation, latest_activation,
}
use garam_agent_operator.Execution.{
  Introspection, ActivationCall, Answer, Garam, answered, GaramResult-cases,
}
use garam_agent_operator.Handler.{done}
use garam_agent_operator.Execution.Activate.{call_of, placement_of, admit, call_activate}

-- Garam judged the token current for the agent, and named the placement's controller as the agent's
-- assignee under the epoch.
pub record IsProved (g : Garam) (agent token epoch : String) (p : Placement) : Type 0 where
  pub proof : Introspection
  pub asked : g.introspect agent token "" ≡ answered proof
  pub credential : proof.credential ≡ "current"
  pub of_agent : proof.grn ≡ agent
  pub assignee : proof.assignee ≡ p.controller
  pub at_epoch : proof.epoch ≡ epoch

-- What garam is to be asked for a stored request: its id, epoch and generation, the activation that it
-- replaces, the console's operation, and the token that was presented.
abbrev pub stored_call : Activation → String → ActivationCall
stored_call stored token = record {
  request_id = stored.request.request_id;
  epoch = stored.request.epoch;
  generation = stored.request.generation;
  replaces_activation_id = stored.replaces_activation_id;
  operation_ref = stored.operation_ref;
  token = token;
}

-- Garam activated what the stored request asks for.
pub record IsCalled (g : Garam) (agent token : String) (stored : Activation) (x : Answer × Bool)
    : Type 0 where
  pub asked : g.activate agent (stored_call stored token) ≡ answered x
  pub of_agent : x.0.grn ≡ agent
  pub at_epoch : x.0.epoch ≡ stored.request.epoch
  pub of_generation : x.0.generation ≡ stored.request.generation
  pub named : x.0.activation_id ≢ ""
  pub has_token : x.0.token ≢ ""
  pub version : 1 ≤ x.0.token_version

-- The agent's placement that is not superseded has the token's digest and the epoch.
pub record IsPlaced {S : Type 0} (sha256_hex : String → String) (agent token epoch : String)
    (m : Memory S) (p : Placement) : Type 0 where
  pub current : (current_placement agent m).0 ≡ ok p
  pub digest : sha256_hex token ≡ p.request.token_sha256
  pub at_epoch : epoch ≡ p.request.epoch

module _ {S : Type 0} where
  pub placement_of-state :
      (sha256_hex : String → String) (agent token epoch : String) (m : Memory S)
      → (placement_of sha256_hex agent token epoch m).1 ≡ m
  unfolding placement_of current_placement
  placement_of-state sha256_hex agent token epoch m = ground arith

  pub current_placement-state : (agent : String) (m : Memory S) → (current_placement agent m).1 ≡ m
  unfolding current_placement
  current_placement-state agent m = ground arith

  pub placement_of-IsPlaced :
      (sha256_hex : String → String) (agent token epoch : String) (m : Memory S) (p : Placement)
      → (placement_of sha256_hex agent token epoch m).0 ≡ done p
      → IsPlaced sha256_hex agent token epoch m p
  unfolding placement_of current_placement
  placement_of-IsPlaced sha256_hex agent token epoch m p h = record {
    current = ground arith;
    digest = ground (arith, eq_iff (sha256_hex token) p.request.token_sha256);
    at_epoch = ground (arith, eq_iff epoch p.request.epoch);
  }

  pub admit-state :
      (g : Garam) (agent token epoch : String) (p : Placement) (m : Memory S)
      → (admit g agent token epoch p m).1 ≡ m
  unfolding admit
  admit-state g agent token epoch p m = ground arith

  pub admit-IsProved :
      (g : Garam) (agent token epoch : String) (p : Placement) (m : Memory S)
      → (admit g agent token epoch p m).0 ≡ done tt
      → IsProved g agent token epoch p
  unfolding admit
  admit-IsProved g agent token epoch p m h =
      elim (GaramResult-cases (g.introspect agent token "")) [
        | inr (e, q) ↦ absurd (ground arith)
        | inl (x, q) ↦ record {
          proof = x;
          asked = q;
          credential = ground (arith, eq_iff x.credential "current");
          of_agent = ground (arith, eq_iff x.grn agent);
          assignee = ground (arith, eq_iff x.assignee p.controller);
          at_epoch = ground (arith, eq_iff x.epoch epoch);
        }
      ]

  pub call_activate-state :
      (g : Garam) (agent token : String) (stored : Activation) (m : Memory S)
      → (call_activate g agent stored token m).1 ≡ m
  unfolding call_activate
  call_activate-state g agent token stored m = ground arith

  pub call_activate-IsCalled :
      (g : Garam) (agent token : String) (stored : Activation) (m : Memory S) (x : Answer × Bool)
      → (call_activate g agent stored token m).0 ≡ done x
      → IsCalled g agent token stored x
  unfolding call_activate
  call_activate-IsCalled g agent token stored m x h =
      elim (GaramResult-cases (g.activate agent (call_of stored token))) [
        | inr (e, q) ↦ absurd (ground arith)
        | inl ((a, created), q) ↦
            let same : (a, created) ≡ x = ground arith in
            record {
              asked = q ∙ ap answered same;
              of_agent = ground (arith, eq_iff a.grn agent);
              at_epoch = ground (arith, eq_iff a.epoch stored.request.epoch);
              of_generation = ground (arith, eq_iff a.generation stored.request.generation);
              named = ground (arith, eq_iff a.activation_id "");
              has_token = ground (arith, eq_iff a.token "");
              version = ground arith;
            }
      ]

  pub record_activation_ok :
      (agent id activation_id : String) (stored : Activation) (m : Memory S)
      → get id (activations_of agent m) ≡ some stored
      → (record_activation agent id activation_id m).0 ≡ ok tt
      → ((get_activation agent id (record_activation agent id activation_id m).1).0
          ≡ ok (record stored { activation_id = activation_id }))
        × ((latest_activation agent (record_activation agent id activation_id m).1).0
            ≡ ok activation_id)
  unfolding record_activation get_activation latest_activation
  record_activation_ok agent id activation_id stored m at h =
      let stored' : Activation = record stored { activation_id = activation_id } in
      let xs = put id stored' (activations_of agent m) in
      (
        ground (
          arith,
          get_or-put [] agent agent xs m.activations,
          beq_refl agent,
          get-put_self id stored' (activations_of agent m),
        ),
        ground (arith, get-put_self agent activation_id m.latest),
      )

  pub record_activation-same_id :
      (agent id activation_id : String) (stored : Activation) (m : Memory S)
      → get id (activations_of agent m) ≡ some stored
      → (record_activation agent id activation_id m).0 ≡ ok tt
      → (stored.activation_id ≡ "") ⊎ (activation_id ≡ stored.activation_id)
  unfolding record_activation
  record_activation-same_id agent id activation_id stored m at h =
      elim (Bool-cases (stored.activation_id == "")) [
        | inl free ↦ inl ((eq_iff stored.activation_id "").0 free)
        | inr taken ↦ inr (ground (arith, eq_iff stored.activation_id activation_id))
      ]

  pub record_activation-err :
      (agent id activation_id : String) (m : Memory S)
      → ((record_activation agent id activation_id m).0 ≡ ok tt → ⊥)
      → (record_activation agent id activation_id m).1 ≡ m
  unfolding record_activation
  record_activation-err agent id activation_id m h = ground (arith, h)
