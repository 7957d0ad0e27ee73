-- ===== src/History/Activations.antt =====
-- Activation requests: each is stored once, and its activation's id is recorded once.
pub mod Prepared
use garam_agent_operator.Prelude.{
  ◌≡◌, refl, String, Bool, ◌≢◌, some, List, [], ◌∷◌, Option-cases, inl, Bool-cases, inr, ◌&&◌, ◌⊎◌,
  ◌∙◌, if◌then◌else◌, string_eq, ◌==◌, ◌!=◌, arith,
}
use text.Mathlib.TextEquality.{eq_iff}
use garam_agent_operator.Repository.Calls.Frames.{activations-step}
use garam_agent_operator.Definition.Errors.{ok, err, Error}
use garam_agent_operator.Map.{Map, get, put}
use garam_agent_operator.Map.Laws.{get-put, get_or-put}
use garam_agent_operator.Definition.Types.{Activation}
use garam_agent_operator.Repository.{Memory}
use garam_agent_operator.Repository.Activations.{
  activations_of, insert_activation, get_activation, record_activation,
}
use garam_agent_operator.Repository.Calls.{Call, step, run}

-- The same request, with the id that was recorded, if one was.
pub record Follows (a b : Activation) : Type 0 where
  pub agent : b.agent ≡ a.agent
  pub request : b.request ≡ a.request
  pub replaces : b.replaces_activation_id ≡ a.replaces_activation_id
  pub operation_ref : b.operation_ref ≡ a.operation_ref
  pub id : (a.activation_id ≡ "") ⊎ (b.activation_id ≡ a.activation_id)

Follows-refl : (a : Activation) → Follows a a
Follows-refl a = record {
  agent = refl;
  request = refl;
  replaces = refl;
  operation_ref = refl;
  id = inr refl;
}

Follows-trans : (a b c : Activation) → Follows a b → Follows b c → Follows a c
Follows-trans a b c f g = record {
  agent = g.agent ∙ f.agent;
  request = g.request ∙ f.request;
  replaces = g.replaces ∙ f.replaces;
  operation_ref = g.operation_ref ∙ f.operation_ref;
  id = ground (arith, f.id, g.id);
}

module _ {S : Type 0} (same : S → S → Bool) where
  abbrev Stored : Memory S → String → String → Activation → Type 0
  Stored m agent request_id a = get request_id (activations_of agent m) ≡ some a

  abbrev Kept : Memory S → String → String → Activation → Type 0
  Kept m agent request_id a = (b : Activation) × Stored m agent request_id b × Follows a b

  activations_of-put :
      (agent other : String) (xs : Map String Activation) (m : Memory S)
      → activations_of other (record m { activations = put agent xs m.activations })
        ≡ (if agent == other then xs else activations_of other m)
  activations_of-put agent other xs m = get_or-put [] agent other xs m.activations

  step-Kept :
      (m : Memory S) (c : Call S) (agent request_id : String) (a : Activation)
      → Stored m agent request_id a
      → Kept (step same m c) agent request_id a
  unfolding step insert_activation record_activation
  step-Kept m (Call.insert_activation n) agent request_id a h = (
    a,
    ground (
      arith,
      eq_iff n.agent agent,
      eq_iff n.request.request_id request_id,
      get_or-put [] n.agent agent (put n.request.request_id n (activations_of n.agent m))
          m.activations,
      get-put n.request.request_id request_id n (activations_of n.agent m),
    ),
    Follows-refl a,
  )
  step-Kept m (Call.record_activation other id activation_id) agent request_id a h =
      elim (Option-cases (get id (activations_of other m))) [
        | inl e ↦ (a, ground arith, Follows-refl a)
        | inr (b, e) ↦
            elim (Bool-cases (b.activation_id != "" && b.activation_id != activation_id)) [
              | inl refused ↦ (a, ground arith, Follows-refl a)
              | inr taken ↦
                  let b' : Activation = record b { activation_id = activation_id } in
                  let xs = put id b' (activations_of other m) in
                  elim (Bool-cases (other == agent && id == request_id)) [
                    | inl hit ↦
                        let same_agent : other ≡ agent = ground (arith, eq_iff other agent) in
                        let same_id : id ≡ request_id = ground (arith, eq_iff id request_id) in
                        (
                          b',
                          ground (
                            arith,
                            get_or-put [] other agent xs m.activations,
                            get-put id request_id b' (activations_of other m),
                          ),
                          record {
                            agent = ground arith;
                            request = ground arith;
                            replaces = ground arith;
                            operation_ref = ground arith;
                            id = ground (
                              arith,
                              eq_iff b.activation_id "",
                              eq_iff b.activation_id activation_id,
                            );
                          },
                        )
                    | inr miss ↦ (
                      a,
                      ground (
                        arith,
                        eq_iff other agent,
                        get_or-put [] other agent xs m.activations,
                        get-put id request_id b' (activations_of other m),
                      ),
                      Follows-refl a,
                    )
                  ]
            ]
      ]
  step-Kept m c agent request_id a h = (a, rw (activations-step same m c refl) h, Follows-refl a)

  run-Kept :
      (m : Memory S) (cs : List (Call S)) (agent request_id : String) (a : Activation)
      → Stored m agent request_id a
      → Kept (run same m cs) agent request_id a
  unfolding run
  run-Kept m [] agent request_id a h = (a, h, Follows-refl a)
  run-Kept m (c ∷ cs) agent request_id a h =
      let (b, at_b, f) = step-Kept m c agent request_id a h in
      let (d, at_d, g) = run-Kept (step same m c) cs agent request_id b at_b in
      (d, at_d, Follows-trans a b d f g)

  -- Once an activation request is answered, then after any calls it is answered with the same
  -- agent, request, replaced activation and reference, and with the same activation's id if one was
  -- recorded.
  pub get_activation-run :
      (m : Memory S) (cs : List (Call S)) (agent request_id : String) (a : Activation)
      → (get_activation agent request_id m).0 ≡ ok a
      → (b : Activation) × ((get_activation agent request_id (run same m cs)).0 ≡ ok b)
        × Follows a b
  unfolding get_activation
  get_activation-run m cs agent request_id a h =
      let (b, at_b, f) = run-Kept m cs agent request_id a (ground arith) in (b, ground arith, f)

  -- Once an activation's id is recorded for a request, then after any calls a different id is
  -- refused for it and changes nothing.
  pub record_activation-run_mismatch :
      (m : Memory S) (cs : List (Call S)) (agent request_id id : String) (a : Activation)
      → (get_activation agent request_id m).0 ≡ ok a
      → a.activation_id ≢ ""
      → id ≢ a.activation_id
      → record_activation agent request_id id (run same m cs)
        ≡ (err Error.activation_mismatch, run same m cs)
  unfolding get_activation record_activation
  record_activation-run_mismatch m cs agent request_id id a h recorded other =
      let (b, at_b, f) = run-Kept m cs agent request_id a (ground arith) in
      let same_id : b.activation_id ≡ a.activation_id = ground (arith, f.id) in
      ground (arith, eq_iff b.activation_id "", eq_iff b.activation_id id)
