-- ===== src/History/Creations/Made.antt =====
-- internal/definition/create.go: the agent that a creation makes.
use garam_agent_operator.Prelude.{
  ◌≡◌, ◌≢◌, refl, String, true, some, [], ◌∷◌, ◌++◌, List-cases, inl, inr, ◌∙◌, ap, sym, string_eq,
  ℕ_eq, arith, length, beq_ne,
}
use garam_agent_operator.Definition.Errors.{ok}
use garam_agent_operator.Definition.Types.{
  Creation, CreateInput, Outcome, Registered, Template, Profile, RequestKey, Definition,
}
use garam_agent_operator.Definition.Equalities.{request_key_eq}
use garam_agent_operator.Map.{get, get_or}
use garam_agent_operator.Map.Laws.{get_or-put, get-put_self}
use garam_agent_operator.SecretRef.{Validation}
use garam_agent_operator.Repository.{Memory}
use garam_agent_operator.Repository.Publishing.{get_template, get_profile}
use garam_agent_operator.Repository.Revisions.{revisions_of, append_locked}
use garam_agent_operator.Repository.Creations.{begin_creation, register_creation, register_pending}
use garam_agent_operator.Service.Checks.{check_config}
use garam_agent_operator.Service.Create.{answered, Registrar, create_agent, first_revision}
use garam_agent_operator.History.Creations.Created.{begun, create_agent-IsCreated}

module _ {S : Type 0} where
  begin_creation-definitions :
      (c : Creation) (m : Memory S) → (begin_creation c m).1.definitions ≡ m.definitions
  unfolding begin_creation
  begin_creation-definitions c m = ground arith

  -- The agent had no revision, has the one now, and every other agent has what it had.
  pub record IsOnly (d : Definition) (m m' : Memory S) : Type 0 where
    pub before : revisions_of d.agent m ≡ []
    pub after : revisions_of d.agent m' ≡ d ∷ []
    pub others : (agent : String) → d.agent ≢ agent → revisions_of agent m' ≡ revisions_of agent m

  register_creation-IsOnly :
      (key : RequestKey) (d : Definition) (c : Creation) (m : Memory S)
      → d.revision ≡ 1
      → (register_creation key d m).0 ≡ ok (c, true)
      → IsOnly d m (register_creation key d m).1
  unfolding register_creation register_pending append_locked
  register_creation-IsOnly key d c m first h = elim (List-cases (revisions_of d.agent m)) [
    | inr (x, xs, e) ↦ absurd (ground (arith, ap length e))
    | inl e ↦ record {
      before = e;
      after =
          ground (arith, e, get-put_self d.agent (revisions_of d.agent m ++ d ∷ []) m.definitions);
      others = λ agent other. ground (
        arith,
        beq_ne d.agent agent other,
        get_or-put [] d.agent agent (revisions_of d.agent m ++ d ∷ []) m.definitions,
      );
    }
  ]

  -- What a creation that is answered as new has made.
  pub record IsMade (v : Validation) (registrar : Registrar) (input : CreateInput) (c : Creation)
      (m m' : Memory S) : Type 0 where
    pub template : Template
    pub has_template : (get_template input.request.organization input.template m).0 ≡ ok template
    pub checked : check_config v template.config ≡ ok tt
    pub profile : Profile S
    pub has_profile : (get_profile input.request.organization input.profile m).0 ≡ ok profile
    pub made : Registered
    pub asked :
        registrar (record {
          request = input.request;
          controller = input.controller;
          operation_ref = input.binding.operation_ref;
        })
        ≡ answered made
    pub outcome : c.outcome ≡ Outcome.registered made
    pub of_binding : c.binding ≡ input.binding
    pub of_controller : c.controller ≡ input.controller
    pub of_template : c.template ≡ input.template
    pub of_profile : c.profile ≡ input.profile
    pub stored : get input.request m'.creations ≡ some c
    pub only :
        IsOnly
          (record {
            agent = made.agent;
            organization = input.request.organization;
            revision = 1;
            profile = input.profile;
            config = template.config;
            assignment = some (record { operator = input.controller; epoch = made.epoch });
          })
          m
          m'

  -- A creation that the service answers as new is of an agent that garam registered for the request's
  -- key, controller and operation, and that had no revision: its only revision now is the first, which
  -- has the configuration of the request's template, checked, under the request's profile, both
  -- published in its organization, recorded for the controller and the epoch that garam answered. The
  -- creation is stored under the request as registered, and every other agent's revisions stay.
  pub create_agent-IsMade :
      (v : Validation) (registrar : Registrar) (input : CreateInput) (c : Creation) (m : Memory S)
      → (create_agent v registrar input m).0 ≡ ok (c, true)
      → IsMade v registrar input c m (create_agent v registrar input m).1
  create_agent-IsMade v registrar input c m h =
      let d = create_agent-IsCreated v registrar input c m h in
      let first = first_revision input d.before.template d.registered in
      let begun_store = (begin_creation (begun input) m).1 in
      let same : (agent : String) → revisions_of agent begun_store ≡ revisions_of agent m =
        λ agent. ap (get_or [] agent) (begin_creation-definitions (begun input) m) in
      let after : (agent : String)
          → revisions_of agent (create_agent v registrar input m).1
            ≡ revisions_of agent (register_creation input.request first begun_store).1 =
        λ agent. ap (revisions_of agent) d.state in
      let only = register_creation-IsOnly input.request first c begun_store refl d.taken in
      record {
        template = d.before.template;
        has_template = d.before.has_template;
        checked = d.before.checked;
        profile = d.before.profile;
        has_profile = d.before.has_profile;
        made = d.registered;
        asked = d.answer;
        outcome = d.outcome;
        of_binding = d.asked.of_binding;
        of_controller = d.asked.of_controller;
        of_template = d.asked.of_template;
        of_profile = d.asked.of_profile;
        stored = d.stored;
        only = record {
          before = sym (same first.agent) ∙ only.before;
          after = after first.agent ∙ only.after;
          others = λ agent other. after agent ∙ only.others agent other ∙ same agent;
        };
      }
