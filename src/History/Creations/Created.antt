-- ===== src/History/Creations/Created.antt =====
-- A request that created an agent: what its answer says.
use garam_agent_operator.Prelude.{
  ◌≡◌, refl, String, Bool, true, ◌≢◌, some, Option-cases, inl, inr, ◌⊎◌, ◌∙◌, ap, string_eq, ℕ_eq,
  arith, subst, sym,
}
use text.Mathlib.TextEquality.{eq_iff}
use garam_agent_operator.Exec.Steps.{bind_reads_ok, bind_ok}
use garam_agent_operator.Exec.{lift}
use garam_agent_operator.Definition.Errors.{RegistrationError, ok, Result-cases}
use garam_agent_operator.Definition.Types.{
  Creation, CreateInput, Outcome, Registered, Template, Profile, RequestKey, Definition, Assignment,
}
use garam_agent_operator.Definition.Equalities.{
  request_key_eq, binding_eq, template_ref_eq, profile_ref_eq, registered_eq,
}
use garam_agent_operator.Map.{get}
use garam_agent_operator.Map.Laws.{get-put_self}
use garam_agent_operator.SecretRef.{Validation}
use garam_agent_operator.Repository.{Memory}
use garam_agent_operator.Repository.Publishing.{get_template, get_profile}
use garam_agent_operator.Repository.Revisions.{append_locked}
use garam_agent_operator.Repository.Creations.{
  begin_creation, register_creation, register_pending, fail_creation,
}
use garam_agent_operator.Service.Checks.{check_config}
use garam_agent_operator.Service.Create.{
  Answer, answered, refused, Registrar, recheck, first_revision, registration_of, settle_pending,
  continue_creation, create_agent,
}
use garam_agent_operator.History.Creations.{registered_as}
use garam_agent_operator.History.Operations.Reads.{get_profile-state, get_template-state}

Answer-cases :
    (a : Answer)
    → ((r : Registered) × (a ≡ answered r)) ⊎ ((e : RegistrationError) × (a ≡ refused e))
Answer-cases (answered r) = inl (r, refl)
Answer-cases (refused e) = inr (e, refl)

Outcome-cases :
    (o : Outcome)
    → (o ≡ Outcome.pending)
      ⊎ (((r : Registered) × (o ≡ Outcome.registered r))
          ⊎ ((reason : String) × (conflict : Bool) × (o ≡ Outcome.failed reason conflict)))
Outcome-cases Outcome.pending = inl refl
Outcome-cases (Outcome.registered r) = inr (inl (r, refl))
Outcome-cases (Outcome.failed reason conflict) = inr (inr (reason, conflict, refl))

abbrev pub begun : CreateInput → Creation
begun input = record {
  key = input.request;
  binding = input.binding;
  controller = input.controller;
  template = input.template;
  profile = input.profile;
  outcome = Outcome.pending;
}

-- The creation is of what the request asks.
pub record IsAsked (input : CreateInput) (c : Creation) : Type 0 where
  pub of_binding : c.binding ≡ input.binding
  pub of_controller : c.controller ≡ input.controller
  pub of_template : c.template ≡ input.template
  pub of_profile : c.profile ≡ input.profile

IsAsked-registered :
    (input : CreateInput) (a : Registered) (c : Creation)
    → IsAsked input c
    → IsAsked input (registered_as a.agent a.epoch c)
IsAsked-registered input a c h = record {
  of_binding = h.of_binding;
  of_controller = h.of_controller;
  of_template = h.of_template;
  of_profile = h.of_profile;
}

module _ {S : Type 0} where
  begin_creation-stored :
      (c stored : Creation) (m : Memory S)
      → (begin_creation c m).0 ≡ ok stored
      → get c.key (begin_creation c m).1.creations ≡ some stored
  unfolding begin_creation
  begin_creation-stored c stored m h =
      ground (arith, get-put_self c.key (record c { outcome = Outcome.pending }) m.creations)

  register_creation-created :
      (key : RequestKey) (d : Definition) (a : Assignment) (c : Creation) (m : Memory S)
      → d.assignment ≡ some a
      → (register_creation key d m).0 ≡ ok (c, true)
      → (before : Creation) × (get key m.creations ≡ some before)
        × (c ≡ registered_as d.agent a.epoch before)
        × (get key (register_creation key d m).1.creations ≡ some c)
  unfolding register_creation register_pending append_locked
  register_creation-created key d a c m e h = elim (Option-cases (get key m.creations)) [
    | inl f ↦ absurd (ground arith)
    | inr (before, f) ↦ (
      before,
      f,
      ground arith,
      ground (arith, get-put_self key (registered_as d.agent a.epoch before) m.creations),
    )
  ]

  settle_pending-refused :
      (input : CreateInput) (t : Template) (e : RegistrationError) (c : Creation) (m : Memory S)
      → (settle_pending input t (refused e) m).0 ≢ ok (c, true)
  unfolding settle_pending
  settle_pending-refused input t e c m h =
      elim (Result-cases (fail_creation input.request e.message e.is_conflict m).0) [
        | inl (failed, f) ↦ ground (arith, f)
        | inr (inl (other, f)) ↦ ground (arith, f)
        | inr (inr f) ↦ ground (arith, f)
      ]

  continue_creation-created :
      (registrar : Registrar) (input : CreateInput) (t : Template) (c c' : Creation) (m : Memory S)
      → (continue_creation registrar input t c m).0 ≡ ok (c', true)
      → (a : Registered) × (registrar (registration_of input) ≡ answered a)
        × (continue_creation registrar input t c m
            ≡ register_creation input.request (first_revision input t a) m)
  unfolding continue_creation recheck settle_pending
  continue_creation-created registrar input t c c' m h =
      let answer = registrar (registration_of input) in
      elim (Outcome-cases c.outcome) [
        | inr (inl (stored, e)) ↦ absurd (elim (Answer-cases answer) [
          | inl (a, f) ↦ ground (arith, f)
          | inr (r, f) ↦ ground (arith, f)
        ])
        | inr (inr (reason, conflict, e)) ↦ absurd (ground arith)
        | inl e ↦ elim (Answer-cases answer) [
          | inl (a, f) ↦ (a, f, ground (arith, f))
          | inr (r, f) ↦ absurd (settle_pending-refused input t r c' m (ground (arith, f)))
        ]
      ]

module _ {S : Type 0} where
  -- The creation that the service goes on with, once its checks have passed.
  pub record IsBegun (v : Validation) (registrar : Registrar) (input : CreateInput) (m : Memory S)
      : Type 0 where
    pub template : Template
    pub has_template : (get_template input.request.organization input.template m).0 ≡ ok template
    pub checked : check_config v template.config ≡ ok tt
    pub profile : Profile S
    pub has_profile : (get_profile input.request.organization input.profile m).0 ≡ ok profile
    pub stored : Creation
    pub is_stored : (begin_creation (begun input) m).0 ≡ ok stored
    pub asked : IsAsked input stored
    pub continued :
        create_agent v registrar input m
        ≡ continue_creation registrar input template stored (begin_creation (begun input) m).1

  create_agent-IsBegun :
      (v : Validation) (registrar : Registrar) (input : CreateInput) (answer : Creation × Bool)
      (m : Memory S)
      → (create_agent v registrar input m).0 ≡ ok answer
      → IsBegun v registrar input m
  unfolding create_agent
  create_agent-IsBegun v registrar input answer m h =
      let org = input.request.organization in
      let (t, has_template, e) =
        bind_reads_ok (get_template org input.template) _ m answer
          (get_template-state org input.template m) h in
      let (u, checked, f) =
        bind_reads_ok (lift (check_config v t.config)) _ m answer refl
          (sym (ap (λ x. x.0) e) ∙ h) in
      let (p, has_profile, g) =
        bind_reads_ok (get_profile org input.profile) _ m answer
          (get_profile-state org input.profile m) (sym (ap (λ x. x.0) (e ∙ f)) ∙ h) in
      let (c, is_begun, q) =
        bind_ok (begin_creation (begun input)) _ m answer (sym (ap (λ x. x.0) (e ∙ f ∙ g)) ∙ h) in
      let whole = e ∙ f ∙ g ∙ q in
      record {
        template = t;
        has_template = has_template;
        checked = checked;
        profile = p;
        has_profile = has_profile;
        stored = c;
        is_stored = is_begun;
        asked = record {
          of_binding = ground (arith, whole, h, binding_eq.equal_iff c.binding input.binding);
          of_controller = ground (arith, whole, h, eq_iff c.controller input.controller);
          of_template =
              ground (arith, whole, h, template_ref_eq.equal_iff c.template input.template);
          of_profile = ground (arith, whole, h, profile_ref_eq.equal_iff c.profile input.profile);
        };
        continued = ground (arith, whole, h);
      }

  -- What the service's answer to a request that created an agent says.
  pub record IsCreated (v : Validation) (registrar : Registrar) (input : CreateInput) (c : Creation)
      (m : Memory S) : Type 0 where
    pub before : IsBegun v registrar input m
    pub registered : Registered
    pub answer : registrar (registration_of input) ≡ answered registered
    pub asked : IsAsked input c
    pub outcome : c.outcome ≡ Outcome.registered registered
    pub stored : get input.request (create_agent v registrar input m).1.creations ≡ some c
    pub taken :
        (register_creation input.request
          (first_revision input before.template registered)
          (begin_creation (begun input) m).1).0
        ≡ ok (c, true)
    pub state :
        (create_agent v registrar input m).1
        ≡ (register_creation input.request
            (first_revision input before.template registered)
            (begin_creation (begun input) m).1).1

  pub create_agent-IsCreated :
      (v : Validation) (registrar : Registrar) (input : CreateInput) (c : Creation) (m : Memory S)
      → (create_agent v registrar input m).0 ≡ ok (c, true)
      → IsCreated v registrar input c m
  create_agent-IsCreated v registrar input c m h =
      let b = create_agent-IsBegun v registrar input (c, true) m h in
      let m' = (begin_creation (begun input) m).1 in
      let at_key = begin_creation-stored (begun input) b.stored m b.is_stored in
      let (a, answer, settled) =
        continue_creation-created registrar input b.template b.stored c m'
          (sym (ap (λ x. x.0) b.continued) ∙ h) in
      let state = b.continued ∙ settled in
      let (before, at_before, is, stored) =
        register_creation-created input.request (first_revision input b.template a)
          (record { operator = input.controller; epoch = a.epoch }) c m' refl
          (sym (ap (λ x. x.0) state) ∙ h) in
      let same : b.stored ≡ before = ground (arith, at_key, at_before) in
      record {
        before = b;
        registered = a;
        answer = answer;
        asked = subst (IsAsked input) (sym is) (
            subst (λ (x : Creation). IsAsked input (registered_as a.agent a.epoch x)) same
              (IsAsked-registered input a b.stored b.asked));
        outcome = ap (λ x. x.outcome) is;
        stored = ap (λ x. get input.request x.1.creations) state ∙ stored;
        taken = sym (ap (λ x. x.0) state) ∙ h;
        state = ap (λ x. x.1) state;
      }
