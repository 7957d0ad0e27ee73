-- ===== src/History/Creations/Repeats.antt =====
-- The repeats of a request that created an agent.
use garam_agent_operator.Prelude.{
  ◌≡◌, Bool, true, false, some, List, [], ◌∷◌, string_eq, ℕ_eq, arith, subst, sym, beq_refl,
}
use garam_agent_operator.Definition.Errors.{ok}
use garam_agent_operator.Definition.Types.{
  Creation, CreateInput, Outcome, Registered, Template, Profile,
}
use garam_agent_operator.Definition.Equalities.{
  request_key_eq, binding_eq, template_ref_eq, profile_ref_eq, registered_eq,
}
use garam_agent_operator.Map.{get}
use garam_agent_operator.SecretRef.{Validation}
use garam_agent_operator.Repository.{Memory}
use garam_agent_operator.Repository.Publishing.{get_template, get_profile}
use garam_agent_operator.Repository.Creations.{begin_creation}
use garam_agent_operator.Repository.Calls.{Call, step, run}
use garam_agent_operator.Service.Checks.{check_config}
use garam_agent_operator.Service.Create.{
  answered, Registrar, recheck, first_revision, registration_of, continue_creation, create_agent,
}
use garam_agent_operator.History.Creations.{run-settled}
use garam_agent_operator.History.Publishing.{get_profile-run, get_template-run}
use garam_agent_operator.History.Operations.Reads.{get_profile-state, get_template-state}
use garam_agent_operator.History.Creations.Created.{IsAsked, begun, create_agent-IsCreated}

module _ {S : Type 0} where
  create_agent-settled :
      (v : Validation) (registrar : Registrar) (input : CreateInput) (c : Creation) (a : Registered)
      (t : Template) (p : Profile S) (m : Memory S)
      → (get_template input.request.organization input.template m).0 ≡ ok t
      → check_config v t.config ≡ ok tt
      → (get_profile input.request.organization input.profile m).0 ≡ ok p
      → get input.request m.creations ≡ some c
      → IsAsked input c
      → c.outcome ≡ Outcome.registered a
      → registrar (registration_of input) ≡ answered a
      → create_agent v registrar input m ≡ (ok (c, false), m)
  unfolding create_agent continue_creation recheck begin_creation
  create_agent-settled v registrar input c a t p m has_template checked has_profile stored asked
        outcome answer =
      let org = input.request.organization in
      ground (
        arith,
        get_template-state org input.template m,
        get_profile-state org input.profile m,
        asked.of_binding,
        asked.of_controller,
        asked.of_template,
        asked.of_profile,
        beq_refl input.binding,
        beq_refl input.controller,
        beq_refl input.template,
        beq_refl input.profile,
        beq_refl a,
      )

module _ {S : Type 0} (same : S → S → Bool) where
  -- A request that created an agent is answered with the same creation ever after, as not new, and
  -- changes nothing, while garam answers its registration as it did.
  pub create_agent-repeat :
      (v : Validation) (registrar : Registrar) (input : CreateInput) (c : Creation) (m : Memory S)
      (cs : List (Call S))
      → (create_agent v registrar input m).0 ≡ ok (c, true)
      → create_agent v registrar input (run same (create_agent v registrar input m).1 cs)
        ≡ (ok (c, false), run same (create_agent v registrar input m).1 cs)
  unfolding run step
  create_agent-repeat v registrar input c m cs h =
      let d = create_agent-IsCreated v registrar input c m h in
      let m' = (create_agent v registrar input m).1 in
      let later = run same m' cs in
      let at_key = run-settled same m' cs input.request c d.stored (ground (arith, d.outcome)) in
      let b = d.before in
      let org = input.request.organization in
      let calls =
        Call.begin_creation (begun input)
        ∷ Call.register_creation input.request (first_revision input b.template d.registered)
        ∷ [] in
      let same_store : run same m calls ≡ m' = sym d.state in
      let has_template = get_template-run same m' cs org input.template b.template (
        subst (λ (x : Memory S). (get_template org input.template x).0 ≡ ok b.template) same_store
          (get_template-run same m calls org input.template b.template b.has_template)) in
      let has_profile = get_profile-run same m' cs org input.profile b.profile (
        subst (λ (x : Memory S). (get_profile org input.profile x).0 ≡ ok b.profile) same_store
          (get_profile-run same m calls org input.profile b.profile b.has_profile)) in
      create_agent-settled v registrar input c d.registered b.template b.profile later has_template
        b.checked has_profile at_key d.asked d.outcome d.answer
