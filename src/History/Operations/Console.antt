-- ===== src/History/Operations/Console.antt =====
-- The operations that publish, create and configure, from a store that is reached.
use garam_agent_operator.Prelude.{
  ◌≡◌, refl, String, Bool, false, inl, Bool-cases, inr, ◌||◌, string_eq, ℕ_eq, arith, ltb,
}
use garam_agent_operator.Exec.Steps.{bind_holds, bind_reads}
use garam_agent_operator.Exec.{pure, lift}
use garam_agent_operator.Definition.Errors.{Result}
use garam_agent_operator.Definition.Types.{
  Publication, Creation, Outcome, Profile, PublishInput, CreateInput, ConfigureInput, Template,
}
use garam_agent_operator.Definition.Equalities.{binding_eq}
use garam_agent_operator.SecretRef.{Validation}
use garam_agent_operator.Repository.{Memory}
use garam_agent_operator.Repository.Publishing.{profile_versions, get_profile, get_template}
use garam_agent_operator.Repository.Revisions
use garam_agent_operator.Repository.Publishing
use garam_agent_operator.Repository.Creations
use garam_agent_operator.Service.Publish
use garam_agent_operator.Service.Create
use garam_agent_operator.Repository.Calls.{Call, step}
use garam_agent_operator.Service.Configure
use garam_agent_operator.Service.Checks.{check_config}
use garam_agent_operator.History.Revisions.Invariant.{IsPublished-step}
use garam_agent_operator.History.Reach.{IsPublished, Reachable, next}
use garam_agent_operator.History.Operations.Reads.{
  IsPublished-get_profile, get_profile-state, embedding_kept-state, get_template-state,
}

module _ {S : Type 0} (same : S → S → Bool) where
  pub configure-Reachable :
      (v : Validation) (input : ConfigureInput) (m : Memory S)
      → Reachable same m
      → Reachable same (Configure.configure v input m).1
  unfolding Configure.configure step
  configure-Reachable v input m r =
      bind_reads (Reachable same) (lift (check_config v input.config)) _ m refl r (λ u e.
        bind_reads (Reachable same) (get_profile input.request.organization input.profile) _ m
          (get_profile-state input.request.organization input.profile m) r
          (λ p f.
            bind_reads (Reachable same) (Configure.embedding_kept input) _ m
              (embedding_kept-state input m) r
              (λ w g.
                let r' =
                  next
                    (Call.configure (Configure.request_of input) (Configure.next_definition input))
                    r (IsPublished-get_profile input.request.organization input.profile p m f) in
                bind_holds (Reachable same)
                  (Revisions.configure (Configure.request_of input)
                    (Configure.next_definition input))
                  _ m r' (λ stored h. ground (arith, r')))))

  pub publish-Reachable :
      (v : Validation) (input : PublishInput) (m : Memory S)
      → Reachable same m
      → Reachable same (Publish.publish v input m).1
  unfolding Publish.publish step
  publish-Reachable v input m r =
      let t = input.template in
      let p : Publication = record {
        key = input.request;
        binding = input.binding;
        template = record { name = t.name; version = 0 };
      } in
      bind_reads (Reachable same) (lift (check_config v t.config)) _ m refl r (λ u e.
        bind_reads (Reachable same) (get_profile input.request.organization t.profile) _ m
          (get_profile-state input.request.organization t.profile m) r
          (λ q f.
            let r' =
              next (Call.publish_once p t) r
                (IsPublished-get_profile input.request.organization t.profile q m f) in
            bind_holds (Reachable same) (Publishing.publish_once p t) _ m r'
              (λ stored h. ground (arith, r'))))

  pub publish_template-Reachable :
      (v : Validation) (org : String) (t : Template) (m : Memory S)
      → Reachable same m
      → Reachable same (Publish.publish_template v org t m).1
  unfolding Publish.publish_template step
  publish_template-Reachable v org t m r =
      bind_reads (Reachable same) (lift (check_config v t.config)) _ m refl r (λ u e.
        bind_reads (Reachable same) (get_profile org t.profile) _ m
          (get_profile-state org t.profile m) r
          (λ q f.
            next (Call.publish_template org t) r (IsPublished-get_profile org t.profile q m f)))

  pub publish_profile_version-Reachable :
      (check : S → Result (Unit {0})) (org : String) (p : Profile S) (m : Memory S)
      → Reachable same m
      → Reachable same (Publish.publish_profile_version check same org p m).1
  unfolding Publish.publish_profile_version step
  publish_profile_version-Reachable check org p m r = elim (Bool-cases (ltb p.version 1)) [
    | inl low ↦ ground (arith, r)
    | inr fine ↦
        let r' = next (Call.publish_profile_version org p) r (ground arith) in ground (arith, r, r')
  ]

  pub settle_pending-Reachable :
      (input : CreateInput) (t : Template) (answer : Create.Answer) (m : Memory S)
      → Reachable same m
      → IsPublished input.request.organization input.profile m
      → Reachable same (Create.settle_pending input t answer m).1
  unfolding Create.settle_pending step
  settle_pending-Reachable input t (Create.answered a) m r p =
      next (Call.register_creation input.request (Create.first_revision input t a)) r
        (refl, (_, refl), p)
  settle_pending-Reachable input t (Create.refused e) m r p =
      let r' = next (Call.fail_creation input.request e.message e.is_conflict) r tt in
      elim (Bool-cases (e.is_refused || e.is_conflict)) [
        | inl final ↦
            rw (final, Create.settle_pending)
              (bind_holds (Reachable same)
                (Creations.fail_creation input.request e.message e.is_conflict)
                (λ failed. pure (failed, false)) m r' (λ failed h. r'))
        | inr later ↦ rw (later, Create.settle_pending) r
      ]

  pub continue_creation-Reachable :
      (registrar : Create.Registrar) (input : CreateInput) (t : Template) (c : Creation)
      (m : Memory S)
      → Reachable same m
      → IsPublished input.request.organization input.profile m
      → Reachable same (Create.continue_creation registrar input t c m).1
  unfolding Create.continue_creation
  continue_creation-Reachable registrar input t c m r p =
      elim c.outcome
          as (λ o.
            c.outcome ≡ o → Reachable same (Create.continue_creation registrar input t c m).1) [
              | Outcome.failed reason conflict ↦ λ e. rw (e, Create.continue_creation) r
              | Outcome.registered stored ↦ λ e. rw (e, Create.continue_creation) r
              | Outcome.pending ↦ λ e.
                  rw (e, Create.continue_creation)
                    (settle_pending-Reachable input t (registrar (Create.registration_of input)) m r
                      p)
            ]
        refl

  pub create_agent-Reachable :
      (v : Validation) (registrar : Create.Registrar) (input : CreateInput) (m : Memory S)
      → Reachable same m
      → Reachable same (Create.create_agent v registrar input m).1
  unfolding Create.create_agent Create.continue_creation Create.settle_pending step
  create_agent-Reachable v registrar input m r =
      let org = input.request.organization in
      let begun : Creation = record {
        key = input.request;
        binding = input.binding;
        controller = input.controller;
        template = input.template;
        profile = input.profile;
        outcome = Outcome.pending;
      } in
      bind_reads (Reachable same) (get_template org input.template) _ m
        (get_template-state org input.template m) r
        (λ t e. bind_reads (Reachable same) (lift (check_config v t.config)) _ m refl r (λ u f.
          bind_reads (Reachable same) (get_profile org input.profile) _ m
            (get_profile-state org input.profile m) r
            (λ p g.
              let m' = step same m (Call.begin_creation begun) in
              let r' = next (Call.begin_creation begun) r tt in
              let p' =
                IsPublished-step same m (Call.begin_creation begun) org input.profile
                  (IsPublished-get_profile org input.profile p m g) in
              bind_holds (Reachable same) (Creations.begin_creation begun) _ m r' (λ c h.
                ground (arith, r', continue_creation-Reachable registrar input t c m' r' p')))))
