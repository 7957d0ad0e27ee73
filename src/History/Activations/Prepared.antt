-- ===== src/History/Activations/Prepared.antt =====
-- `PrepareActivation`: what it stores, and what it answers.
use garam_agent_operator.Prelude.{
  ◌≡◌, refl, String, none, some, [], Option-cases, inl, Bool-cases, inr, ◌⊎◌, ◌||◌, ◌!=◌, ◌∙◌, ap,
  sym, ltb, ℕ_eq, string_eq, arith, beq_refl,
}
use garam_agent_operator.Exec.Steps.{bind_reads, Gives, err-Gives, ok-Gives, bind_reads-Gives}
use garam_agent_operator.Exec.{optional}
use garam_agent_operator.Definition.Errors.{Error, ok, err}
use garam_agent_operator.Definition.Types.{ActivationRequest, Activation}
use garam_agent_operator.Definition.Equalities.{activation_request_eq}
use garam_agent_operator.Map.{get, put}
use garam_agent_operator.Map.Laws.{get-put_self, get_or-put}
use garam_agent_operator.Repository.{Memory}
use garam_agent_operator.Repository.Revisions.{get_definition}
use garam_agent_operator.Repository.Activations.{
  activations_of, insert_activation, get_activation, latest_activation,
}
use garam_agent_operator.Repository.Stops.{current_stop}
use garam_agent_operator.Service.Stop
use garam_agent_operator.Service.Activation.{operation_reference, prepare_new, prepare_activation}
use garam_agent_operator.History.Operations.Reads.{
  get_definition-state, stopped-state, latest_activation-state, get_activation-state,
  operation_reference-state,
}

module _ {S : Type 0} where
  -- A request that is stored for the first time: without an activation's id.
  pub record IsNew (agent : String) (req : ActivationRequest) (m : Memory S) (n : Activation)
      : Type 0 where
    pub of_agent : n.agent ≡ agent
    pub of_request : n.request ≡ req
    pub no_id : n.activation_id ≡ ""
    pub free : get req.request_id (activations_of agent m) ≡ none

  -- The second store is the first, or has one request more.
  abbrev pub Grown : String → ActivationRequest → Memory S → Memory S → Type 0
  Grown agent req m m' =
      (m' ≡ m) ⊎ ((n : Activation) × IsNew agent req m n × (m' ≡ (insert_activation n m).1))

  prepare_new-Grown :
      (agent : String) (req : ActivationRequest) (m : Memory S)
      → get req.request_id (activations_of agent m) ≡ none
      → Grown agent req m (prepare_new agent req m).1
  unfolding prepare_new
  prepare_new-Grown agent req m free =
      bind_reads (Grown agent req m) (get_definition agent) _ m (get_definition-state agent m)
        (inl refl)
        (λ d e.
          elim (Bool-cases (ltb req.config_revision 1 || ltb d.revision req.config_revision)) [
            | inl out ↦ rw out (inl refl)
            | inr fine ↦ rw fine (
                bind_reads (Grown agent req m) (optional (latest_activation agent)) _ m
                  (latest_activation-state agent m) (inl refl)
                  (λ found f.
                    let anchor : String = elim found [ none ↦ "" | some a ↦ a ] in
                    bind_reads (Grown agent req m)
                      (operation_reference agent req.config_revision anchor) _ m
                      (operation_reference-state agent req.config_revision anchor m) (inl refl)
                      (λ ref g.
                        let n : Activation = record {
                          agent = agent;
                          request = req;
                          replaces_activation_id = anchor;
                          operation_ref = ref;
                          activation_id = "";
                        } in
                        inr (
                          n,
                          record { of_agent = refl; of_request = refl; no_id = refl; free = free },
                          refl,
                        ))))
          ])

  get_activation-none :
      (agent id : String) (m : Memory S)
      → (optional (get_activation agent id) m).0 ≡ ok none
      → get id (activations_of agent m) ≡ none
  unfolding get_activation
  get_activation-none agent id m h = ground arith

  get_activation-some :
      (agent id : String) (m : Memory S) (a : Activation)
      → (optional (get_activation agent id) m).0 ≡ ok (some a)
      → get id (activations_of agent m) ≡ some a
  unfolding get_activation
  get_activation-some agent id m a h = ground arith

  pub prepare_activation-Grown :
      (agent : String) (req : ActivationRequest) (m : Memory S)
      → Grown agent req m (prepare_activation agent req m).1
  unfolding prepare_activation
  prepare_activation-Grown agent req m =
      bind_reads (Grown agent req m) (Stop.stopped agent) _ m (stopped-state agent m) (inl refl)
        (λ u e.
          bind_reads (Grown agent req m) (optional (get_activation agent req.request_id)) _ m
            (get_activation-state agent req.request_id m) (inl refl)
            (λ found f. elim (Option-cases found) [
              | inl g ↦ rw g (
                  prepare_new-Grown agent req m
                    (get_activation-none agent req.request_id m (f ∙ ap ok g)))
              | inr (stored, g) ↦ rw g (elim (Bool-cases (stored.request != req)) [
                | inl other ↦ rw other (inl refl)
                | inr same ↦ rw same (inl refl)
              ])
            ]))

  -- What a request that is prepared is answered with.
  pub record IsPrepared (agent : String) (req : ActivationRequest) (m m' : Memory S)
      (stored : Activation) : Type 0 where
    -- No stop holds the agent.
    pub running : (current_stop agent m).0 ≡ err Error.not_found
    pub of_request : stored.request ≡ req
    pub stored_as : get req.request_id (activations_of agent m') ≡ some stored

  insert_activation-stored :
      (n stored : Activation) (m : Memory S)
      → (insert_activation n m).0 ≡ ok stored
      → get n.request.request_id (activations_of n.agent (insert_activation n m).1) ≡ some stored
  unfolding insert_activation
  insert_activation-stored n stored m h =
      let xs = put n.request.request_id n (activations_of n.agent m) in
      ground (
        arith,
        get_or-put [] n.agent n.agent xs m.activations,
        beq_refl n.agent,
        get-put_self n.request.request_id n (activations_of n.agent m),
      )

  insert_activation-new :
      (n stored : Activation) (m : Memory S)
      → get n.request.request_id (activations_of n.agent m) ≡ none
      → (insert_activation n m).0 ≡ ok stored
      → n ≡ stored
  unfolding insert_activation
  insert_activation-new n stored m free h = ground arith

  stopped_ok :
      (agent : String) (m : Memory S)
      → (Stop.stopped agent m).0 ≡ ok tt
      → (current_stop agent m).0 ≡ err Error.not_found
  unfolding Stop.stopped current_stop
  stopped_ok agent m h = ground arith

  abbrev Stores : String → ActivationRequest → Activation → Memory S → Type 0
  Stores agent req stored m' =
      (stored.request ≡ req) × (get req.request_id (activations_of agent m') ≡ some stored)

  insert_activation-Stores :
      (n : Activation) (m : Memory S)
      → get n.request.request_id (activations_of n.agent m) ≡ none
      → Gives (Stores n.agent n.request) (insert_activation n m)
  insert_activation-Stores n m free stored h = (
    sym (ap (λ (x : Activation). x.request) (insert_activation-new n stored m free h)),
    insert_activation-stored n stored m h,
  )

  prepare_new-Stores :
      (agent : String) (req : ActivationRequest) (m : Memory S)
      → get req.request_id (activations_of agent m) ≡ none
      → Gives (Stores agent req) (prepare_new agent req m)
  unfolding prepare_new
  prepare_new-Stores agent req m free =
      bind_reads-Gives (Stores agent req) (get_definition agent) _ m (get_definition-state agent m)
        (λ d e.
          elim (Bool-cases (ltb req.config_revision 1 || ltb d.revision req.config_revision)) [
            | inl out ↦ rw out (
                err-Gives (Stores agent req) (err Error.invalid_status, m) Error.invalid_status
                  refl)
            | inr fine ↦ rw fine (
                bind_reads-Gives (Stores agent req) (optional (latest_activation agent)) _ m
                  (latest_activation-state agent m)
                  (λ found f.
                    let anchor : String = elim found [ none ↦ "" | some a ↦ a ] in
                    bind_reads-Gives (Stores agent req)
                      (operation_reference agent req.config_revision anchor) _ m
                      (operation_reference-state agent req.config_revision anchor m)
                      (λ ref g.
                        insert_activation-Stores
                          (record {
                            agent = agent;
                            request = req;
                            replaces_activation_id = anchor;
                            operation_ref = ref;
                            activation_id = "";
                          })
                          m free)))
          ])

  abbrev pub Answers : String → ActivationRequest → Memory S → Activation → Memory S → Type 0
  Answers agent req m stored m' = IsPrepared agent req m m' stored

  pub prepare_activation-IsPrepared :
      (agent : String) (req : ActivationRequest) (m : Memory S)
      → Gives (Answers agent req m) (prepare_activation agent req m)
  unfolding prepare_activation
  prepare_activation-IsPrepared agent req m =
      let R = Answers agent req m in
      bind_reads-Gives R (Stop.stopped agent) _ m (stopped-state agent m) (λ u e.
        let running = stopped_ok agent m e in
        bind_reads-Gives R (optional (get_activation agent req.request_id)) _ m
          (get_activation-state agent req.request_id m)
          (λ found f. elim (Option-cases found) [
            | inl g ↦ rw g (λ stored h.
                let (same, at) =
                  prepare_new-Stores agent req m
                    (get_activation-none agent req.request_id m (f ∙ ap ok g)) stored h in
                record { running = running; of_request = same; stored_as = at })
            | inr (stored, g) ↦ rw g (elim (Bool-cases (stored.request != req)) [
              | inl other ↦
                  rw other (err-Gives R (err Error.request_reused, m) Error.request_reused refl)
              | inr same ↦ rw same (
                  ok-Gives R (ok stored, m) stored refl
                    (record {
                      running = running;
                      of_request =
                          ground (arith, activation_request_eq.equal_iff stored.request req);
                      stored_as = get_activation-some agent req.request_id m stored (f ∙ ap ok g);
                    }))
            ])
          ]))
