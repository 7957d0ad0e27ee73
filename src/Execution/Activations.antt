-- ===== src/Execution/Activations.antt =====
-- When the agent routes activate a runtime, and what an activation that fails leaves.
use garam_agent_operator.Prelude.{
  ℕ, ◌≡◌, ◌≢◌, refl, String, Bool, some, Bool-cases, inl, inr, ◌⊎◌, List, ◌==◌, string_eq, arith,
  sym, subst, if◌then◌else◌,
}
use garam_agent_operator.Definition.Errors.{Error, ok, err}
use garam_agent_operator.Definition.Types.{Placement, ActivationRequest, Activation}
use garam_agent_operator.Repository.{Memory}
use garam_agent_operator.Repository.Activations.{
  get_activation, record_activation, latest_activation,
}
use garam_agent_operator.Repository.Stops.{current_stop}
use garam_agent_operator.Service.Activation.{prepare_activation}
use garam_agent_operator.History.Activations.Prepared.{
  IsPrepared, Grown, prepare_activation-Grown, prepare_activation-IsPrepared,
}
use garam_agent_operator.Execution.Refusals.{invalid_request, service, unauthenticated}
use garam_agent_operator.Execution.{Failure, Answer, Codec, Request}
use garam_agent_operator.Execution.Formats.{read_body}
use garam_agent_operator.Handler.{done, answer}
use garam_agent_operator.Handler.Steps.{
  Gives, Keeps, bind-Gives, bind_reads-Gives, bind-Keeps, bind_reads-Keeps, read_or-Gives,
  read_or-Keeps, bind_answer-Keeps, service-Keeps, service_done,
}
use garam_agent_operator.Execution.Activate.{
  agent_token, parse_activation, ActivationResponse, placement_of, admit, call_activate,
  activate_locked, activate,
}
use garam_agent_operator.Execution.Carried.{
  IsCarried, agent_token-IsCarried, IsOfBody, parse_activation-IsOfBody,
}
use garam_agent_operator.Execution.Admission.{
  IsProved, IsCalled, IsPlaced, placement_of-state, placement_of-IsPlaced, admit-state,
  admit-IsProved, call_activate-state, call_activate-IsCalled, record_activation_ok,
  record_activation-same_id, record_activation-err,
}

-- The request that an activation stores: the body's, on the Pod of the placement.
abbrev pub on_placement : ActivationRequest → Placement → ActivationRequest
on_placement req p = record req { placement_pod_uid = p.request.pod_uid }

-- `activationResponse` of garam's answer.
abbrev pub response_of : Answer → ActivationRequest → ActivationResponse
response_of a req = record {
  activation_id = a.activation_id;
  token_version = a.token_version;
  token = a.token;
  grn = a.grn;
  epoch = a.epoch;
  generation = a.generation;
  config_revision = req.config_revision;
}

module _ {S : Type 0} where
  abbrev pub IsUnanswered : Request → Memory S → Memory S → Type 0
  IsUnanswered r m m' = (m' ≡ m) ⊎ ((req : ActivationRequest) × Grown r.agent req m m')

  -- What an activation answers under the agent's lock, and the store that it leaves.
  pub record IsRecorded (r : Request) (token : String) (p : Placement) (req : ActivationRequest)
      (m : Memory S) (x : Answer × Bool) (m' : Memory S) : Type 0 where
    pub stored : Activation
    pub prepared : (prepare_activation r.agent req m).0 ≡ ok stored
    pub of_request : stored.request ≡ req
    -- No stop holds the agent.
    pub running : (current_stop r.agent m).0 ≡ err Error.not_found
    pub proved : IsProved r.garam r.agent token req.epoch p
    pub called : IsCalled r.garam r.agent token stored x
    pub same_id : (stored.activation_id ≡ "") ⊎ (x.0.activation_id ≡ stored.activation_id)
    pub recorded :
        (get_activation r.agent req.request_id m').0
        ≡ ok (record stored { activation_id = x.0.activation_id })
    pub latest : (latest_activation r.agent m').0 ≡ ok x.0.activation_id

  activate_locked-IsRecorded :
      (r : Request) (token : String) (p : Placement) (req : ActivationRequest) (m : Memory S)
      → Gives (IsRecorded r token p req m) (activate_locked r token p req m)
  unfolding activate_locked
  activate_locked-IsRecorded r token p req m =
      let R = IsRecorded r token p req m in
      bind-Gives R (service (prepare_activation r.agent req)) _ m (λ stored e.
        let m1 = (prepare_activation r.agent req m).1 in
        let prepared = service_done Failure.service (prepare_activation r.agent req) m stored e in
        let ready : IsPrepared r.agent req m m1 stored =
          prepare_activation-IsPrepared r.agent req m stored prepared in
        bind_reads-Gives R (admit r.garam r.agent token req.epoch p) _ m1
          (admit-state r.garam r.agent token req.epoch p m1)
          (λ u f.
            let proved = admit-IsProved r.garam r.agent token req.epoch p m1 f in
            bind_reads-Gives R (call_activate r.garam r.agent stored token) _ m1
              (call_activate-state r.garam r.agent token stored m1)
              (λ x g.
                let called = call_activate-IsCalled r.garam r.agent token stored m1 x g in
                bind-Gives R (service (record_activation r.agent req.request_id x.0.activation_id))
                  (λ _. answer x) m1
                  (λ v k. λ y same.
                    let is : x ≡ y = ground arith in
                    let recording =
                      service_done Failure.service
                        (record_activation r.agent req.request_id x.0.activation_id) m1 v k in
                    let (recorded, latest) =
                      record_activation_ok r.agent req.request_id x.0.activation_id stored m1
                        ready.stored_as recording in
                    subst
                      (λ (z : Answer × Bool).
                        R z (record_activation r.agent req.request_id x.0.activation_id m1).1)
                      is
                      (record {
                        stored = stored;
                        prepared = prepared;
                        of_request = ready.of_request;
                        running = ready.running;
                        proved = proved;
                        called = called;
                        same_id =
                            record_activation-same_id r.agent req.request_id x.0.activation_id
                              stored m1 ready.stored_as recording;
                        recorded = recorded;
                        latest = latest;
                      })))))

  pub record IsActivated (codec : Codec) (r : Request) (m : Memory S) (x : ℕ × ActivationResponse)
      (m' : Memory S) : Type 0 where
    pub bytes : List ℕ
    pub read : read_body r ≡ some bytes
    pub token : String
    pub presented : IsCarried r.authorization token
    pub req : ActivationRequest
    pub parsed : parse_activation (codec.decode_activation bytes) ≡ some req
    pub of_body : IsOfBody (codec.decode_activation bytes) req
    pub placement : Placement
    pub placed : IsPlaced codec.sha256_hex r.agent r.placement_token req.epoch m placement
    pub garam_answer : Answer × Bool
    pub recorded : IsRecorded r token placement (on_placement req placement) m garam_answer m'
    pub status : x.0 ≡ (if garam_answer.1 then 201 else 200)
    pub response : x.1 ≡ response_of garam_answer.0 req

  -- Where a runtime is activated, the request carries a token in garam's form and the token of the
  -- agent's current placement, under that placement's epoch; no stop holds the agent; garam answers
  -- that the token is current for the agent, that the placement's controller is its assignee and that
  -- the epoch is the assignment's; garam was asked for what is stored under the request's id, and its
  -- answer is of that agent, epoch and generation; and afterwards the request has the id of garam's
  -- activation, which is the agent's latest. The status is 201 exactly when garam created it.
  pub activate-IsActivated :
      (codec : Codec) (r : Request) (m : Memory S) (x : ℕ × ActivationResponse)
      → (activate codec r m).0 ≡ done x
      → IsActivated codec r m x (activate codec r m).1
  unfolding activate
  activate-IsActivated codec r m x h =
      let R = IsActivated codec r m in
      read_or-Gives R (Failure.refused invalid_request) (read_body r) _ m
        (λ bytes e.
          read_or-Gives R (Failure.refused unauthenticated) (agent_token r) _ m (λ token f.
            elim (Bool-cases (r.placement_token == "")) [
              | inl missing ↦ rw missing (λ y k. absurd (ground arith))
              | inr present ↦ rw present (
                  read_or-Gives R (Failure.refused invalid_request)
                    (parse_activation (codec.decode_activation bytes)) _ m
                    (λ req g.
                      bind_reads-Gives R
                        (placement_of codec.sha256_hex r.agent r.placement_token req.epoch) _ m
                        (placement_of-state codec.sha256_hex r.agent r.placement_token req.epoch m)
                        (λ p k.
                          let placed =
                            placement_of-IsPlaced codec.sha256_hex r.agent r.placement_token
                              req.epoch m p k in
                          bind-Gives R (activate_locked r token p (on_placement req p)) _ m (λ a l.
                            λ y same.
                              let locked =
                                activate_locked-IsRecorded r token p (on_placement req p) m a l in
                              record {
                                bytes = bytes;
                                read = e;
                                token = token;
                                presented = agent_token-IsCarried r token f;
                                req = req;
                                parsed = g;
                                of_body =
                                    parse_activation-IsOfBody (codec.decode_activation bytes) req g;
                                placement = p;
                                placed = placed;
                                garam_answer = a;
                                recorded = locked;
                                status = ground arith;
                                response = ground arith;
                              }))))
            ]))
        x h

  activate_locked-Keeps :
      (r : Request) (token : String) (p : Placement) (req : ActivationRequest) (m : Memory S)
      → Keeps (Grown r.agent req m) (activate_locked r token p req m)
  unfolding activate_locked
  activate_locked-Keeps r token p req m =
      let P = Grown r.agent req m in
      let grown = prepare_activation-Grown r.agent req m in
      let m1 = (prepare_activation r.agent req m).1 in
      bind-Keeps P (service (prepare_activation r.agent req)) _ m grown (λ stored e.
        bind_reads-Keeps P (admit r.garam r.agent token req.epoch p) _ m1
          (admit-state r.garam r.agent token req.epoch p m1) grown
          (λ u f.
            bind_reads-Keeps P (call_activate r.garam r.agent stored token) _ m1
              (call_activate-state r.garam r.agent token stored m1) grown
              (λ x g.
                let recording = record_activation r.agent req.request_id x.0.activation_id in
                bind_answer-Keeps P (λ _. x) (service recording) m1
                  (service-Keeps P Failure.service recording m1 (λ k.
                    subst P
                      (sym
                        (record_activation-err r.agent req.request_id x.0.activation_id m1 (k tt)))
                      grown)))))

  pub activate-Keeps :
      (codec : Codec) (r : Request) (m : Memory S) → Keeps (IsUnanswered r m) (activate codec r m)
  unfolding activate
  activate-Keeps codec r m =
      let P = IsUnanswered r m in
      read_or-Keeps P (Failure.refused invalid_request) (read_body r) _ m (inl refl) (λ bytes e.
        read_or-Keeps P (Failure.refused unauthenticated) (agent_token r) _ m (inl refl) (λ token f.
          elim (Bool-cases (r.placement_token == "")) [
            | inl missing ↦ rw missing (λ k. inl refl)
            | inr present ↦ rw present (
                read_or-Keeps P (Failure.refused invalid_request)
                  (parse_activation (codec.decode_activation bytes)) _ m (inl refl)
                  (λ req g.
                    bind_reads-Keeps P
                      (placement_of codec.sha256_hex r.agent r.placement_token req.epoch) _ m
                      (placement_of-state codec.sha256_hex r.agent r.placement_token req.epoch m)
                      (inl refl)
                      (λ p k.
                        bind_answer-Keeps P _ (activate_locked r token p (on_placement req p)) m
                          (λ refused. inr (
                            on_placement req p,
                            activate_locked-Keeps r token p (on_placement req p) m refused,
                          )))))
          ]))

  -- A request of an activation that is not answered with one leaves the store as it was, or adds one
  -- request without an activation's id, under an id that no request of the agent had.
  pub activate-IsUnanswered :
      (codec : Codec) (r : Request) (m : Memory S)
      → ((x : ℕ × ActivationResponse) → (activate codec r m).0 ≢ done x)
      → IsUnanswered r m (activate codec r m).1
  activate-IsUnanswered codec r m h = activate-Keeps codec r m h
