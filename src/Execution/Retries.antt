-- ===== src/Execution/Retries.antt =====
-- A retry of an activation: garam is sent the request that was stored.
use garam_agent_operator.Prelude.{
  ℕ, ◌≡◌, refl, String, Bool, some, inl, inr, List, Bool-cases, ◌!=◌, arith, sym, ap, ◌∙◌, subst,
}
use garam_agent_operator.Definition.Errors.{Error, ok, err}
use garam_agent_operator.Definition.Types.{ActivationRequest, Activation}
use garam_agent_operator.Definition.Equalities.{activation_request_eq}
use garam_agent_operator.Exec.{optional}
use garam_agent_operator.Exec.Steps.{Gives, err-Gives, ok-Gives, bind_reads-Gives}
use garam_agent_operator.Repository.{Memory}
use garam_agent_operator.Repository.Activations.{get_activation}
use garam_agent_operator.Repository.Calls.{Call, run}
use garam_agent_operator.Service.Stop
use garam_agent_operator.Service.Activation.{prepare_activation}
use garam_agent_operator.History.Activations.{get_activation-run}
use garam_agent_operator.History.Operations.Reads.{stopped-state, get_activation-state}
use garam_agent_operator.Execution.{ActivationCall, Answer, answered, Codec, Request}
use garam_agent_operator.Execution.Formats.{read_body}
use garam_agent_operator.Handler.{done}
use garam_agent_operator.Execution.Activate.{ActivationResponse, activate}
use garam_agent_operator.Execution.Carried.{IsCarried}
use garam_agent_operator.Execution.Admission.{stored_call}
use garam_agent_operator.Execution.Activations.{IsActivated, on_placement, activate-IsActivated}

module _ {S : Type 0} where
  -- A request that is stored is answered as it is stored.
  prepare_activation-found :
      (agent : String) (req : ActivationRequest) (m : Memory S) (b : Activation)
      → (get_activation agent req.request_id m).0 ≡ ok b
      → Gives (λ stored _. stored ≡ b) (prepare_activation agent req m)
  unfolding prepare_activation
  prepare_activation-found agent req m b at =
      let R : Activation → Memory S → Type 0 = λ stored _. stored ≡ b in
      bind_reads-Gives R (Stop.stopped agent) _ m (stopped-state agent m) (λ u e.
        bind_reads-Gives R (optional (get_activation agent req.request_id)) _ m
          (get_activation-state agent req.request_id m)
          (λ found f.
            let is : found ≡ some b = ground (arith, at) in
            rw is (elim (Bool-cases (b.request != req)) [
              | inl other ↦
                  rw other (err-Gives R (err Error.request_reused, m) Error.request_reused refl)
              | inr same ↦ rw same (ok-Gives R (ok b, m) b refl refl)
            ])))

-- Garam is sent one stored request for both, each time under the token that was presented, and the
-- same activation is answered.
pub record IsRetry (r r' : Request) (x x' : ℕ × ActivationResponse) : Type 0 where
  pub stored : Activation
  pub token : String
  pub presented : IsCarried r.authorization token
  pub token' : String
  pub presented' : IsCarried r'.authorization token'
  pub garam_answer : Answer × Bool
  pub asked : r.garam.activate r.agent (stored_call stored token) ≡ answered garam_answer
  pub garam_answer' : Answer × Bool
  pub asked' : r'.garam.activate r'.agent (stored_call stored token') ≡ answered garam_answer'
  pub same_id : x'.1.activation_id ≡ x.1.activation_id

module _ {S : Type 0} (same : S → S → Bool) where
  same_request :
      (codec : Codec) (r r' : Request) (m m1 m' m1' : Memory S) (x x' : ℕ × ActivationResponse)
      (first : IsActivated codec r m x m1) (again : IsActivated codec r' m' x' m1')
      → r'.body ≡ r.body
      → again.req ≡ first.req
  unfolding read_body
  same_request codec r r' m m1 m' m1' x x' first again e =
      let read : again.bytes ≡ first.bytes = ground (arith, first.read, again.read) in
      ground (arith, first.parsed, again.parsed, ap codec.decode_activation read)

  -- After an activation that was answered, and any calls of the store, a request with the same agent
  -- and the same body that is answered sends garam the same stored request, under its own token, and
  -- answers the same activation's id.
  pub activate-run-IsRetry :
      (codec : Codec) (r r' : Request) (m : Memory S) (cs : List (Call S))
      (x x' : ℕ × ActivationResponse)
      → (activate codec r m).0 ≡ done x
      → (activate codec r' (run same (activate codec r m).1 cs)).0 ≡ done x'
      → r'.agent ≡ r.agent
      → r'.body ≡ r.body
      → IsRetry r r' x x'
  activate-run-IsRetry codec r r' m cs x x' h h' same_agent same_body =
      let m1 = (activate codec r m).1 in
      let m2 = run same m1 cs in
      let first = activate-IsActivated codec r m x h in
      let again = activate-IsActivated codec r' m2 x' h' in
      let one =
        same_request codec r r' m m1 m2 (activate codec r' m2).1 x x' first again same_body in
      let kept : Activation = record first.recorded.stored {
        activation_id = first.garam_answer.0.activation_id;
      } in
      let (b, at_b, f) =
        get_activation-run same m1 cs r.agent first.req.request_id kept first.recorded.recorded in
      let at : (get_activation r'.agent again.req.request_id m2).0 ≡ ok b =
        rw (same_agent, one) at_b in
      let is : again.recorded.stored ≡ b =
        prepare_activation-found r'.agent (on_placement again.req again.placement) m2 b at
          again.recorded.stored again.recorded.prepared in
      let same_call : stored_call again.recorded.stored again.token
          ≡ stored_call first.recorded.stored again.token =
        ground (arith, is, f.request, f.replaces, f.operation_ref) in
      let b_id : b.activation_id ≡ first.garam_answer.0.activation_id =
        ground (arith, f.id, first.recorded.called.named) in
      let same_answer : again.garam_answer.0.activation_id ≡ first.garam_answer.0.activation_id =
        ground (
          arith,
          again.recorded.same_id,
          ap (λ (a : Activation). a.activation_id) is,
          b_id,
          first.recorded.called.named,
        ) in
      record {
        stored = first.recorded.stored;
        token = first.token;
        presented = first.presented;
        token' = again.token;
        presented' = again.presented;
        garam_answer = first.garam_answer;
        asked = first.recorded.called.asked;
        garam_answer' = again.garam_answer;
        asked' =
            subst
              (λ (c : ActivationCall). r'.garam.activate r'.agent c ≡ answered again.garam_answer)
              same_call again.recorded.called.asked;
        same_id =
            ap (λ (a : ActivationResponse). a.activation_id) again.response
            ∙ same_answer
            ∙ sym (ap (λ (a : ActivationResponse). a.activation_id) first.response);
      }
