-- ===== src/Execution/Activate.antt =====
-- internal/execution/activation.go, session.go, and the refusals of respond.go.
use garam_agent_operator.Prelude.{
  ℕ, String, Bool, not, ◌||◌, Option, none, some, ◌==◌, ◌!=◌, string_eq, ltb, if◌then◌else◌,
}
use garam_agent_operator.Definition.Errors.{ok}
use garam_agent_operator.Definition.Types.{Placement, ActivationRequest, Activation}
use garam_agent_operator.Definition.Revision.{parse_revision}
use garam_agent_operator.Repository.{Memory}
use garam_agent_operator.Repository.Placements.{current_placement}
use garam_agent_operator.Repository.Activations.{record_activation}
use garam_agent_operator.Service.Activation.{prepare_activation}
use garam_agent_operator.Execution.{
  ActivationCall, Answer, GaramError, answered, failed, Garam, Failure, ActivationBody, Codec,
  Request,
}
use garam_agent_operator.Text.{cut_prefix}
use garam_agent_operator.Execution.Formats.{
  is_request_id, is_generation, is_agent_token, token_scheme, read_body,
}
use garam_agent_operator.Handler.{answer, fail, ◌>>=◌, ◌>>◌}
use garam_agent_operator.Execution.Refusals.{
  Handler, refuse, service, find_or, read_or, refusal_of, invalid_request, unauthenticated,
  not_authorized, placement_not_current, credential_fenced, epoch_superseded,
}

-- `agentToken`
unfoldable pub agent_token : Request → Option String
agent_token r = elim (cut_prefix token_scheme r.authorization) [
  | none ↦ none
  | some token ↦ if is_agent_token token then some token else none
]

-- `parseActivation`; the Pod is set later.
unfoldable pub parse_activation : Option ActivationBody → Option ActivationRequest
parse_activation none = none
parse_activation (some b) =
    if not (is_request_id b.request_id) || b.epoch == "" || not (is_generation b.generation)
    then none
    else elim (parse_revision b.config_revision) [
      | ok revision ↦ some (record {
        request_id = b.request_id;
        epoch = b.epoch;
        generation = b.generation;
        config_revision = revision;
        placement_pod_uid = "";
      })
      | _ ↦ none
    ]

-- The request that is sent to garam for a stored one, under a token.
abbrev pub call_of : Activation → String → ActivationCall
call_of stored token = record {
  request_id = stored.request.request_id;
  epoch = stored.request.epoch;
  generation = stored.request.generation;
  replaces_activation_id = stored.replaces_activation_id;
  operation_ref = stored.operation_ref;
  token = token;
}

-- `activationResponse`, with the revision as its number.
pub record ActivationResponse : Type 0 where
  pub activation_id : String
  pub token_version : ℕ
  pub token : String
  pub grn : String
  pub epoch : String
  pub generation : String
  pub config_revision : ℕ

module _ {S : Type 0} where
  -- `currentPlacement`
  unfoldable pub placement_of :
      (sha256_hex : String → String) → String → String → String → Handler (Memory S) Placement
  placement_of sha256_hex agent token epoch = do
    placement ← find_or placement_not_current (current_placement agent)
    if sha256_hex token != placement.request.token_sha256
        then refuse placement_not_current
        else if epoch != placement.request.epoch
        then refuse epoch_superseded
        else answer placement

  unfoldable pub admit :
      Garam → String → String → String → Placement → Handler (Memory S) (Unit {0})
  admit garam agent token epoch placement = elim (garam.introspect agent token "") [
    | failed e ↦ fail (refusal_of e not_authorized)
    | answered x ↦
        if x.credential != "current"
        then refuse credential_fenced
        else if x.grn != agent || x.assignee != placement.controller
        then refuse placement_not_current
        else if x.epoch != epoch
        then refuse epoch_superseded
        else answer tt
  ]

  unfoldable pub call_activate :
      Garam → String → Activation → String → Handler (Memory S) (Answer × Bool)
  call_activate garam agent stored token = elim (garam.activate agent (call_of stored token)) [
    | failed e ↦ fail (refusal_of e not_authorized)
    | answered (a, created) ↦
        if a.grn != agent
          || a.epoch != stored.request.epoch
          || a.generation != stored.request.generation
          || a.activation_id == ""
          || a.token == ""
          || ltb a.token_version 1
        then fail (Failure.garam GaramError.other)
        else answer (a, created)
  ]

  -- What `activate` does while the agent's activation lock is held.
  unfoldable pub activate_locked :
      Request → String → Placement → ActivationRequest → Handler (Memory S) (Answer × Bool)
  activate_locked r token placement req = do
    stored ← service (prepare_activation r.agent req)
    admit r.garam r.agent token req.epoch placement
    (a, created) ← call_activate r.garam r.agent stored token
    service (record_activation r.agent req.request_id a.activation_id)
    answer (a, created)

  -- `activate`: the status and the body of its answer.
  unfoldable pub activate : Codec → Request → Handler (Memory S) (ℕ × ActivationResponse)
  activate codec r = do
    body ← read_or invalid_request (read_body r)
    token ← read_or unauthenticated (agent_token r)
    if r.placement_token == "" then refuse unauthenticated else (do
      req ← read_or invalid_request (parse_activation (codec.decode_activation body))
      placement ← placement_of codec.sha256_hex r.agent r.placement_token req.epoch
      (a, created) ←
          activate_locked r token placement
            (record req { placement_pod_uid = placement.request.pod_uid })
      answer (
        if created then 201 else 200,
        record {
          activation_id = a.activation_id;
          token_version = a.token_version;
          token = a.token;
          grn = a.grn;
          epoch = a.epoch;
          generation = a.generation;
          config_revision = req.config_revision;
        },
      ))
