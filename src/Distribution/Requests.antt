-- ===== src/Distribution/Requests.antt =====
-- internal/distribution/placement.go, recovery.go, status.go and images.go: the reports of controllers.
use garam_agent_operator.Prelude.{
  ℕ, String, Bool, not, ◌&&◌, ◌||◌, Option, none, some, List, ◌==◌, ◌!=◌, string_eq, ℕ_eq, ltb,
  if◌then◌else◌, length,
}
use garam_agent_operator.Definition.Errors.{ok, err, panic}
use garam_agent_operator.Definition.Types.{
  PlacementRequest, PreviousPlacement, Placement, Recovery, RecoveryRequest, RecoveryStage, Status,
}
use garam_agent_operator.Definition.Placement.{no_previous}
use garam_agent_operator.Definition.Revision.{parse_revision}
use garam_agent_operator.Repository.Placements.{register_placement}
use garam_agent_operator.Service.Recovery
use garam_agent_operator.Service.Status
use garam_agent_operator.Text.{codes, every, is_hex}
use garam_agent_operator.Execution.Formats.{is_request_id}
use garam_agent_operator.Handler.{answer, fail, ◌>>=◌, ◌>>◌}
use garam_agent_operator.Distribution.{
  Failure, PlacementBody, RecoveryBody, StatusBody, Codec, Request, Handler, ask, read_or,
}
use garam_agent_operator.Distribution.Session.{authenticate, prove_placed_at, assigned_to, placed}

-- `io.ReadAll` of `http.MaxBytesReader`.
abbrev pub read_body : ℕ → Request → Option (List ℕ)
read_body limit r = if r.is_cut || ltb limit (length r.body) then none else some r.body

-- `sha256Pattern`: ^[0-9a-f]{64}$
unfoldable pub is_sha256 : String → Bool
is_sha256 s = length (codes s) == 64 && every is_hex (codes s)

abbrev pub request_of : PlacementBody → PreviousPlacement → PlacementRequest
request_of b previous = record {
  pod_uid = b.pod_uid;
  pvc_uid = b.pvc_uid;
  epoch = b.epoch;
  token_sha256 = b.token_sha256;
  previous = previous;
}

-- `parsePlacement`
unfoldable pub parse_placement : Option PlacementBody → Option PlacementRequest
unfolding is_sha256
parse_placement none = none
parse_placement (some b) =
    if b.epoch == "" || b.pod_uid == "" || b.pvc_uid == "" || not (is_sha256 b.token_sha256)
    then none
    else elim b.previous [
      | none ↦ some (request_of b no_previous)
      | some p ↦
          if p.pod_uid == ""
            || p.pod_uid == b.pod_uid
            || (p.writer_stopped_sha256 != "" && not (is_sha256 p.writer_stopped_sha256))
          then none
          else some (request_of b p)
    ]

-- `parseRecoveryRequest`
unfoldable pub parse_recovery : Option RecoveryBody → Option RecoveryRequest
parse_recovery none = none
parse_recovery (some b) =
    if not (is_request_id b.request_id) || b.epoch == ""
    then none
    else some (record { request_id = b.request_id; epoch = b.epoch })

-- `parseStatus`
unfoldable pub parse_status : Option StatusBody → Option (ℕ × ℕ)
parse_status none = none
parse_status (some b) = elim (parse_revision b.observed_revision) [
  | ok observed ↦ elim (parse_revision b.rendered_revision) [
    | ok rendered ↦ some (observed, rendered)
    | err e ↦ none
    | panic ↦ none
  ]
  | err e ↦ none
  | panic ↦ none
]

-- `recoveryResponse`, with its status.
pub record RecoveryAnswer : Type 0 where
  pub status : ℕ
  pub agent : String
  pub request_id : String
  pub epoch : String
  pub stage : RecoveryStage
  pub lineage : String

abbrev pub recovery_answer : String → Recovery → RecoveryAnswer
recovery_answer agent r = record {
  status = elim r.recovered [ none ↦ 202 | some lineage ↦ 200 ];
  agent = agent;
  request_id = r.request_id;
  epoch = r.epoch;
  stage = r.stage;
  lineage = elim r.recovered [ none ↦ "" | some lineage ↦ lineage ];
}

module _ {S : Type 0} where
  -- `registerPlacement`: the placement that is stored, and the answer's status.
  unfoldable pub register : Codec → Request → Handler S (Placement × ℕ)
  register codec r = do
    body ← read_or Failure.invalid_placement_body (read_body 4096 r)
    c ← authenticate r
    input ← read_or Failure.invalid_placement_body (parse_placement (codec.decode_placement body))
    prove_placed_at r c r.agent input.epoch
    (stored, first) ←
        ask (register_placement (record { agent = r.agent; controller = c.grn; request = input }))
    answer (stored, if first then 201 else 200)

  -- `prepareRecovery`
  unfoldable pub prepare_recovery :
      Codec → (quote : String → List ℕ) → Request → Handler S RecoveryAnswer
  prepare_recovery codec quote r = do
    body ← read_or Failure.invalid_recovery_body (read_body 4096 r)
    c ← authenticate r
    input ← read_or Failure.invalid_recovery_body (parse_recovery (codec.decode_recovery body))
    prove_placed_at r c r.agent input.epoch
    stored ← ask (Recovery.prepare_recovery quote r.agent input)
    answer (recovery_answer r.agent stored)

  -- `status`
  unfoldable pub status : Codec → Request → Handler S Status
  status codec r = do
    body ← read_or Failure.invalid_status_body (read_body 4096 r)
    c ← authenticate r
    (observed, rendered) ←
        read_or Failure.invalid_status_body (parse_status (codec.decode_status body))
    a ← assigned_to c r.agent
    is_placed ← placed r c r.agent a.epoch
    if is_placed
        then ask (Status.record_status r.agent observed rendered)
        else fail Failure.not_placed

  -- `reportImages`
  unfoldable pub report_images : Codec → Request → Handler S (Unit {0})
  report_images codec r = do
    body ← read_or Failure.invalid_images_body (read_body 16384 r)
    c ← authenticate r
    images ← read_or Failure.invalid_images_body (codec.decode_images body)
    ask (Status.report_operator_images c.org_grn c.grn images r.now)
