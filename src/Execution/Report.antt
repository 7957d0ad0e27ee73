-- ===== src/Execution/Report.antt =====
-- internal/execution/status.go: the reports of runtimes.
use garam_agent_operator.Prelude.{
  String, not, ◌||◌, ◌&&◌, Option, none, some, ◌==◌, ◌!=◌, string_eq, ℕ_eq, if◌then◌else◌,
}
use garam_agent_operator.Repository.{Memory}
use garam_agent_operator.Repository.Placements.{current_placement}
use garam_agent_operator.Repository.Activations.{activation_of_generation}
use garam_agent_operator.Service.Activation.{record_runtime_status}
use garam_agent_operator.Execution.Refusals.{
  Handler, credential_fenced, find_or, generation_not_current, invalid_request, read_or, refusal_of,
  refuse, service, unauthenticated,
}
use garam_agent_operator.Execution.{StatusReport, Garam, answered, failed, Codec, Request}
use garam_agent_operator.Execution.Formats.{is_generation, read_body}
use garam_agent_operator.Handler.{answer, fail, ◌>>=◌, ◌>>◌}
use garam_agent_operator.Execution.Activate.{agent_token}

-- `parseStatus`
unfoldable pub parse_status : Option StatusReport → String → Option StatusReport
parse_status none agent = none
parse_status (some b) agent =
    if b.activation_id == ""
      || b.grn != agent
      || b.epoch == ""
      || not (is_generation b.generation)
      || (b.state != "serving" && b.state != "draining")
      || b.started_at == 0
      || b.observed_at == 0
    then none
    else some b

module _ {S : Type 0} where
  -- What `admitReport` asks the store for.
  unfoldable pub admit_stored : String → String → StatusReport → Handler (Memory S) (Unit {0})
  admit_stored agent assignee b = do
    placement ← find_or generation_not_current (current_placement agent)
    if assignee != placement.controller then refuse generation_not_current else (do
      activated ← find_or generation_not_current (activation_of_generation agent b.generation)
      if activated != b.activation_id then refuse generation_not_current else answer tt)

  unfoldable pub admit_report :
      Garam → String → String → StatusReport → Handler (Memory S) (Unit {0})
  unfolding admit_stored
  admit_report garam agent token b = elim (garam.introspect agent token b.generation) [
    | failed e ↦ fail (refusal_of e credential_fenced)
    | answered x ↦
        if x.credential != "current"
        then refuse credential_fenced
        else if x.generation != "current"
            || x.grn != agent
            || x.epoch != b.epoch
            || x.activation_id != b.activation_id
        then refuse generation_not_current
        else admit_stored agent x.assignee b
  ]

  unfoldable pub report_status : Codec → Request → Handler (Memory S) (Unit {0})
  report_status codec r = do
    body ← read_or invalid_request (read_body r)
    token ← read_or unauthenticated (agent_token r)
    b ← read_or invalid_request (parse_status (codec.decode_status body) r.agent)
    admit_report r.garam r.agent token b
    service (
        record_runtime_status r.agent (record {
          activation_id = b.activation_id;
          generation = b.generation;
          config_revision = b.config_revision;
          serving = b.state == "serving";
          observed_at = b.observed_at;
        }))
