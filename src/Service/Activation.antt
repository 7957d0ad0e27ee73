-- ===== src/Service/Activation.antt =====
-- internal/definition/activation.go.
use garam_agent_operator.Prelude.{
  ℕ, String, Bool, false, not, ◌&&◌, ◌||◌, Option, none, some, ◌==◌, ◌!=◌, string_eq, ℕ_eq, ltb,
  if◌then◌else◌,
}
use garam_agent_operator.Exec.{Exec, pure, raise, optional, ◌>>=◌, ◌>>◌}
use garam_agent_operator.Definition.Errors.{Error, ok}
use garam_agent_operator.Repository.{Memory}
use garam_agent_operator.Definition.Types.{
  ActivationRequest, Activation, RuntimeApplied, RuntimeReport,
}
use garam_agent_operator.Definition.Equalities.{activation_request_eq}
use garam_agent_operator.Definition.Revision.{parse_revision}
use garam_agent_operator.Repository.Revisions.{get_definition, configure_reference}
use garam_agent_operator.Repository.Creations.{creation_of}
use garam_agent_operator.Repository.Activations.{
  get_activation, latest_activation, insert_activation,
}
use garam_agent_operator.Repository.Statuses.{get_runtime_applied, record_runtime_applied}
use garam_agent_operator.Service.Stop.{stopped}

-- The runtime reported the revision effective under the anchor.
abbrev pub ran_under : Option RuntimeApplied → ℕ → String → Bool
ran_under none revision anchor = false
ran_under (some applied) revision anchor =
    anchor != "" && applied.activation_id == anchor && applied.revision == revision

module _ {S : Type 0} where
  -- The reference that produced the revision.
  unfoldable pub reference_of : String → ℕ → Exec (Memory S) String
  reference_of agent revision =
      if revision == 1
      then (do creation ← creation_of agent; pure creation.binding.operation_ref)
      else configure_reference agent revision

  unfoldable pub operation_reference : String → ℕ → String → Exec (Memory S) String
  unfolding reference_of
  operation_reference agent revision anchor = do
    applied ← optional (get_runtime_applied agent)
    if ran_under applied revision anchor then pure "" else reference_of agent revision

  -- The request is not stored yet.
  unfoldable pub prepare_new : String → ActivationRequest → Exec (Memory S) Activation
  prepare_new agent req = do
    latest ← get_definition agent
    if ltb req.config_revision 1 || ltb latest.revision req.config_revision
        then raise Error.invalid_status
        else (do
          found ← optional (latest_activation agent)
          let anchor : String = elim found [ none ↦ "" | some a ↦ a ]
          ref ← operation_reference agent req.config_revision anchor
          insert_activation (record {
            agent = agent;
            request = req;
            replaces_activation_id = anchor;
            operation_ref = ref;
            activation_id = "";
          }))

  unfoldable pub prepare_activation : String → ActivationRequest → Exec (Memory S) Activation
  prepare_activation agent req = do
    stopped agent
    found ← optional (get_activation agent req.request_id)
    elim found [
      | some stored ↦ if stored.request != req then raise Error.request_reused else pure stored
      | none ↦ prepare_new agent req
    ]

  -- A report of a runtime that is serving the revision it names.
  unfoldable pub record_serving : String → RuntimeReport → ℕ → Exec (Memory S) (Unit {0})
  record_serving agent report revision = do
    latest ← get_definition agent
    if ltb latest.revision revision
        then pure tt
        else record_runtime_applied agent (record {
          revision = revision;
          activation_id = report.activation_id;
          generation = report.generation;
          observed_at = report.observed_at;
        })

  unfoldable pub record_runtime_status : String → RuntimeReport → Exec (Memory S) (Unit {0})
  unfolding record_serving
  record_runtime_status agent report = elim (parse_revision report.config_revision) [
    | ok revision ↦ if not report.serving then pure tt else record_serving agent report revision
    | _ ↦ pure tt
  ]
