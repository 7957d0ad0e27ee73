-- ===== src/Service/Operations.antt =====
-- The operations of the service that change the store, as data, each run to its end. Reads are left
-- out, and so is `WithAgentLock`, which runs the function it is given.
use garam_agent_operator.Prelude.{ℕ, String, Bool, List, [], ◌∷◌}
use garam_agent_operator.Definition.Errors.{Result}
use garam_agent_operator.Definition.Types.{
  Profile, Template, PublishInput, CreateInput, ConfigureInput, PlacementInput, ActivationRequest,
  RuntimeReport, OpenRecoveryInput, RecoveryRequest, StopInput, RequestKey, OperatorImage,
}
use garam_agent_operator.SecretRef.{Validation}
use garam_agent_operator.Repository.{Memory}
use garam_agent_operator.Repository.Placements
use garam_agent_operator.Repository.Activations
use garam_agent_operator.Repository.Recoveries
use garam_agent_operator.Repository.Stops
use garam_agent_operator.Repository.Operators
use garam_agent_operator.Service.Publish
use garam_agent_operator.Service.Create
use garam_agent_operator.Service.Configure
use garam_agent_operator.Service.Activation
use garam_agent_operator.Service.Recovery
use garam_agent_operator.Service.Stop
use garam_agent_operator.Service.Status

pub data Operation (S : Type 0) : Type 0 where
  publish_profile : String → String → S → Operation S
  publish_profile_version : String → Profile S → Operation S
  publish : PublishInput → Operation S
  publish_template : String → Template → Operation S
  create_agent : CreateInput → Operation S
  configure : ConfigureInput → Operation S
  register_placement : PlacementInput → Operation S
  prepare_activation : String → ActivationRequest → Operation S
  record_activation : String → String → String → Operation S
  record_status : String → ℕ → ℕ → Operation S
  record_runtime_status : String → RuntimeReport → Operation S
  open_recovery : OpenRecoveryInput → Operation S
  prepare_recovery : String → RecoveryRequest → Operation S
  finalize_recovery : String → String → String → Operation S
  stop : StopInput → Operation S
  record_deactivation : RequestKey → Operation S
  start : StopInput → Operation S
  record_operator_contact : String → String → ℕ → Operation S
  report_operator_images : String → String → List OperatorImage → ℕ → Operation S

-- What the service is made with.
pub record Deps (S : Type 0) : Type 0 where
  pub validation : Validation
  pub check : S → Result (Unit {0})
  pub same : S → S → Bool
  pub registrar : Create.Registrar
  pub quote : String → List ℕ

module _ {S : Type 0} (deps : Deps S) where
  -- The store after an operation.
  unfoldable pub serve : Memory S → Operation S → Memory S
  serve m (publish_profile org name settings) =
      (Publish.publish_profile deps.check org name settings m).1
  serve m (publish_profile_version org p) =
      (Publish.publish_profile_version deps.check deps.same org p m).1
  serve m (publish input) = (Publish.publish deps.validation input m).1
  serve m (publish_template org t) = (Publish.publish_template deps.validation org t m).1
  serve m (create_agent input) = (Create.create_agent deps.validation deps.registrar input m).1
  serve m (configure input) = (Configure.configure deps.validation input m).1
  serve m (register_placement input) = (Placements.register_placement input m).1
  serve m (prepare_activation agent req) = (Activation.prepare_activation agent req m).1
  serve m (record_activation agent request_id id) =
      (Activations.record_activation agent request_id id m).1
  serve m (record_status agent observed rendered) =
      (Status.record_status agent observed rendered m).1
  serve m (record_runtime_status agent report) = (Activation.record_runtime_status agent report m).1
  serve m (open_recovery input) = (Recovery.open_recovery input m).1
  serve m (prepare_recovery agent r) = (Recovery.prepare_recovery deps.quote agent r m).1
  serve m (finalize_recovery agent id lineage) = (Recoveries.finalize_recovery agent id lineage m).1
  serve m (stop input) = (Stop.stop input m).1
  serve m (record_deactivation key) = (Stops.record_deactivation key m).1
  serve m (start input) = (Stop.start input m).1
  serve m (record_operator_contact org operator at) =
      (Operators.record_operator_contact org operator at m).1
  serve m (report_operator_images org operator images at) =
      (Status.report_operator_images org operator images at m).1

  -- The store after operations, the first in front.
  unfoldable pub serve_all : Memory S → List (Operation S) → Memory S
  unfolding serve
  serve_all m [] = m
  serve_all m (op ∷ ops) = serve_all (serve m op) ops
