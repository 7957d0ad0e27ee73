-- ===== src/Repository/Calls.antt =====
-- The calls that change the store, as data. Each holds the store's mutex throughout, so the calls of
-- any number of concurrent requests are one list, in the order in which they took the mutex.
pub mod Frames
use garam_agent_operator.Prelude.{ℕ, String, Bool, List, [], ◌∷◌}
use garam_agent_operator.Definition.Types.{
  Profile, Template, Definition, RequestKey, Creation, Request, PlacementInput, Activation,
  RuntimeApplied, Publication, Recovery, Stop, StopEnd, Status, OperatorImage,
}
use garam_agent_operator.Repository.{Memory}
use garam_agent_operator.Repository.Publishing
use garam_agent_operator.Repository.Revisions
use garam_agent_operator.Repository.Creations
use garam_agent_operator.Repository.Placements
use garam_agent_operator.Repository.Activations
use garam_agent_operator.Repository.Statuses
use garam_agent_operator.Repository.Recoveries
use garam_agent_operator.Repository.Stops
use garam_agent_operator.Repository.Operators

pub data Call (S : Type 0) : Type 0 where
  publish_profile : String → String → S → Call S
  publish_profile_version : String → Profile S → Call S
  publish_template : String → Template → Call S
  publish_once : Publication → Template → Call S
  configure : Request → Definition → Call S
  begin_creation : Creation → Call S
  register_creation : RequestKey → Definition → Call S
  fail_creation : RequestKey → String → Bool → Call S
  register_placement : PlacementInput → Call S
  insert_activation : Activation → Call S
  record_activation : String → String → String → Call S
  record_status : String → Status → Call S
  record_runtime_applied : String → RuntimeApplied → Call S
  open_recovery : Recovery → Call S
  prepare_recovery : String → String → String → List ℕ → Call S
  finalize_recovery : String → String → String → Call S
  record_stop : Stop → Call S
  record_deactivation : RequestKey → Call S
  record_start : String → StopEnd → Call S
  record_operator_contact : String → String → ℕ → Call S
  report_operator_images : String → String → List OperatorImage → ℕ → Call S

module _ {S : Type 0} (same : S → S → Bool) where
  -- The store after a call.
  unfoldable pub step : Memory S → Call S → Memory S
  step m (publish_profile org name settings) = (Publishing.publish_profile org name settings m).1
  step m (publish_profile_version org p) = (Publishing.publish_profile_version same org p m).1
  step m (publish_template org t) = (Publishing.publish_template org t m).1
  step m (publish_once p t) = (Publishing.publish_once p t m).1
  step m (configure r d) = (Revisions.configure r d m).1
  step m (begin_creation c) = (Creations.begin_creation c m).1
  step m (register_creation key d) = (Creations.register_creation key d m).1
  step m (fail_creation key reason conflict) = (Creations.fail_creation key reason conflict m).1
  step m (register_placement input) = (Placements.register_placement input m).1
  step m (insert_activation a) = (Activations.insert_activation a m).1
  step m (record_activation agent request_id id) =
      (Activations.record_activation agent request_id id m).1
  step m (record_status agent s) = (Statuses.record_status agent s m).1
  step m (record_runtime_applied agent applied) =
      (Statuses.record_runtime_applied agent applied m).1
  step m (open_recovery r) = (Recoveries.open_recovery r m).1
  step m (prepare_recovery agent id epoch body) =
      (Recoveries.prepare_recovery agent id epoch body m).1
  step m (finalize_recovery agent id lineage) = (Recoveries.finalize_recovery agent id lineage m).1
  step m (record_stop s) = (Stops.record_stop s m).1
  step m (record_deactivation key) = (Stops.record_deactivation key m).1
  step m (record_start agent end) = (Stops.record_start agent end m).1
  step m (record_operator_contact org operator at) =
      (Operators.record_operator_contact org operator at m).1
  step m (report_operator_images org operator images at) =
      (Operators.report_operator_images org operator images at m).1

  -- The store after calls, the first in front.
  unfoldable pub run : Memory S → List (Call S) → Memory S
  unfolding step
  run m [] = m
  run m (c ∷ cs) = run (step m c) cs
