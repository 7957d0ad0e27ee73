-- ===== src/History/Operations.antt =====
-- Every operation of the service leads from a store that is reached to one that is.
pub mod Reads
pub mod Console
mod Agents
use garam_agent_operator.Prelude.{
  ℕ, ◌+◌, ◌≤◌, ◌≡◌, refl, String, Bool, true, false, not, ◌≢◌, Option, none, some, List, [], ◌∷◌,
  Option-cases, inl, Bool-cases, inr, ◌&&◌, ◌||◌, ◌⊎◌, ◌∙◌, if◌then◌else◌, string_eq, ℕ_eq, ◌==◌,
  ◌!=◌, arith, length, subst, sym, ltb,
}
use garam_agent_operator.Exec.Steps.{if_holds, bind_holds, bind_reads}
use garam_agent_operator.Exec.{Exec, pure, raise, lift, optional, ◌>>=◌, ◌>>◌, optional_result}
use garam_agent_operator.Definition.Errors.{Result, ok, err, panic, Error, Result-cases}
use garam_agent_operator.Definition.Types.{
  Publication, StopEnd, Creation, Outcome, Registered, Registration, RuntimeApplied, Assignment,
  RecoveryStage, OpenRecoveryInput, StopInput, ActivationRequest, RuntimeReport, OperatorImage,
  RecoveryRequest, ProfileRef, Profile, PublishInput, CreateInput, ConfigureInput, Template,
  TemplateRef,
}
use garam_agent_operator.Definition.Types
use garam_agent_operator.Definition.Equalities.{binding_eq}
use garam_agent_operator.Definition.Revision.{parse_revision}
use garam_agent_operator.SecretRef.{Validation}
use garam_agent_operator.Repository.{Memory, new_memory}
use garam_agent_operator.Repository.Publishing.{profile_versions, get_profile, get_template}
use garam_agent_operator.Repository.Revisions
use garam_agent_operator.Repository.Publishing
use garam_agent_operator.Repository.Creations
use garam_agent_operator.Repository.Activations
use garam_agent_operator.Repository.Statuses
use garam_agent_operator.Repository.Recoveries
use garam_agent_operator.Repository.Stops
use garam_agent_operator.Repository.Operators
use garam_agent_operator.Service.Publish
use garam_agent_operator.Service.Create
use garam_agent_operator.Service.Activation
use garam_agent_operator.Service.Recovery
use garam_agent_operator.Service.Stop
use garam_agent_operator.Service.Status
use garam_agent_operator.Service.Operations.{Operation, Deps, serve, serve_all}
use garam_agent_operator.Repository.Calls.{Call, step}
use garam_agent_operator.Service.Configure
use garam_agent_operator.Service.Checks.{check_config}
use garam_agent_operator.History.Publishing.{get_profile-eq-ok_iff}
use garam_agent_operator.History.Revisions.Invariant.{IsPublished-step}
use garam_agent_operator.History.Reach.{IsPublished, IsAdmissible, Reach, Reachable, here, next}
use garam_agent_operator.History.Operations.Console.{
  configure-Reachable, publish-Reachable, publish_template-Reachable,
  publish_profile_version-Reachable, settle_pending-Reachable, continue_creation-Reachable,
  create_agent-Reachable,
}
use garam_agent_operator.History.Operations.Agents.{
  prepare_new-Reachable, record_serving-Reachable, open_found-Reachable,
  prepare_activation-Reachable, record_runtime_status-Reachable, record_status-Reachable,
  report_operator_images-Reachable, open_recovery-Reachable, stop-Reachable, start-Reachable,
}

module _ {S : Type 0} (deps : Deps S) where
  serve-Reachable :
      (m : Memory S) (op : Operation S)
      → Reachable deps.same m
      → Reachable deps.same (serve deps m op)
  unfolding serve Publish.publish_profile Recovery.prepare_recovery step
  serve-Reachable m (Operation.publish_profile org name settings) r =
      bind_reads (Reachable deps.same) (lift (deps.check settings)) _ m refl r
        (λ u e. next (Call.publish_profile org name settings) r tt)
  serve-Reachable m (Operation.publish_profile_version org p) r =
      publish_profile_version-Reachable deps.same deps.check org p m r
  serve-Reachable m (Operation.publish input) r =
      publish-Reachable deps.same deps.validation input m r
  serve-Reachable m (Operation.publish_template org t) r =
      publish_template-Reachable deps.same deps.validation org t m r
  serve-Reachable m (Operation.create_agent input) r =
      create_agent-Reachable deps.same deps.validation deps.registrar input m r
  serve-Reachable m (Operation.configure input) r =
      configure-Reachable deps.same deps.validation input m r
  serve-Reachable m (Operation.register_placement input) r =
      next (Call.register_placement input) r tt
  serve-Reachable m (Operation.prepare_activation agent req) r =
      prepare_activation-Reachable deps.same agent req m r
  serve-Reachable m (Operation.record_activation agent request_id id) r =
      next (Call.record_activation agent request_id id) r tt
  serve-Reachable m (Operation.record_status agent observed rendered) r =
      record_status-Reachable deps.same agent observed rendered m r
  serve-Reachable m (Operation.record_runtime_status agent report) r =
      record_runtime_status-Reachable deps.same agent report m r
  serve-Reachable m (Operation.open_recovery input) r = open_recovery-Reachable deps.same input m r
  serve-Reachable m (Operation.prepare_recovery agent q) r =
      next (Call.prepare_recovery agent q.request_id q.epoch (Recovery.recovery_body deps.quote q))
        r tt
  serve-Reachable m (Operation.finalize_recovery agent id lineage) r =
      next (Call.finalize_recovery agent id lineage) r tt
  serve-Reachable m (Operation.stop input) r = stop-Reachable deps.same input m r
  serve-Reachable m (Operation.record_deactivation key) r = next (Call.record_deactivation key) r tt
  serve-Reachable m (Operation.start input) r = start-Reachable deps.same input m r
  serve-Reachable m (Operation.record_operator_contact org operator at) r =
      next (Call.record_operator_contact org operator at) r tt
  serve-Reachable m (Operation.report_operator_images org operator images at) r =
      report_operator_images-Reachable deps.same org operator images at m r

  serve_all-Reachable :
      (m : Memory S) (ops : List (Operation S))
      → Reachable deps.same m
      → Reachable deps.same (serve_all deps m ops)
  unfolding serve_all
  serve_all-Reachable m [] r = r
  serve_all-Reachable m (op ∷ ops) r =
      serve_all-Reachable (serve deps m op) ops (serve-Reachable m op r)

  -- Whatever operations the service runs on a new store, whatever they are given and however each
  -- ends, the store that they leave is one that calls lead to from a new store, each made where what it
  -- needs holds: a revision or a template names a version of a profile that its organization has
  -- published, a profile version is numbered from 1, and a creation registers a first revision, recorded
  -- for a controller.
  pub serve_all-new_Reachable :
      (ops : List (Operation S)) → Reachable deps.same (serve_all deps new_memory ops)
  serve_all-new_Reachable ops = serve_all-Reachable new_memory ops here
