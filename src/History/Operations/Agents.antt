-- ===== src/History/Operations/Agents.antt =====
-- The operations on what runs, from a store that is reached.
use garam_agent_operator.Prelude.{
  ℕ, String, Bool, false, none, some, List, [], Option-cases, inl, Bool-cases, inr, ◌||◌, string_eq,
  ℕ_eq, arith, ltb,
}
use garam_agent_operator.Exec.Steps.{bind_holds, bind_reads}
use garam_agent_operator.Exec.{optional}
use garam_agent_operator.Definition.Errors.{Result-cases}
use garam_agent_operator.Definition.Types.{
  Publication, StopEnd, Creation, Outcome, Registered, Registration, RuntimeApplied, Assignment,
  RecoveryStage, OpenRecoveryInput, StopInput, ActivationRequest, RuntimeReport, OperatorImage,
  RecoveryRequest, ProfileRef, Profile, PublishInput, CreateInput, ConfigureInput, Template,
  TemplateRef,
}
use garam_agent_operator.Definition.Types
use garam_agent_operator.Definition.Equalities.{binding_eq}
use garam_agent_operator.Definition.Revision.{parse_revision}
use garam_agent_operator.Repository.{Memory}
use garam_agent_operator.Repository.Revisions
use garam_agent_operator.Repository.Activations
use garam_agent_operator.Repository.Recoveries
use garam_agent_operator.Repository.Stops
use garam_agent_operator.Service.Activation
use garam_agent_operator.Service.Recovery
use garam_agent_operator.Service.Stop
use garam_agent_operator.Service.Status
use garam_agent_operator.Repository.Calls.{Call, step}
use garam_agent_operator.History.Reach.{Reachable, next}
use garam_agent_operator.History.Operations.Reads.{
  get_definition-state, stopped-state, in_organization-state, latest_activation-state,
  get_activation-state, operation_reference-state,
}

abbrev opened_by : OpenRecoveryInput → Assignment → Types.Recovery
opened_by input a = record {
  agent = input.agent;
  request_id = input.request_id;
  key = input.key;
  binding = input.binding;
  epoch = a.epoch;
  stage = RecoveryStage.requested;
  body = [];
  recovered = none;
}

module _ {S : Type 0} (same : S → S → Bool) where
  pub prepare_new-Reachable :
      (agent : String) (req : ActivationRequest) (m : Memory S)
      → Reachable same m
      → Reachable same (Activation.prepare_new agent req m).1
  unfolding Activation.prepare_new step
  prepare_new-Reachable agent req m r =
      bind_reads (Reachable same) (Revisions.get_definition agent) _ m
        (get_definition-state agent m) r
        (λ d e.
          elim (Bool-cases (ltb req.config_revision 1 || ltb d.revision req.config_revision)) [
            | inl out ↦ rw out r
            | inr fine ↦ rw fine (
                bind_reads (Reachable same) (optional (Activations.latest_activation agent)) _ m
                  (latest_activation-state agent m) r
                  (λ found f.
                    let anchor : String = elim found [ none ↦ "" | some a ↦ a ] in
                    bind_reads (Reachable same)
                      (Activation.operation_reference agent req.config_revision anchor) _ m
                      (operation_reference-state agent req.config_revision anchor m) r
                      (λ ref g.
                        next
                          (Call.insert_activation (record {
                            agent = agent;
                            request = req;
                            replaces_activation_id = anchor;
                            operation_ref = ref;
                            activation_id = "";
                          }))
                          r tt)))
          ])

  pub record_serving-Reachable :
      (agent : String) (report : RuntimeReport) (revision : ℕ) (m : Memory S)
      → Reachable same m
      → Reachable same (Activation.record_serving agent report revision m).1
  unfolding Activation.record_serving step
  record_serving-Reachable agent report revision m r =
      let r' =
        next
          (Call.record_runtime_applied agent (record {
            revision = revision;
            activation_id = report.activation_id;
            generation = report.generation;
            observed_at = report.observed_at;
          }))
          r tt in
      bind_reads (Reachable same) (Revisions.get_definition agent) _ m
        (get_definition-state agent m) r (λ d e. ground (arith, r, r'))

  pub open_found-Reachable :
      (input : OpenRecoveryInput) (a : Assignment) (m : Memory S)
      → Reachable same m
      → Reachable same (Recoveries.open_recovery (opened_by input a) m).1
  unfolding step
  open_found-Reachable input a m r = next (Call.open_recovery (opened_by input a)) r tt

  pub prepare_activation-Reachable :
      (agent : String) (req : ActivationRequest) (m : Memory S)
      → Reachable same m
      → Reachable same (Activation.prepare_activation agent req m).1
  unfolding Activation.prepare_activation Activation.prepare_new step
  prepare_activation-Reachable agent req m r =
      bind_reads (Reachable same) (Stop.stopped agent) _ m (stopped-state agent m) r (λ u e.
        bind_reads (Reachable same) (optional (Activations.get_activation agent req.request_id)) _ m
          (get_activation-state agent req.request_id m) r
          (λ found f. ground (arith, r, prepare_new-Reachable agent req m r)))

  pub record_runtime_status-Reachable :
      (agent : String) (report : RuntimeReport) (m : Memory S)
      → Reachable same m
      → Reachable same (Activation.record_runtime_status agent report m).1
  unfolding Activation.record_runtime_status Activation.record_serving step
  record_runtime_status-Reachable agent report m r =
      elim (Result-cases (parse_revision report.config_revision)) [
        | inl (n, e) ↦ ground (arith, r, record_serving-Reachable agent report n m r)
        | inr e ↦ ground (arith, r, e)
      ]

  pub record_status-Reachable :
      (agent : String) (observed rendered : ℕ) (m : Memory S)
      → Reachable same m
      → Reachable same (Status.record_status agent observed rendered m).1
  unfolding Status.record_status step
  record_status-Reachable agent observed rendered m r =
      let r' =
        next
          (Call.record_status agent
            (record { observed = observed; rendered = rendered; applied = none }))
          r tt in
      bind_reads (Reachable same) (Revisions.get_definition agent) _ m
        (get_definition-state agent m) r (λ d e. ground (arith, r, r'))

  pub report_operator_images-Reachable :
      (org operator : String) (images : List OperatorImage) (at : ℕ) (m : Memory S)
      → Reachable same m
      → Reachable same (Status.report_operator_images org operator images at m).1
  unfolding Status.report_operator_images step
  report_operator_images-Reachable org operator images at m r =
      let r' = next (Call.report_operator_images org operator images at) r tt in
      ground (arith, r, r')

  pub open_recovery-Reachable :
      (input : OpenRecoveryInput) (m : Memory S)
      → Reachable same m
      → Reachable same (Recovery.open_recovery input m).1
  unfolding Recovery.open_recovery step
  open_recovery-Reachable input m r =
      bind_reads (Reachable same) (Revisions.get_definition input.agent) _ m
        (get_definition-state input.agent m) r
        (λ d e. elim (Option-cases d.assignment) [
          | inl f ↦ ground (arith, r)
          | inr (a, f) ↦ ground (arith, r, open_found-Reachable input a m r)
        ])

  pub stop-Reachable :
      (input : StopInput) (m : Memory S) → Reachable same m → Reachable same (Stop.stop input m).1
  unfolding Stop.stop step
  stop-Reachable input m r =
      bind_reads (Reachable same) (Stop.in_organization input.agent input.key.organization) _ m
        (in_organization-state input.agent input.key.organization m) r
        (λ u e.
          bind_reads (Reachable same) (optional (Activations.latest_activation input.agent)) _ m
            (latest_activation-state input.agent m) r
            (λ found f.
              let s : Types.Stop = record {
                agent = input.agent;
                key = input.key;
                binding = input.binding;
                activation_id = elim found [ none ↦ "" | some latest ↦ latest ];
                deactivated = false;
                start = none;
              } in
              let r' = next (Call.record_stop s) r tt in
              bind_holds (Reachable same) (Stops.record_stop s) _ m r'
                (λ stored h. ground (arith, r'))))

  pub start-Reachable :
      (input : StopInput) (m : Memory S) → Reachable same m → Reachable same (Stop.start input m).1
  unfolding Stop.start step
  start-Reachable input m r =
      let end : StopEnd = record { key = input.key; binding = input.binding } in
      let r' = next (Call.record_start input.agent end) r tt in
      bind_reads (Reachable same) (Stop.in_organization input.agent input.key.organization) _ m
        (in_organization-state input.agent input.key.organization m) r
        (λ u e.
          bind_holds (Reachable same) (Stops.record_start input.agent end) _ m r'
            (λ stored h. ground (arith, r')))
