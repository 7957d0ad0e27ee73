-- ===== src/Tests/Running.antt =====
-- Runs of the store: placements, stops, recoveries, activations and reports.
use garam_agent_operator.Prelude.{
  ◌↔◌, ℕ, ◌≡◌, ◌≢◌, ◌≤◌, refl, true, false, none, some, [], ◌∷◌, List, String, arith, get_elem?,
  string_eq,
}
use text.Mathlib.TextEquality.{eq_iff}
use garam_agent_operator.Definition.Errors.{ok, err, Error}
use garam_agent_operator.Definition.Types.{
  Recovery, requested, Status, StopEnd, finalized, Effective, Definition,
}
use garam_agent_operator.Definition.Equalities.{request_key_eq}
use garam_agent_operator.Map.{count}
use garam_agent_operator.Repository.{Memory, new_memory}
use garam_agent_operator.Repository.Revisions
use garam_agent_operator.Repository.Placements
use garam_agent_operator.Repository.Activations
use garam_agent_operator.Repository.Recoveries
use garam_agent_operator.Repository.Stops
use garam_agent_operator.Repository.Calls.{Call, run}
use garam_agent_operator.Service.Activation.{prepare_activation}
use garam_agent_operator.History.Placements.{
  run_current_once, register_placement-current, register_placement-run_superseded,
}
use garam_agent_operator.History.Stops.{run-holds_once}
use garam_agent_operator.History.Stops.Held.{prepare_activation-run_stopped}
use garam_agent_operator.History.Recoveries.{run-recoveries_Advanced, latest_recovery-open}
use garam_agent_operator.History.Recoveries.Stages.{Advances}
use garam_agent_operator.History.Recoveries.Order.{OpenLast}
use garam_agent_operator.History.Activations.{record_activation-run_mismatch}
use garam_agent_operator.History.Executions.{IsEffective, execution-effective_iff}
use garam_agent_operator.Tests.Data.{
  later, opened, same, key, agent_store, placement, replacement, placed, sample_stop,
  sample_recovery, activation_request, sample_activation, binding,
}

abbrev two_pods : List (Call ℕ)
two_pods =
    Call.register_placement (placement "pod-1")
    ∷ Call.register_placement (replacement "pod-2" "pod-1")
    ∷ []

run_current_once_example :
    count Placements.is_current (Placements.placements_of "agent" (run same new_memory two_pods))
    ≤ 1
run_current_once_example = run_current_once same two_pods "agent"

register_placement-current_example :
    (Placements.current_placement "agent"
      (Placements.register_placement
        (replacement "pod-2" "pod-1")
        (run same new_memory two_pods)).1).0
    ≡ ok (placed (replacement "pod-2" "pod-1") false)
unfolding opened
register_placement-current_example =
    register_placement-current same two_pods (replacement "pod-2" "pod-1")
      (placed (replacement "pod-2" "pod-1") false) false refl

register_placement-run_superseded_example :
    (Placements.register_placement
      (placement "pod-1")
      (run same (run same new_memory two_pods) two_pods)).0
    ≡ err Error.placement_superseded
unfolding opened
register_placement-run_superseded_example =
    register_placement-run_superseded same two_pods two_pods (placement "pod-1")
      (placed (placement "pod-1") true) refl refl

abbrev stops : List (Call ℕ)
stops = Call.record_stop (sample_stop "stop-1") ∷ Call.record_stop (sample_stop "stop-2") ∷ []

run-holds_once_example : count (Stops.holds "agent") (run same new_memory stops).stops ≤ 1
run-holds_once_example = run-holds_once same stops "agent"

prepare_activation-run_stopped_example :
    prepare_activation "agent" activation_request (run same (run same new_memory stops) later)
    ≡ (err Error.agent_stopped, run same (run same new_memory stops) later)
unfolding opened
prepare_activation-run_stopped_example =
    prepare_activation-run_stopped same stops later "agent" (sample_stop "stop-1")
      activation_request refl (refl, (refl, tt))

other-agent : ◌≢◌ {A = String} "other" "agent"
other-agent h = ground (arith, (eq_iff "other" "agent").1 h)

abbrev end : StopEnd
end = record { key = key "start"; binding = binding "start" }

abbrev opened_recovery : List (Call ℕ)
opened_recovery = Call.open_recovery (sample_recovery "recovery-1" requested) ∷ []

run-recoveries_Advanced_example :
    (r' : Recovery) × (get_elem?
        (Recoveries.recoveries_of "agent" (
          run same
            (run same new_memory opened_recovery)
            (Call.prepare_recovery "agent" "recovery-1" "epoch-1" (1 ∷ []) ∷ [])))
        0
      ≡ some r')
    × Advances (sample_recovery "recovery-1" requested) r'
unfolding opened
run-recoveries_Advanced_example =
    run-recoveries_Advanced same (run same new_memory opened_recovery)
      (Call.prepare_recovery "agent" "recovery-1" "epoch-1" (1 ∷ []) ∷ []) "agent" 0
      (sample_recovery "recovery-1" requested) refl

latest_recovery-open_example :
    (r : Recovery) × ((Recoveries.latest_recovery "agent" (run same new_memory opened_recovery)).0
      ≡ ok r)
    × (r.stage ≢ finalized)
    × (r.request_id ≡ "recovery-1")
    × (r.epoch ≡ "epoch-1")
    × OpenLast (Recoveries.recoveries_of "agent" (run same new_memory opened_recovery))
unfolding opened
latest_recovery-open_example =
    latest_recovery-open same opened_recovery "agent"
      (record { request_id = "recovery-1"; epoch = "epoch-1" }) refl

abbrev activated : Memory ℕ
activated = run same agent_store (
    Call.insert_activation (sample_activation "")
    ∷ Call.record_activation "agent" "activate" "activation-1"
    ∷ [])

named_activation : ◌≢◌ {A = String} "activation-1" ""
named_activation h = ground (arith, (eq_iff "activation-1" "").1 h)

other-activation : ◌≢◌ {A = String} "activation-2" "activation-1"
other-activation h = ground (arith, (eq_iff "activation-2" "activation-1").1 h)

record_activation-run_mismatch_example :
    Activations.record_activation "agent" "activate" "activation-2" (run same activated later)
    ≡ (err Error.activation_mismatch, run same activated later)
unfolding opened
record_activation-run_mismatch_example =
    record_activation-run_mismatch same activated later "agent" "activate" "activation-2"
      (sample_activation "activation-1") refl named_activation other-activation

abbrev report : Status
report = record { observed = 2; rendered = 1; applied = none }

abbrev higher : Status
higher = record { observed = 3; rendered = 1; applied = none }

abbrev effective : Effective
effective = record { revision = 1; generation = "1"; observed_at = 5 }

abbrev serving : Memory ℕ
serving = run same activated (
    Call.record_runtime_applied "agent"
      (record { revision = 1; activation_id = "activation-1"; generation = "1"; observed_at = 5 })
    ∷ [])

execution-effective_iff_example :
    ((d : Definition) × ((Revisions.get_definition "agent" serving).0 ≡ ok d)
      × (d.organization ≡ "org")
      × (1 ≡ d.revision))
    × ((some effective ≡ some effective) ↔ IsEffective serving "agent" effective)
unfolding opened
execution-effective_iff_example =
    execution-effective_iff "org" "agent"
      (record { desired = 1; rendered = 0; effective = some effective }) effective serving refl
