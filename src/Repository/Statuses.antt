-- ===== src/Repository/Statuses.antt =====
-- memory.go: what controllers and runtimes reported of agents.
use garam_agent_operator.Prelude.{String, none, some, string_eq, ℕ_eq, max_nat}
use garam_agent_operator.Map.{get, put, get_or}
use garam_agent_operator.Exec.{Exec}
use garam_agent_operator.Definition.Errors.{Error, ok, err}
use garam_agent_operator.Definition.Types.{Status, RuntimeApplied}
use garam_agent_operator.Repository.{Memory}

abbrev pub zero_status : Status
zero_status = record { observed = 0; rendered = 0; applied = none }

module _ {S : Type 0} where
  abbrev pub status_of : String → Memory S → Status
  status_of agent m = get_or zero_status agent m.statuses

  unfoldable pub get_status : String → Exec (Memory S) Status
  get_status agent m = (ok (status_of agent m), m)

  unfoldable pub record_status : String → Status → Exec (Memory S) Status
  record_status agent s m =
      let stored : Status = record {
        observed = max_nat (status_of agent m).observed s.observed;
        rendered = max_nat (status_of agent m).rendered s.rendered;
        applied = (status_of agent m).applied;
      } in
      (ok stored, record m { statuses = put agent stored m.statuses })

  unfoldable pub record_runtime_applied : String → RuntimeApplied → Exec (Memory S) (Unit {0})
  record_runtime_applied agent applied m = (
    ok tt,
    record m {
      applied = put agent applied m.applied;
      statuses =
          put agent (record (status_of agent m) { applied = some applied.revision }) m.statuses;
    },
  )

  unfoldable pub get_runtime_applied : String → Exec (Memory S) RuntimeApplied
  get_runtime_applied agent m = elim (get agent m.applied) [
    | none ↦ (err Error.not_found, m)
    | some applied ↦ (ok applied, m)
  ]
