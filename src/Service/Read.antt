-- ===== src/Service/Read.antt =====
-- internal/definition/read.go: what is known of an agent's execution.
use garam_agent_operator.Prelude.{
  String, ◌&&◌, Option, none, some, ◌==◌, ◌!=◌, string_eq, ℕ_eq, if◌then◌else◌,
}
use garam_agent_operator.Exec.{Exec, pure, raise, optional, ◌>>=◌}
use garam_agent_operator.Definition.Errors.{Error}
use garam_agent_operator.Repository.{Memory}
use garam_agent_operator.Definition.Types.{Execution, Effective, RuntimeApplied}
use garam_agent_operator.Repository.Revisions.{get_definition}
use garam_agent_operator.Repository.Activations.{latest_activation}
use garam_agent_operator.Repository.Statuses.{get_status, get_runtime_applied}

abbrev pub effective_of : RuntimeApplied → String → Option Effective
effective_of applied latest =
    if latest != "" && applied.activation_id == latest
    then some (record {
      revision = applied.revision;
      generation = applied.generation;
      observed_at = applied.observed_at;
    })
    else none

module _ {S : Type 0} where
  unfoldable pub execution : String → String → Exec (Memory S) Execution
  execution org agent = do
    d ← get_definition agent
    if d.organization != org then raise Error.not_found else (do
      status ← get_status agent
      found ← optional (get_runtime_applied agent)
      elim found [
        | none ↦
            pure (record { desired = d.revision; rendered = status.rendered; effective = none })
        | some applied ↦ do
          latest ← optional (latest_activation agent)
          let id : String = elim latest [ none ↦ "" | some a ↦ a ]
          pure (record {
            desired = d.revision;
            rendered = status.rendered;
            effective = effective_of applied id;
          })
      ])
