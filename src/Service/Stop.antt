-- ===== src/Service/Stop.antt =====
-- internal/definition/stop.go. `WithAgentLock` runs its function while the agent's lock is held.
use garam_agent_operator.Prelude.{
  String, Bool, true, false, ◌||◌, Option, none, some, ◌!=◌, string_eq, ℕ_eq, if◌then◌else◌,
}
use garam_agent_operator.Exec.{Exec, pure, raise, optional, ◌>>=◌, ◌>>◌}
use garam_agent_operator.Definition.Errors.{Error}
use garam_agent_operator.Repository.{Memory}
use garam_agent_operator.Definition.Types.{Stop, StopInput, StopEnd}
use garam_agent_operator.Definition.Equalities.{binding_eq}
use garam_agent_operator.Repository.Revisions.{get_definition}
use garam_agent_operator.Repository.Activations.{latest_activation}
use garam_agent_operator.Repository.Stops.{record_stop, record_start, current_stop}

-- `stored.Start == nil || stored.Start.Binding != in.Binding`
abbrev pub started_by_another : StopInput → Option StopEnd → Bool
started_by_another input none = true
started_by_another input (some end) = end.binding != input.binding

module _ {S : Type 0} where
  unfoldable pub in_organization : String → String → Exec (Memory S) (Unit {0})
  in_organization agent org = do
    d ← get_definition agent
    if d.organization != org then raise Error.not_found else pure tt

  unfoldable pub stopped : String → Exec (Memory S) (Unit {0})
  stopped agent = do
    found ← optional (current_stop agent)
    elim found [ none ↦ pure tt | some _ ↦ raise Error.agent_stopped ]

  unfoldable pub stop : StopInput → Exec (Memory S) (Stop × Bool)
  stop input = do
    in_organization input.agent input.key.organization
    found ← optional (latest_activation input.agent)
    (stored, first) ← record_stop (record {
      agent = input.agent;
      key = input.key;
      binding = input.binding;
      activation_id = elim found [ none ↦ "" | some latest ↦ latest ];
      deactivated = false;
      start = none;
    })
    if stored.agent != input.agent || stored.binding != input.binding
        then raise Error.request_reused
        else pure (stored, first)

  unfoldable pub start : StopInput → Exec (Memory S) Stop
  start input = do
    in_organization input.agent input.key.organization
    stored ← record_start input.agent (record { key = input.key; binding = input.binding })
    if stored.agent != input.agent || started_by_another input stored.start
        then raise Error.request_reused
        else pure stored
