-- ===== src/Repository/Activations.antt =====
-- memory.go: the activation requests of agents, by their request id.
use garam_agent_operator.Prelude.{
  String, Bool, ◌&&◌, none, some, [], ◌==◌, ◌!=◌, string_eq, ℕ_eq, if◌then◌else◌,
}
use garam_agent_operator.Map.{Map, get, put, get_or, find_value}
use garam_agent_operator.Exec.{Exec}
use garam_agent_operator.Definition.Errors.{Error, ok, err}
use garam_agent_operator.Definition.Types.{Activation}
use garam_agent_operator.Repository.{Memory}

abbrev pub answered_for : String → Activation → Bool
answered_for generation a = a.request.generation == generation && a.activation_id != ""

module _ {S : Type 0} where
  abbrev pub activations_of : String → Memory S → Map String Activation
  activations_of agent m = get_or [] agent m.activations

  unfoldable pub insert_activation : Activation → Exec (Memory S) Activation
  insert_activation a m = elim (get a.request.request_id (activations_of a.agent m)) [
    | some existing ↦ (ok existing, m)
    | none ↦ (
      ok a,
      record m {
        activations =
            put a.agent (put a.request.request_id a (activations_of a.agent m)) m.activations;
      },
    )
  ]

  unfoldable pub get_activation : String → String → Exec (Memory S) Activation
  get_activation agent request_id m = elim (get request_id (activations_of agent m)) [
    | none ↦ (err Error.not_found, m)
    | some a ↦ (ok a, m)
  ]

  unfoldable pub record_activation : String → String → String → Exec (Memory S) (Unit {0})
  record_activation agent request_id activation_id m =
      elim (get request_id (activations_of agent m)) [
        | none ↦ (err Error.not_found, m)
        | some a ↦
            if a.activation_id != "" && a.activation_id != activation_id
            then (err Error.activation_mismatch, m)
            else (
              ok tt,
              record m {
                activations =
                    put agent
                      (put request_id (record a { activation_id = activation_id })
                        (activations_of agent m))
                      m.activations;
                latest = put agent activation_id m.latest;
              },
            )
      ]

  unfoldable pub latest_activation : String → Exec (Memory S) String
  latest_activation agent m = elim (get agent m.latest) [
    | none ↦ (err Error.not_found, m)
    | some latest ↦ (ok latest, m)
  ]

  unfoldable pub activation_of_generation : String → String → Exec (Memory S) String
  activation_of_generation agent generation m =
      elim (find_value (answered_for generation) (activations_of agent m)) [
        | none ↦ (err Error.not_found, m)
        | some a ↦ (ok a.activation_id, m)
      ]
