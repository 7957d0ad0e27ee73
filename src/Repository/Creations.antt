-- ===== src/Repository/Creations.antt =====
-- memory.go: the requests that create agents.
use garam_agent_operator.Prelude.{
  String, Bool, true, false, not, none, some, ◌==◌, string_eq, ℕ_eq, if◌then◌else◌,
}
use garam_agent_operator.Map.{get, put, find_value}
use garam_agent_operator.Exec.{Exec}
use garam_agent_operator.Definition.Errors.{Error, ok, err, panic}
use garam_agent_operator.Definition.Types.{RequestKey, Creation, Outcome, Definition}
use garam_agent_operator.Definition.Equalities.{request_key_eq}
use garam_agent_operator.Repository.{Memory}
use garam_agent_operator.Repository.Revisions.{append_locked}

abbrev pub is_pending : Outcome → Bool
is_pending Outcome.pending = true
is_pending _ = false

abbrev pub is_registered_as : String → Creation → Bool
is_registered_as agent c = elim c.outcome [ Outcome.registered r ↦ r.agent == agent | _ ↦ false ]

module _ {S : Type 0} where
  unfoldable pub begin_creation : Creation → Exec (Memory S) Creation
  begin_creation c m = elim (get c.key m.creations) [
    | some stored ↦ (ok stored, m)
    | none ↦
        let c' : Creation = record c { outcome = Outcome.pending } in
        (ok c', record m { creations = put c.key c' m.creations })
  ]

  -- `c.Outcome = outcome; m.creations[key] = c`
  abbrev pub settle : RequestKey → Creation → Outcome → Memory S → Memory S
  settle key c outcome m = record m {
    creations = put key (record c { outcome = outcome }) m.creations;
  }

  -- The creation is pending.
  unfoldable pub register_pending :
      RequestKey → Creation → Definition → Exec (Memory S) (Creation × Bool)
  unfolding append_locked
  register_pending key c d m =
      let (stored, m') = append_locked d m in
      elim stored [
        | err e ↦ (err e, m')
        | panic ↦ (panic, m')
        | ok _ ↦ elim d.assignment [
          | none ↦ (panic, m')
          | some assignment ↦
              let outcome : Outcome =
                Outcome.registered (record { agent = d.agent; epoch = assignment.epoch }) in
              (ok (record c { outcome = outcome }, true), settle key c outcome m')
        ]
      ]

  unfoldable pub register_creation : RequestKey → Definition → Exec (Memory S) (Creation × Bool)
  unfolding register_pending
  register_creation key d m = elim (get key m.creations) [
    | none ↦ (err Error.not_found, m)
    | some c ↦ if not (is_pending c.outcome) then (ok (c, false), m) else register_pending key c d m
  ]

  unfoldable pub fail_creation : RequestKey → String → Bool → Exec (Memory S) Creation
  fail_creation key reason conflict m = elim (get key m.creations) [
    | none ↦ (err Error.not_found, m)
    | some c ↦ if not (is_pending c.outcome) then (ok c, m) else (
      ok (record c { outcome = Outcome.failed reason conflict }),
      settle key c (Outcome.failed reason conflict) m,
    )
  ]

  unfoldable pub creation_of : String → Exec (Memory S) Creation
  creation_of agent m = elim (find_value (is_registered_as agent) m.creations) [
    | none ↦ (err Error.not_found, m)
    | some c ↦ (ok c, m)
  ]
