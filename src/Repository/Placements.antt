-- ===== src/Repository/Placements.antt =====
-- memory.go: the placements of agents, by the UID of their Pod.
use garam_agent_operator.Prelude.{
  String, Bool, true, false, not, Option, none, some, [], string_eq, ℕ_eq,
}
use garam_agent_operator.Map.{Map, get, put, get_or, find_value, last_value}
use garam_agent_operator.Exec.{Exec}
use garam_agent_operator.Definition.Errors.{Error, ok, err, panic}
use garam_agent_operator.Definition.Types.{Placement, PlacementInput}
use garam_agent_operator.Definition.Placement.{PlacementAction, decide_placement}
use garam_agent_operator.Repository.{Memory}

abbrev pub is_current : Placement → Bool
is_current p = not p.superseded

abbrev pub placement_of : PlacementInput → Placement
placement_of input = record {
  agent = input.agent;
  controller = input.controller;
  request = input.request;
  superseded = false;
}

-- The current placement, marked superseded.
abbrev pub supersede : Option Placement → Map String Placement → Map String Placement
supersede none stored = stored
supersede (some current) stored =
    put current.request.pod_uid (record current { superseded = true }) stored

module _ {S : Type 0} where
  abbrev pub placements_of : String → Memory S → Map String Placement
  placements_of agent m = get_or [] agent m.placements

  -- What the decision does to the placements stored.
  unfoldable pub apply_action :
      PlacementAction → PlacementInput → Map String Placement → Exec (Memory S) (Placement × Bool)
  apply_action PlacementAction.repeat input stored m = elim (get input.request.pod_uid stored) [
    | none ↦ (panic, m)
    | some same ↦ (ok (same, false), m)
  ]
  apply_action PlacementAction.register input stored m =
      let stored' =
        put input.request.pod_uid (placement_of input)
          (supersede (last_value is_current stored) stored) in
      (
        ok (placement_of input, true),
        record m { placements = put input.agent stored' m.placements },
      )

  unfoldable pub register_placement : PlacementInput → Exec (Memory S) (Placement × Bool)
  unfolding apply_action
  register_placement input m =
      let stored = placements_of input.agent m in
      elim (decide_placement (last_value is_current stored) (get input.request.pod_uid stored)
        input) [
          | err e ↦ (err e, m)
          | panic ↦ (panic, m)
          | ok action ↦ apply_action action input stored m
        ]

  unfoldable pub current_placement : String → Exec (Memory S) Placement
  current_placement agent m = elim (find_value is_current (placements_of agent m)) [
    | none ↦ (err Error.not_found, m)
    | some p ↦ (ok p, m)
  ]
