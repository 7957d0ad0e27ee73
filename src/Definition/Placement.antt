-- ===== src/Definition/Placement.antt =====
-- `DecidePlacement` of internal/definition/definition.go.
pub mod Decisions
use garam_agent_operator.Prelude.{
  Bool, ◌||◌, String, Option, none, some, ◌!=◌, ◌==◌, string_eq, if◌then◌else◌,
}
use garam_agent_operator.Definition.Errors.{Error, Result, ok, err}
use garam_agent_operator.Definition.Types.{
  PreviousPlacement, PlacementRequest, PlacementInput, Placement,
}
use garam_agent_operator.Definition.Equalities.{placement_request_eq, previous_placement_eq}

pub data PlacementAction : Type 0 where
  -- Answers the current placement as stored.
  repeat : PlacementAction
  -- Supersedes the current placement, if any, and makes this one current.
  register : PlacementAction

-- `PreviousPlacement{}`
abbrev pub no_previous : PreviousPlacement
no_previous = record { pod_uid = ""; writer_stopped_sha256 = "" }

-- The Pod of the current placement is stored already.
unfoldable pub decide_same : Placement → PlacementInput → Result PlacementAction
decide_same same input =
    if same.superseded
    then err Error.placement_superseded
    else if same.request != input.request || same.controller != input.controller
    then err Error.placement_conflict
    else ok repeat

-- The Pod is new, and names the placement that it replaces.
unfoldable pub decide_replace : Option Placement → PreviousPlacement → Result PlacementAction
decide_replace none previous = err Error.previous_mismatch
decide_replace (some current) previous =
    if current.request.pod_uid != previous.pod_uid
    then err Error.previous_mismatch
    else if previous.writer_stopped_sha256 == ""
    then err Error.evidence_missing
    else ok register

-- The Pod is new, and names no placement before it.
unfoldable pub decide_first : Option Placement → Result PlacementAction
decide_first none = ok register
decide_first (some current) = err Error.previous_mismatch

unfoldable pub decide_placement :
    Option Placement → Option Placement → PlacementInput → Result PlacementAction
unfolding decide_same decide_replace decide_first
decide_placement current (some same) input = decide_same same input
decide_placement current none input =
    if input.request.previous == no_previous
    then decide_first current
    else decide_replace current input.request.previous
