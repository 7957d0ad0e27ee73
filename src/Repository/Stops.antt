-- ===== src/Repository/Stops.antt =====
-- memory_lifecycle.go: the stops of agents.
use garam_agent_operator.Prelude.{
  String, Bool, true, false, ◌&&◌, Option, none, some, ◌==◌, string_eq, ℕ_eq, int64_succ,
}
use garam_agent_operator.Map.{get, put, get_or, find_value}
use garam_agent_operator.Exec.{Exec}
use garam_agent_operator.Definition.Errors.{Error, ok, err}
use garam_agent_operator.Definition.Types.{RequestKey, Stop, StopEnd}
use garam_agent_operator.Definition.Equalities.{request_key_eq}
use garam_agent_operator.Repository.{Memory}

-- The test of `currentStopLocked`.
abbrev pub holds : String → Stop → Bool
holds agent s = s.agent == agent && (elim s.start [ none ↦ true | some _ ↦ false ])

-- `m.stops[key]`, with the zero value of a stop where the key is missing.
abbrev pub zero_stop : Stop
zero_stop = record {
  agent = "";
  key = record { organization = ""; request_id = "" };
  binding = record {
    actor = "";
    operation = "";
    target = "";
    body_sha256 = "";
    operation_ref = "";
    assignment = record { operator = ""; epoch = "" };
  };
  activation_id = "";
  deactivated = false;
  start = none;
}

module _ {S : Type 0} where
  unfoldable pub current_stop_locked : String → Memory S → Option Stop
  current_stop_locked agent m = find_value (holds agent) m.stops

  unfoldable pub record_stop : Stop → Exec (Memory S) (Stop × Bool)
  record_stop s m = elim (get s.key m.stops) [
    | some stored ↦ (ok (stored, false), m)
    | none ↦ elim (current_stop_locked s.agent m) [
      | some _ ↦ (err Error.agent_stopped, m)
      | none ↦
          let s' : Stop = record s { deactivated = false; start = none } in
          (
            ok (s', true),
            record m { stops = put s.key s' m.stops; position = int64_succ m.position },
          )
    ]
  ]

  unfoldable pub record_deactivation : RequestKey → Exec (Memory S) (Unit {0})
  record_deactivation key m = elim (get key m.stops) [
    | none ↦ (err Error.not_found, m)
    | some stored ↦
        (ok tt, record m { stops = put key (record stored { deactivated = true }) m.stops })
  ]

  unfoldable pub record_start : String → StopEnd → Exec (Memory S) Stop
  record_start agent end m = elim (get end.key m.stop_ends) [
    | some stop_key ↦ (ok (get_or zero_stop stop_key m.stops), m)
    | none ↦ elim (current_stop_locked agent m) [
      | none ↦ (err Error.agent_not_stopped, m)
      | some current ↦
          let stored : Stop = record current { start = some end } in
          (
            ok stored,
            record m {
              stops = put stored.key stored m.stops;
              stop_ends = put end.key stored.key m.stop_ends;
              position = int64_succ m.position;
            },
          )
    ]
  ]

  unfoldable pub current_stop : String → Exec (Memory S) Stop
  current_stop agent m = elim (current_stop_locked agent m) [
    | none ↦ (err Error.not_found, m)
    | some current ↦ (ok current, m)
  ]
