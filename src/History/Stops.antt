-- ===== src/History/Stops.antt =====
-- At most one stop holds an agent.
pub mod Held
use garam_agent_operator.Prelude.{
  ℕ, ◌+◌, ◌≤◌, ◌≡◌, refl, String, Bool, true, false, ◌≢◌, Option, none, some, List, [], ◌∷◌,
  Option-cases, inl, inr, string_eq, ◌==◌, arith,
}
use text.Mathlib.TextEquality.{eq_iff}
use garam_agent_operator.Repository.Calls.Frames.{stops-step}
use garam_agent_operator.Definition.Errors.{ok}
use garam_agent_operator.Map.{Map, get, put, find_value, count}
use garam_agent_operator.Map.Entries.{
  one_if, count-put_new, count-put_old, find_value-holds, find_value-none, find_value_of_none,
  find_value-put_new, find_value-put_skip,
}
use garam_agent_operator.Map.Keyed.{IsKeyed, IsKeyed-put, get_key, get-find_value}
use garam_agent_operator.Definition.Types.{Stop, RequestKey, StopEnd}
use garam_agent_operator.Definition.Equalities.{request_key_eq}
use garam_agent_operator.Repository.{Memory, new_memory}
use garam_agent_operator.Repository.Stops.{
  holds, current_stop_locked, record_stop, record_deactivation, record_start,
}
use garam_agent_operator.Repository.Calls.{Call, step, run}

abbrev pub stop_key : Stop → RequestKey
stop_key s = s.key

pub record Inv (stops : Map RequestKey Stop) : Type 0 where
  pub keyed : IsKeyed stop_key stops
  pub once : (agent : String) → count (holds agent) stops ≤ 1

pub new-Inv : (S : Type 0) → Inv (new_memory {S = S}).stops
unfolding new_memory count
new-Inv S = record { keyed = tt; once = λ a. omega arith }

module _ {S : Type 0} where
  record_stop-Inv : (s : Stop) (m : Memory S) → Inv m.stops → Inv (record_stop s m).1.stops
  unfolding record_stop current_stop_locked
  record_stop-Inv s m v =
      let s' : Stop = record s { deactivated = false; start = none } in
      record {
        keyed = ground (arith, v.keyed, IsKeyed-put stop_key s.key s' m.stops v.keyed refl);
        once = λ agent. ground (
          arith,
          v.once agent,
          eq_iff s.agent agent,
          count-put_new (holds agent) s.key s' m.stops,
          find_value-none (holds s.agent) m.stops,
        );
      }

  record_deactivation-Inv :
      (key : RequestKey) (m : Memory S) → Inv m.stops → Inv (record_deactivation key m).1.stops
  unfolding record_deactivation
  record_deactivation-Inv key m v = elim (Option-cases (get key m.stops)) [
    | inl e ↦ rw (e, record_deactivation) v
    | inr (stored, e) ↦
        let stored' : Stop = record stored { deactivated = true } in
        rw (e, record_deactivation)
          (record {
            keyed =
                IsKeyed-put stop_key key stored' m.stops v.keyed
                  (get_key stop_key key stored m.stops v.keyed e);
            once = λ agent.
                omega
                  (arith, v.once agent, count-put_old (holds agent) key stored' stored m.stops e);
          })
  ]

  record_start-Inv :
      (agent : String) (end : StopEnd) (m : Memory S)
      → Inv m.stops
      → Inv (record_start agent end m).1.stops
  unfolding record_start current_stop_locked
  record_start-Inv agent end m v = elim (Option-cases (get end.key m.stop_ends)) [
    | inr (k, e) ↦ rw (e, record_start) v
    | inl e ↦ elim (Option-cases (find_value (holds agent) m.stops)) [
      | inl f ↦ rw (e, f, record_start, current_stop_locked) v
      | inr (current, f) ↦
          let stored : Stop = record current { start = some end } in
          rw (e, f, record_start, current_stop_locked)
            (record {
              keyed = IsKeyed-put stop_key current.key stored m.stops v.keyed refl;
              once = λ other. ground (
                arith,
                v.once other,
                count-put_old (holds other) current.key stored current m.stops
                    (get-find_value stop_key (holds agent) m.stops current v.keyed f),
              );
            })
    ]
  ]

  -- A stop that is recorded as new is recorded where none held its agent, and it is the one that
  -- holds the agent after it. Another agent is held as before.
  pub current_stop_locked-record_stop :
      (s stored : Stop) (m : Memory S) (other : String)
      → (record_stop s m).0 ≡ ok (stored, true)
      → other ≢ s.agent
      → (current_stop_locked s.agent m ≡ none)
        × (current_stop_locked s.agent (record_stop s m).1 ≡ some stored)
        × (current_stop_locked other (record_stop s m).1 ≡ current_stop_locked other m)
  unfolding record_stop current_stop_locked
  current_stop_locked-record_stop s stored m other h d =
      let s' : Stop = record s { deactivated = false; start = none } in
      (
        ground arith,
        ground (arith, find_value-put_new (holds s.agent) s.key s' m.stops, eq_iff s.agent s.agent),
        ground (arith, eq_iff s.agent other, find_value-put_skip (holds other) s.key s' m.stops),
      )

  -- Where every stop stands under its key and at most one holds any agent, a start under a key that
  -- ended no stop yet ends the stop that holds the agent: the start answers it with the end, nothing
  -- holds the agent after it, and another agent is held as before.
  pub current_stop_locked-record_start :
      (agent : String) (end : StopEnd) (current : Stop) (m : Memory S) (other : String)
      → Inv m.stops
      → get end.key m.stop_ends ≡ none
      → current_stop_locked agent m ≡ some current
      → other ≢ agent
      → ((record_start agent end m).0 ≡ ok (record current { start = some end }))
        × (current_stop_locked agent (record_start agent end m).1 ≡ none)
        × (current_stop_locked other (record_start agent end m).1 ≡ current_stop_locked other m)
  unfolding record_start current_stop_locked
  current_stop_locked-record_start agent end current m other v e f d =
      let stored : Stop = record current { start = some end } in
      let found = get-find_value stop_key (holds agent) m.stops current v.keyed f in
      let held = find_value-holds (holds agent) m.stops current f in
      rw (e, f, record_start, current_stop_locked)
        (
          refl,
          find_value_of_none (holds agent) (put current.key stored m.stops) (
              ground (
                arith,
                v.once agent,
                count-put_old (holds agent) current.key stored current m.stops found,
              )),
          find_value-put_skip (holds other) current.key stored m.stops (ground arith)
              (λ w g. ground (arith, eq_iff current.agent agent, eq_iff current.agent other)),
        )

module _ {S : Type 0} (same : S → S → Bool) where
  pub step-Inv : (m : Memory S) (c : Call S) → Inv m.stops → Inv (step same m c).stops
  unfolding step
  step-Inv m (Call.record_stop s) v = record_stop-Inv s m v
  step-Inv m (Call.record_deactivation key) v = record_deactivation-Inv key m v
  step-Inv m (Call.record_start agent end) v = record_start-Inv agent end m v
  step-Inv m c v = rw (stops-step same m c refl) v

  pub run-Inv : (m : Memory S) (cs : List (Call S)) → Inv m.stops → Inv (run same m cs).stops
  unfolding run
  run-Inv m [] v = v
  run-Inv m (c ∷ cs) v = run-Inv (step same m c) cs (step-Inv m c v)

  -- After any calls on a new store, at most one stop holds any agent.
  pub run-holds_once :
      (cs : List (Call S)) (agent : String) → count (holds agent) (run same new_memory cs).stops ≤ 1
  run-holds_once cs = (run-Inv new_memory cs (new-Inv S)).once
