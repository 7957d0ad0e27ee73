-- ===== src/History/Stops/Held.antt =====
-- A stop holds its agent until a start of the agent, and no activation is prepared meanwhile.
use garam_agent_operator.Prelude.{
  ◌≤◌, ◌≡◌, refl, String, Bool, true, false, none, some, List, [], ◌∷◌, Option-cases, inl, inr,
  string_eq, ◌==◌, arith,
}
use text.Mathlib.TextEquality.{eq_iff}
use garam_agent_operator.Repository.Calls.Frames.{stops-step}
use garam_agent_operator.Map.{get, find_value, count}
use garam_agent_operator.Map.Entries.{
  find_value-some, count-put_new, count-put_old, find_value-holds, find_value-none,
}
use garam_agent_operator.Map.Keyed.{get-find_value}
use garam_agent_operator.Definition.Types.{Stop, StopEnd}
use garam_agent_operator.Definition.Equalities.{request_key_eq}
use garam_agent_operator.Repository.{Memory, new_memory}
use garam_agent_operator.Repository.Stops.{
  holds, current_stop_locked, record_stop, record_deactivation, record_start,
}
use garam_agent_operator.Repository.Calls.{Call, step, run}
use garam_agent_operator.Prelude.{All}
use garam_agent_operator.Definition.Errors.{err, Error}
use garam_agent_operator.Definition.Types.{ActivationRequest}
use garam_agent_operator.Service.Stop.{stopped}
use garam_agent_operator.Service.Activation.{prepare_activation}
use garam_agent_operator.Repository.Stops.{current_stop}
use garam_agent_operator.History.Stops.{stop_key, Inv, run-Inv, step-Inv, new-Inv}

-- A start of the agent.
abbrev pub starts : {S : Type 0} → String → Call S → Bool
starts agent (Call.record_start a _) = a == agent
starts agent _ = false

module _ {S : Type 0} where
  record_start-count :
      (agent other : String) (end : StopEnd) (m : Memory S)
      → Inv m.stops
      → other == agent ≡ false
      → count (holds agent) (record_start other end m).1.stops ≡ count (holds agent) m.stops
  unfolding record_start current_stop_locked
  record_start-count agent other end m v d = elim (Option-cases (get end.key m.stop_ends)) [
    | inr (k, e) ↦ rw (e, record_start) refl
    | inl e ↦ elim (Option-cases (find_value (holds other) m.stops)) [
      | inl f ↦ rw (e, f, record_start, current_stop_locked) refl
      | inr (current, f) ↦
          let stored : Stop = record current { start = some end } in
          let held = find_value-holds (holds other) m.stops current f in
          ground (
            arith,
            held,
            eq_iff current.agent other,
            eq_iff current.agent agent,
            eq_iff other agent,
            count-put_old (holds agent) current.key stored current m.stops
                (get-find_value stop_key (holds other) m.stops current v.keyed f),
          )
    ]
  ]

  step-held :
      (same : S → S → Bool) (m : Memory S) (c : Call S) (agent : String)
      → Inv m.stops
      → starts agent c ≡ false
      → 1 ≤ count (holds agent) m.stops
      → 1 ≤ count (holds agent) (step same m c).stops
  unfolding step record_stop record_deactivation current_stop_locked
  step-held same m (Call.record_stop s) agent v n h = ground (
    arith,
    count-put_new (holds agent) s.key (record s { deactivated = false; start = none }) m.stops,
  )
  step-held same m (Call.record_deactivation key) agent v n h =
      elim (Option-cases (get key m.stops)) [
        | inl e ↦ ground arith
        | inr (stored, e) ↦ ground (
          arith,
          count-put_old (holds agent) key (record stored { deactivated = true }) stored m.stops e,
        )
      ]
  step-held same m (Call.record_start other end) agent v n h =
      omega (arith, record_start-count agent other end m v n)
  step-held same m c agent v n h = rw (stops-step same m c refl) h

module _ {S : Type 0} (same : S → S → Bool) where
  run-held :
      (m : Memory S) (cs : List (Call S)) (agent : String)
      → Inv m.stops
      → All (λ c. starts agent c ≡ false) cs
      → 1 ≤ count (holds agent) m.stops
      → 1 ≤ count (holds agent) (run same m cs).stops
  unfolding run
  run-held m [] agent v n h = h
  run-held m (c ∷ cs) agent v n h =
      run-held (step same m c) cs agent (step-Inv same m c v) n.1 (step-held same m c agent v n.0 h)

  -- Once a stop holds an agent in a store that calls have made, then after any further calls that
  -- start no stop of that agent, preparing an activation of the agent is refused because it is
  -- stopped, and changes nothing.
  pub prepare_activation-run_stopped :
      (before after : List (Call S)) (agent : String) (s : Stop) (req : ActivationRequest)
      → current_stop_locked agent (run same new_memory before) ≡ some s
      → All (λ c. starts agent c ≡ false) after
      → prepare_activation agent req (run same (run same new_memory before) after)
        ≡ (err Error.agent_stopped, run same (run same new_memory before) after)
  unfolding current_stop_locked current_stop prepare_activation stopped
  prepare_activation-run_stopped before after agent s req h n =
      let m = run same new_memory before in
      let later = run same m after in
      let held =
        run-held m after agent (run-Inv same new_memory before (new-Inv S)) n
          (find_value-some (holds agent) m.stops s h) in
      elim (Option-cases (find_value (holds agent) later.stops)) [
        | inl e ↦ absurd (omega (arith, held, find_value-none (holds agent) later.stops e))
        | inr (t, e) ↦ ground arith
      ]
