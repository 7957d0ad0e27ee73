-- ===== src/History/Placements.antt =====
-- At most one placement of an agent is current, and a superseded one never is again.
mod Single
use garam_agent_operator.Prelude.{
  Bool-cases, ℕ, ◌+◌, ◌≤◌, ◌≡◌, ◌≢◌, refl, String, Bool, true, false, Option, none, some, List, [],
  ◌∷◌, Option-cases, inl, inr, string_eq, ◌==◌, arith, subst, sym, beq_refl,
}
use text.Mathlib.TextEquality.{eq_iff}
use garam_agent_operator.Repository.Calls.Frames.{placements-step}
use garam_agent_operator.Definition.Errors.{ok, err, Error, Result-cases}
use garam_agent_operator.Map.{Map, get, get_or, put, find_value, last_value, count}
use garam_agent_operator.Map.Laws.{get-put, get_or-put}
use garam_agent_operator.Map.Entries.{
  find_value-put_new, find_value_of_none, find_value-get, one_if, count-put_new, count-put_old,
  last_value-holds, last_value-none, last_value-find_value,
}
use garam_agent_operator.Map.Keyed.{IsKeyed, IsKeyed-put, get_key, get-last_value}
use garam_agent_operator.Definition.Types.{Placement, PlacementInput}
use garam_agent_operator.Definition.Placement.{PlacementAction, decide_placement}
use garam_agent_operator.Definition.Placement.Decisions.{
  decide_placement-eq-register_iff, decide_placement-eq-repeat_iff, IsRepeat,
}
use garam_agent_operator.Repository.{Memory, new_memory}
use garam_agent_operator.Repository.Placements.{
  is_current, placement_of, supersede, placements_of, apply_action, register_placement,
  current_placement,
}
use garam_agent_operator.Repository.Calls.{Call, step, run}
use garam_agent_operator.History.Placements.Single.{
  pod, IsSingle, Inv, supersede-IsSingle, get-supersede, registered-IsSingle, Inv-put,
  get-registered,
}

module _ {S : Type 0} where
  apply_action-Inv :
      (action : PlacementAction) (input : PlacementInput) (m : Memory S)
      → Inv m.placements
      → decide_placement
          (last_value is_current (placements_of input.agent m))
          (get input.request.pod_uid (placements_of input.agent m))
          input
        ≡ ok action
      → Inv (apply_action action input (placements_of input.agent m) m).1.placements
  unfolding apply_action
  apply_action-Inv PlacementAction.register input m v d =
      let stored = placements_of input.agent m in
      let fresh =
        ((decide_placement-eq-register_iff (last_value is_current stored)
            (get input.request.pod_uid stored) input).0
          d).0 in
      Inv-put input.agent _ m.placements v (registered-IsSingle input stored (v input.agent) fresh)
  apply_action-Inv PlacementAction.repeat input m v d =
      elim (Option-cases (get input.request.pod_uid (placements_of input.agent m))) [
        | inl e ↦ rw (e, apply_action) v
        | inr (same, e) ↦ rw (e, apply_action) v
      ]

  register_placement-Inv :
      (input : PlacementInput) (m : Memory S)
      → Inv m.placements
      → Inv (register_placement input m).1.placements
  unfolding register_placement
  register_placement-Inv input m v =
      let stored = placements_of input.agent m in
      elim (Result-cases (
        decide_placement (last_value is_current stored) (get input.request.pod_uid stored) input)) [
          | inl (action, d) ↦ rw (d, register_placement) (apply_action-Inv action input m v d)
          | inr (inl (e, d)) ↦ rw (d, register_placement) v
          | inr (inr d) ↦ rw (d, register_placement) v
        ]

  apply_action-current :
      (action : PlacementAction) (input : PlacementInput) (p : Placement) (first : Bool)
      (m : Memory S)
      → IsSingle (placements_of input.agent m)
      → decide_placement
          (last_value is_current (placements_of input.agent m))
          (get input.request.pod_uid (placements_of input.agent m))
          input
        ≡ ok action
      → (apply_action action input (placements_of input.agent m) m).0 ≡ ok (p, first)
      → find_value is_current
          (placements_of input.agent (apply_action action input (placements_of input.agent m) m).1)
        ≡ some p
  unfolding apply_action
  apply_action-current PlacementAction.register input p first m v d h =
      let stored = placements_of input.agent m in
      let uid = input.request.pod_uid in
      let fresh =
        ((decide_placement-eq-register_iff (last_value is_current stored) (get uid stored) input).0
          d).0 in
      let ended = supersede (last_value is_current stored) stored in
      let new : placement_of input ≡ p = ground arith in
      ground (
        arith,
        new,
        get_or-put [] input.agent input.agent (put uid (placement_of input) ended) m.placements,
        beq_refl input.agent,
        find_value-put_new is_current uid (placement_of input) ended
            (get-supersede stored uid fresh v)
            (find_value_of_none is_current ended (supersede-IsSingle stored v).1) refl,
      )
  apply_action-current PlacementAction.repeat input p first m v d h =
      let stored = placements_of input.agent m in
      let uid = input.request.pod_uid in
      elim (Option-cases (get uid stored)) [
        | inl e ↦ absurd (ground arith)
        | inr (q, e) ↦
            let again =
              (decide_placement-eq-repeat_iff (last_value is_current stored) (get uid stored)
                  input).0
                d in
            let held : q.superseded ≡ false =
              (subst (λ (o : Option Placement). IsRepeat o input) e again).0 in
            let answered : q ≡ p = ground arith in
            ground (arith, answered, find_value-get is_current uid q stored e (ground arith) v.once)
      ]

  -- What is stored for a Pod whose placement is superseded.
  abbrev pub IsEnded : String → String → Memory S → Type 0
  IsEnded agent uid m =
      (p : Placement) × (get uid (placements_of agent m) ≡ some p) × (p.superseded ≡ true)

  apply_action-IsEnded :
      (action : PlacementAction) (input : PlacementInput) (m : Memory S) (agent uid : String)
      → Inv m.placements
      → decide_placement
          (last_value is_current (placements_of input.agent m))
          (get input.request.pod_uid (placements_of input.agent m))
          input
        ≡ ok action
      → IsEnded agent uid m
      → IsEnded agent uid (apply_action action input (placements_of input.agent m) m).1
  unfolding apply_action
  apply_action-IsEnded PlacementAction.register input m agent uid v d (p, g, t) =
      let stored = placements_of input.agent m in
      let fresh =
        ((decide_placement-eq-register_iff (last_value is_current stored)
            (get input.request.pod_uid stored) input).0
          d).0 in
      let stored' =
        put input.request.pod_uid (placement_of input)
          (supersede (last_value is_current stored) stored) in
      subst
        (λ (q : Map String Placement).
          (r : Placement) × (get uid q ≡ some r) × (r.superseded ≡ true))
        (sym (get_or-put [] input.agent agent stored' m.placements))
        (elim (Bool-cases (input.agent == agent)) [
          | inl hit ↦
              let same = (eq_iff input.agent agent).0 hit in
              rw hit (
                p,
                get-registered input stored uid p (v input.agent) fresh
                    (subst (λ (a : String). get uid (placements_of a m) ≡ some p) (sym same) g) t,
                t,
              )
          | inr miss ↦ rw miss (p, g, t)
        ])
  apply_action-IsEnded PlacementAction.repeat input m agent uid v d h =
      elim (Option-cases (get input.request.pod_uid (placements_of input.agent m))) [
        | inl e ↦ rw (e, apply_action) h
        | inr (same, e) ↦ rw (e, apply_action) h
      ]

  register_placement-IsEnded :
      (input : PlacementInput) (m : Memory S) (agent uid : String)
      → Inv m.placements
      → IsEnded agent uid m
      → IsEnded agent uid (register_placement input m).1
  unfolding register_placement
  register_placement-IsEnded input m agent uid v h =
      let stored = placements_of input.agent m in
      elim (Result-cases (
        decide_placement (last_value is_current stored) (get input.request.pod_uid stored) input)) [
          | inl (action, d) ↦
              rw (d, register_placement) (apply_action-IsEnded action input m agent uid v d h)
          | inr (inl (e, d)) ↦ rw (d, register_placement) h
          | inr (inr d) ↦ rw (d, register_placement) h
        ]

  -- A Pod whose placement is superseded is refused as such.
  register_placement_ended :
      (input : PlacementInput) (m : Memory S)
      → IsEnded input.agent input.request.pod_uid m
      → (register_placement input m).0 ≡ err Error.placement_superseded
  unfolding register_placement decide_placement
  register_placement_ended input m (p, g, t) = rw (g, t, register_placement)

module _ {S : Type 0} (same : S → S → Bool) where
  step-Inv : (m : Memory S) (c : Call S) → Inv m.placements → Inv (step same m c).placements
  unfolding step
  step-Inv m (Call.register_placement input) v = register_placement-Inv input m v
  step-Inv m c v = rw (placements-step same m c refl) v

  run-Inv : (m : Memory S) (cs : List (Call S)) → Inv m.placements → Inv (run same m cs).placements
  unfolding run
  run-Inv m [] v = v
  run-Inv m (c ∷ cs) v = run-Inv (step same m c) cs (step-Inv m c v)

  step-IsEnded :
      (m : Memory S) (c : Call S) (agent uid : String)
      → Inv m.placements
      → IsEnded agent uid m
      → IsEnded agent uid (step same m c)
  unfolding step
  step-IsEnded m (Call.register_placement input) agent uid v h =
      register_placement-IsEnded input m agent uid v h
  step-IsEnded m c agent uid v h = rw (placements-step same m c refl) h

  run-IsEnded :
      (m : Memory S) (cs : List (Call S)) (agent uid : String)
      → Inv m.placements
      → IsEnded agent uid m
      → IsEnded agent uid (run same m cs)
  unfolding run
  run-IsEnded m [] agent uid v h = h
  run-IsEnded m (c ∷ cs) agent uid v h =
      run-IsEnded (step same m c) cs agent uid (step-Inv m c v) (step-IsEnded m c agent uid v h)

  new-Inv : Inv (new_memory {S = S}).placements
  unfolding new_memory count get
  new-Inv agent = record { keyed = tt; once = omega arith }

  -- After any calls on a new store, at most one placement of any agent is current.
  pub run_current_once :
      (cs : List (Call S)) (agent : String)
      → count is_current (placements_of agent (run same new_memory cs)) ≤ 1
  run_current_once cs agent = (run-Inv new_memory cs new-Inv agent).once

  -- Once a placement is superseded in a store that calls have made, a registration of its Pod is
  -- refused as superseded after any further calls.
  pub register_placement-run_superseded :
      (before after : List (Call S)) (input : PlacementInput) (p : Placement)
      → get input.request.pod_uid (placements_of input.agent (run same new_memory before)) ≡ some p
      → p.superseded ≡ true
      → (register_placement input (run same (run same new_memory before) after)).0
        ≡ err Error.placement_superseded
  register_placement-run_superseded before after input p g t =
      let m = run same new_memory before in
      register_placement_ended input (run same m after) (
        run-IsEnded m after input.agent input.request.pod_uid (run-Inv new_memory before new-Inv)
          (p, g, t))

  -- After any calls on a new store, the placement that a registration answers, whether it is new or a
  -- repeat, is the agent's current one.
  pub register_placement-current :
      (cs : List (Call S)) (input : PlacementInput) (p : Placement) (first : Bool)
      → (register_placement input (run same new_memory cs)).0 ≡ ok (p, first)
      → (current_placement input.agent (register_placement input (run same new_memory cs)).1).0
        ≡ ok p
  unfolding register_placement current_placement
  register_placement-current cs input p first h =
      let m = run same new_memory cs in
      let stored = placements_of input.agent m in
      elim (Result-cases (
        decide_placement (last_value is_current stored) (get input.request.pod_uid stored) input)) [
          | inl (action, d) ↦
              let found =
                apply_action-current action input p first m
                  (run-Inv new_memory cs new-Inv input.agent) d (ground arith) in
              ground (arith, found)
          | inr (inl (e, d)) ↦ absurd (ground arith)
          | inr (inr d) ↦ absurd (ground arith)
        ]
