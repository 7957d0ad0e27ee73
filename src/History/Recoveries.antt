-- ===== src/History/Recoveries.antt =====
-- The recoveries of an agent: each only advances, and at most the last is open.
pub mod Stages
pub mod Order
mod Moves
use garam_agent_operator.Prelude.{
  ℕ, zero, suc, ◌+◌, ◌≤◌, ◌<◌, ◌≡◌, ◌≢◌, ◌⊎◌, refl, ap, ◌∙◌, sym, subst, String, Bool, true, false,
  Bool-cases, Option, none, some, List, [], ◌∷◌, ◌++◌, Option-cases, inl, inr, string_eq, ◌==◌,
  arith, length, last?, last?-append, get_elem?, get_elem?-append, set, find, find-holds, index_of,
  All, Extends-append,
}
use text.Mathlib.TextEquality.{eq_iff}
use garam_agent_operator.Map.{Map, get, get_or, put}
use garam_agent_operator.Map.Laws.{get_or-put}
use garam_agent_operator.Definition.Errors.{ok, err, Error}
use garam_agent_operator.Definition.Types.{
  Recovery, RecoveryStage, OpenRecovery, requested, prepared, finalized,
}
use garam_agent_operator.Repository.{Memory, new_memory}
use garam_agent_operator.Repository.Recoveries.{
  is_open, recoveries_of, open_recovery_locked, recovery_locked, recovery_under, open_recovery,
  latest_recovery, prepare_recovery, prepare_found, finalize_recovery, finalize_found, bytes_equal,
  write_recovery,
}
use garam_agent_operator.Repository.Calls.{Call, step, run}
use garam_agent_operator.Repository.Calls.Frames.{recoveries-step}
use garam_agent_operator.History.Recoveries.Stages.{
  StageAdvances, Advances, Advances-refl, Advances-trans, Advanced, Advanced-set,
}
use garam_agent_operator.History.Recoveries.Order.{
  OpenLast, OpenLast-append, OpenLast-set, find-OpenLast,
}
use garam_agent_operator.History.Recoveries.Moves.{step-Moves, Moves-Advanced, Moves-OpenLast}

module _ {S : Type 0} (same : S → S → Bool) where
  -- Whatever the calls, a recovery stays where it stands among its agent's and only advances: its
  -- request, console request, binding and epoch stay, its body stays once it is prepared, and all of
  -- it stays once it is finalized.
  pub run-recoveries_Advanced :
      (m : Memory S) (cs : List (Call S)) (agent : String) (i : ℕ) (r : Recovery)
      → get_elem? (recoveries_of agent m) i ≡ some r
      → (r' : Recovery) × (get_elem? (recoveries_of agent (run same m cs)) i ≡ some r')
        × Advances r r'
  unfolding run
  run-recoveries_Advanced m [] agent i r h = (r, h, Advances-refl r)
  run-recoveries_Advanced m (c ∷ cs) agent i r h =
      let (s, at_s, a) = Moves-Advanced m (step same m c) agent (step-Moves same m c) i r h in
      let (t, at_t, b) = run-recoveries_Advanced (step same m c) cs agent i s at_s in
      (t, at_t, Advances-trans r s t a b)

  run-OpenLast :
      (m : Memory S) (cs : List (Call S)) (agent : String)
      → OpenLast (recoveries_of agent m)
      → OpenLast (recoveries_of agent (run same m cs))
  unfolding run
  run-OpenLast m [] agent h = h
  run-OpenLast m (c ∷ cs) agent h =
      run-OpenLast (step same m c) cs agent
        (Moves-OpenLast m (step same m c) agent (step-Moves same m c) h)

  -- After any calls on a new store, an open recovery of an agent is the one that `LatestRecovery`
  -- answers, and the only one that is open: every other one is finalized.
  pub latest_recovery-open :
      (cs : List (Call S)) (agent : String) (o : OpenRecovery)
      → open_recovery_locked agent (run same new_memory cs) ≡ some o
      → (r : Recovery) × ((latest_recovery agent (run same new_memory cs)).0 ≡ ok r)
        × (r.stage ≢ finalized)
        × (r.request_id ≡ o.request_id)
        × (r.epoch ≡ o.epoch)
        × OpenLast (recoveries_of agent (run same new_memory cs))
  unfolding open_recovery_locked latest_recovery new_memory get
  latest_recovery-open cs agent o h =
      let m = run same new_memory cs in
      let ordered = run-OpenLast new_memory cs agent tt in
      elim (Option-cases (find is_open (recoveries_of agent m))) [
        | inl e ↦ absurd (ground arith)
        | inr (r, e) ↦
            let last = find-OpenLast (recoveries_of agent m) r ordered e in
            let opened = find-holds is_open (recoveries_of agent m) r e in
            (r, ground arith, ground arith, ground arith, ground arith, ordered)
      ]
