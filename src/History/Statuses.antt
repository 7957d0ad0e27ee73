-- ===== src/History/Statuses.antt =====
-- What was reported of an agent: what a controller observed and rendered never falls.
use garam_agent_operator.Prelude.{
  ◌≤◌, ◌≡◌, refl, String, Bool, some, List, [], ◌∷◌, inl, Bool-cases, inr, string_eq, ◌==◌, arith,
  sym, subst, ◌∙◌, beq_refl, max_nat,
}
use text.Mathlib.TextEquality.{eq_iff}
use garam_agent_operator.Repository.Calls.Frames.{statuses-step}
use garam_agent_operator.Definition.Errors.{ok}
use garam_agent_operator.Map.{get_or, put}
use garam_agent_operator.Map.Laws.{get_or-put}
use garam_agent_operator.Definition.Types.{Status}
use garam_agent_operator.Repository.{Memory}
use garam_agent_operator.Repository.Statuses.{
  zero_status, status_of, get_status, record_status, record_runtime_applied,
}
use garam_agent_operator.Repository.Calls.{Call, step, run}

abbrev pub NotBelow : Status → Status → Type 0
NotBelow s t = (s.observed ≤ t.observed) × (s.rendered ≤ t.rendered)

module _ {S : Type 0} where
  put-NotBelow :
      (agent other : String) (t : Status) (m : Memory S)
      → NotBelow (status_of agent m) t
      → NotBelow (status_of other m) (get_or zero_status other (put agent t m.statuses))
  put-NotBelow agent other t m h =
      subst (NotBelow (status_of other m)) (sym (get_or-put zero_status agent other t m.statuses))
        (elim (Bool-cases (agent == other)) [
          | inl hit ↦
              rw hit
                (subst (λ (x : String). NotBelow (status_of x m) t) ((eq_iff agent other).0 hit) h)
          | inr miss ↦ rw miss (omega arith, omega arith)
        ])

  abbrev stored_status : String → Status → Memory S → Status
  stored_status agent s m = record {
    observed = max_nat (status_of agent m).observed s.observed;
    rendered = max_nat (status_of agent m).rendered s.rendered;
    applied = (status_of agent m).applied;
  }

module _ {S : Type 0} (same : S → S → Bool) where
  step-NotBelow :
      (m : Memory S) (c : Call S) (agent : String)
      → NotBelow (status_of agent m) (status_of agent (step same m c))
  unfolding step record_status record_runtime_applied
  step-NotBelow m (Call.record_status a s) agent =
      put-NotBelow a agent (stored_status a s m) m (ground arith, ground arith)
  step-NotBelow m (Call.record_runtime_applied a s) agent =
      put-NotBelow a agent (record (status_of a m) { applied = some s.revision }) m
        (omega arith, omega arith)
  step-NotBelow m c agent = rw (statuses-step same m c refl) (omega arith, omega arith)

  run-NotBelow :
      (m : Memory S) (cs : List (Call S)) (agent : String)
      → NotBelow (status_of agent m) (status_of agent (run same m cs))
  unfolding run
  run-NotBelow m [] agent = (omega arith, omega arith)
  run-NotBelow m (c ∷ cs) agent =
      let (o, r) = step-NotBelow m c agent in
      let (o', r') = run-NotBelow (step same m c) cs agent in (omega arith, omega arith)

  -- After a report and any calls, whatever other controllers reported in them, the status answered
  -- is of revisions at least as late as the report's and as what was stored before it.
  pub get_status-run :
      (m : Memory S) (cs : List (Call S)) (agent : String) (s t : Status)
      → (get_status agent (run same (record_status agent s m).1 cs)).0 ≡ ok t
      → (s.observed ≤ t.observed)
        × (s.rendered ≤ t.rendered)
        × ((status_of agent m).observed ≤ t.observed)
        × ((status_of agent m).rendered ≤ t.rendered)
  unfolding get_status record_status
  get_status-run m cs agent s t h =
      let m' = (record_status agent s m).1 in
      let written : status_of agent m' ≡ stored_status agent s m =
        get_or-put zero_status agent agent (stored_status agent s m) m.statuses
        ∙ rw (beq_refl agent) refl in
      let answered : status_of agent (run same m' cs) ≡ t = ground arith in
      let (o, r) : NotBelow (stored_status agent s m) t =
        subst (λ (x : Status). NotBelow x t) written
          (subst (NotBelow (status_of agent m')) answered (run-NotBelow m' cs agent)) in
      (ground (arith, o), ground (arith, r), ground (arith, o), ground (arith, r))
