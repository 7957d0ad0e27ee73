-- ===== src/History/Requests.antt =====
-- Configure requests: one that the service answered is answered the same ever after.
pub mod Applied
pub mod Repeats
pub mod Endpoints
use garam_agent_operator.Prelude.{
  ℕ, suc, ◌+◌, ◌≤◌, ◌<◌, ◌≡◌, refl, String, Bool, true, false, not, ◌≢◌, Option, none, some, List,
  [], ◌∷◌, ◌++◌, Option-cases, inl, Bool-cases, List-cases, inr, ◌&&◌, ◌⊎◌, ◌∙◌, ap, if◌then◌else◌,
  string_eq, ℕ_eq, ◌==◌, ◌!=◌, arith, length, subst, sym, ltb, last?, length-append, int64_succ,
  beq_refl, Numbered,
}
use text.Mathlib.TextEquality.{eq_iff}
use garam_agent_operator.Exec.{Exec, pure, raise, lift, optional, ◌>>=◌, ◌>>◌, optional_result}
use garam_agent_operator.Definition.Errors.{Result, ok, err, panic, Error, Result-cases}
use garam_agent_operator.Definition.Types.{
  Definition, Request, RequestKey, RequestOutcome, ConfigureInput,
}
use garam_agent_operator.Definition.Equalities.{request_key_eq, binding_eq}
use garam_agent_operator.Map.{get, get_or, put}
use garam_agent_operator.Map.Laws.{get-put, get-put_self, get_or-put}
use garam_agent_operator.SecretRef.{Validation}
use garam_agent_operator.Repository.{Memory}
use garam_agent_operator.Repository.Publishing.{get_profile}
use garam_agent_operator.Repository.Revisions
use garam_agent_operator.Repository.Revisions.{
  revisions_of, append_locked, configure_new, get_definition,
}
use garam_agent_operator.Repository.Calls.{Call, step, run}
use garam_agent_operator.Repository.Calls.Frames.{requests-step}
use garam_agent_operator.Service.Configure
use garam_agent_operator.Service.Checks.{check_config}
use garam_agent_operator.History.Publishing.{get_profile-run}
use garam_agent_operator.History.Reach.{Reach, Reachable, here, next, Reach-run}
use garam_agent_operator.History.Revisions.{IsNext, step-cases}
use garam_agent_operator.History.Revisions.Invariant.{Reachable-Inv, Inv}

module _ {S : Type 0} (same : S → S → Bool) where
  step-request :
      (m : Memory S) (c : Call S) (key : RequestKey) (stored : Request)
      → get key m.requests ≡ some stored
      → get key (step same m c).requests ≡ some stored
  unfolding step Revisions.configure configure_new append_locked
  step-request m (Call.configure r d) key stored h = ground (
    arith,
    request_key_eq.equal_iff r.key key,
    get-put r.key key (record r { outcome = some (RequestOutcome.applied d.revision) }) m.requests,
    get-put r.key key (record r { outcome = some RequestOutcome.stale }) m.requests,
  )
  step-request m c key stored h = rw (requests-step same m c refl) h

  run-request :
      (m : Memory S) (cs : List (Call S)) (key : RequestKey) (stored : Request)
      → get key m.requests ≡ some stored
      → get key (run same m cs).requests ≡ some stored
  unfolding run
  run-request m [] key stored h = h
  run-request m (c ∷ cs) key stored h =
      run-request (step same m c) cs key stored (step-request m c key stored h)

  -- Once the store answers a configure request, then after any calls it answers every request with
  -- that key the same, and changes nothing.
  pub configure-run_repeat :
      (m : Memory S) (cs : List (Call S)) (r r' : Request) (d d' : Definition) (stored : Request)
      → (Revisions.configure r d m).0 ≡ ok stored
      → r'.key ≡ r.key
      → Revisions.configure r' d' (run same (Revisions.configure r d m).1 cs)
        ≡ (ok stored, run same (Revisions.configure r d m).1 cs)
  unfolding Revisions.configure configure_new append_locked
  configure-run_repeat m cs r r' d d' stored h k =
      let kept : get r.key (Revisions.configure r d m).1.requests ≡ some stored = ground (
        arith,
        get-put_self r.key (record r { outcome = some (RequestOutcome.applied d.revision) })
            m.requests,
        get-put_self r.key (record r { outcome = some RequestOutcome.stale }) m.requests,
      ) in
      let later = run-request (Revisions.configure r d m).1 cs r.key stored kept in ground arith
