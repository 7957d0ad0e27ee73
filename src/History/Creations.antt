-- ===== src/History/Creations.antt =====
-- The requests that create agents: one that is settled stays settled.
pub mod Created
pub mod Made
pub mod Repeats
use garam_agent_operator.Prelude.{
  ◌+◌, ◌≡◌, refl, String, Bool, true, false, ◌≢◌, some, List, [], ◌∷◌, ◌++◌, last?-append,
  Option-cases, inl, inr, string_eq, ℕ_eq, arith, length,
}
use garam_agent_operator.Repository.Calls.Frames.{creations-step}
use garam_agent_operator.Definition.Errors.{ok, err, Error}
use garam_agent_operator.Map.{get}
use garam_agent_operator.Map.Laws.{get-put, get-put_self}
use garam_agent_operator.Definition.Types.{Creation, RequestKey, Definition, Outcome, Assignment}
use garam_agent_operator.Definition.Equalities.{request_key_eq}
use garam_agent_operator.Repository.{Memory}
use garam_agent_operator.Repository.Revisions.{revisions_of, append_locked, get_definition}
use garam_agent_operator.Repository.Creations.{
  is_pending, begin_creation, register_creation, register_pending, fail_creation,
}
use garam_agent_operator.Repository.Calls.{Call, step, run}

abbrev pub registered_as : String → String → Creation → Creation
registered_as agent epoch c = record c {
  outcome = Outcome.registered (record { agent = agent; epoch = epoch });
}

module _ {S : Type 0} (same : S → S → Bool) where
  step-settled :
      (m : Memory S) (c : Call S) (key : RequestKey) (stored : Creation)
      → get key m.creations ≡ some stored
      → is_pending stored.outcome ≡ false
      → get key (step same m c).creations ≡ some stored
  unfolding step begin_creation register_creation register_pending append_locked fail_creation
  step-settled m (Call.begin_creation c) key stored h p = ground (
    arith,
    get-put c.key key (record c { outcome = Outcome.pending }) m.creations,
    request_key_eq.equal_iff c.key key,
  )
  step-settled m (Call.register_creation k d) key stored h p =
      elim (Option-cases (get k m.creations)) [
        | inl e ↦ ground arith
        | inr (c, e) ↦ elim (Option-cases d.assignment) [
          | inl f ↦ ground arith
          | inr (a, f) ↦ ground (
            arith,
            request_key_eq.equal_iff k key,
            get-put k key
                (record c {
                  outcome = Outcome.registered (record { agent = d.agent; epoch = a.epoch });
                })
                m.creations,
          )
        ]
      ]
  step-settled m (Call.fail_creation k reason conflict) key stored h p =
      elim (Option-cases (get k m.creations)) [
        | inl e ↦ ground arith
        | inr (c, e) ↦ ground (
          arith,
          request_key_eq.equal_iff k key,
          get-put k key (record c { outcome = Outcome.failed reason conflict }) m.creations,
        )
      ]
  step-settled m c key stored h p = rw (creations-step same m c refl) h

  run-settled :
      (m : Memory S) (cs : List (Call S)) (key : RequestKey) (stored : Creation)
      → get key m.creations ≡ some stored
      → is_pending stored.outcome ≡ false
      → get key (run same m cs).creations ≡ some stored
  unfolding run
  run-settled m [] key stored h p = h
  run-settled m (c ∷ cs) key stored h p =
      run-settled (step same m c) cs key stored (step-settled m c key stored h p) p

  -- Once a creation is registered or failed, then after any calls every call that would begin,
  -- register or fail it again answers it as it is and changes nothing.
  pub run-creation_settled :
      (m : Memory S) (cs : List (Call S)) (stored c : Creation) (key : RequestKey) (d : Definition)
      (reason : String) (conflict : Bool)
      → get key m.creations ≡ some stored
      → is_pending stored.outcome ≡ false
      → c.key ≡ key
      → (begin_creation c (run same m cs) ≡ (ok stored, run same m cs))
        × (register_creation key d (run same m cs) ≡ (ok (stored, false), run same m cs))
        × (fail_creation key reason conflict (run same m cs) ≡ (ok stored, run same m cs))
  unfolding begin_creation register_creation fail_creation
  run-creation_settled m cs stored c key d reason conflict h p k =
      let kept = run-settled m cs key stored h p in (ground arith, ground arith, ground arith)

module _ {S : Type 0} where
  -- A registration of a pending creation whose definition is not the agent's next revision is
  -- refused as stale and changes nothing.
  pub register_creation-stale :
      (m : Memory S) (key : RequestKey) (d : Definition) (c : Creation)
      → get key m.creations ≡ some c
      → is_pending c.outcome ≡ true
      → d.revision ≢ length (revisions_of d.agent m) + 1
      → register_creation key d m ≡ (err Error.stale_revision, m)
  unfolding register_creation register_pending append_locked
  register_creation-stale m key d c h p n = ground arith
