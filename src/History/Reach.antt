-- ===== src/History/Reach.antt =====
-- The stores that calls reach from a new store. `IsAdmissible` is what a call needs: a revision or a
-- template names a published profile of its organization, a profile version is numbered from 1, and a
-- creation registers a first revision with an assignment.
use garam_agent_operator.Prelude.{
  refl, ap, sym, ◌∙◌, ◌++◌, ◌≡◌, String, Bool, List, [], ◌∷◌, length, ◌≤◌,
}
use garam_agent_operator.Definition.Types.{Assignment, ProfileRef}
use garam_agent_operator.Prelude.{some}
use garam_agent_operator.Repository.{Memory, new_memory}
use garam_agent_operator.Repository.Publishing.{profile_versions}
use garam_agent_operator.Repository.Calls.{Call, step, run}

module _ {S : Type 0} where
  -- The organization published the version of the profile.
  abbrev pub IsPublished : String → ProfileRef → Memory S → Type 0
  IsPublished org ref m =
      (1 ≤ ref.version) × (ref.version ≤ length (profile_versions org ref.name m))

  abbrev pub IsAdmissible : Memory S → Call S → Type 0
  IsAdmissible m (Call.configure r d) = IsPublished d.organization d.profile m
  IsAdmissible m (Call.register_creation key d) =
      (d.revision ≡ 1)
      × ((a : Assignment) × (d.assignment ≡ some a))
      × IsPublished d.organization d.profile m
  IsAdmissible m (Call.publish_template org t) = IsPublished org t.profile m
  IsAdmissible m (Call.publish_once p t) = IsPublished p.key.organization t.profile m
  IsAdmissible m (Call.publish_profile_version org p) = 1 ≤ p.version
  IsAdmissible m _ = Unit

module _ {S : Type 0} (same : S → S → Bool) where
  -- The second store is reached from the first.
  pub data Reach (from : Memory S) : Memory S → Type 0 where
    here : Reach from from
    next :
        {m : Memory S} (c : Call S) → Reach from m → IsAdmissible m c → Reach from (step same m c)

  abbrev pub Reachable : Memory S → Type 0
  Reachable m = Reach new_memory m

  run-append :
      (m : Memory S) (cs : List (Call S)) (c : Call S)
      → run same m (cs ++ c ∷ []) ≡ step same (run same m cs) c
  unfolding run
  run-append m [] c = refl
  run-append m (d ∷ cs) c = run-append (step same m d) cs c

  -- A store is reached by some list of calls.
  pub Reach-run : (from m : Memory S) → Reach from m → (cs : List (Call S)) × (m ≡ run same from cs)
  unfolding run
  Reach-run from m here = ([], refl)
  Reach-run from m (next {m = before} c r a) =
      let (cs, e) = Reach-run from before r in
      (cs ++ c ∷ [], ap (λ x. step same x c) e ∙ sym (run-append from cs c))

  pub Reach-trans : (from m later : Memory S) → Reach from m → Reach m later → Reach from later
  Reach-trans from m later r here = r
  Reach-trans from m later r (next {m = before} c s a) = next c (Reach-trans from m before r s) a
