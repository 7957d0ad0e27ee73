-- ===== src/History/Publishing/Repeats.antt =====
-- The repeats of what was published.
use garam_agent_operator.Prelude.{
  ℕ, suc, ◌+◌, ◌≡◌, refl, String, Bool, true, false, some, List, [], ◌∷◌, ◌++◌, Option-cases, inl,
  Bool-cases, inr, ◌⊎◌, ◌∙◌, ap, string_eq, ℕ_eq, arith, length, sym, leb, get_elem?-append_last,
}
use garam_agent_operator.Definition.Errors.{ok}
use garam_agent_operator.Definition.Types.{Publication, RequestKey, Template, Profile}
use garam_agent_operator.Definition.Equalities.{request_key_eq}
use garam_agent_operator.Map.{get}
use garam_agent_operator.Map.Laws.{get-put, get-put_self}
use garam_agent_operator.Repository.{Memory, Named, named_eq, version_at}
use garam_agent_operator.Repository.Publishing.{
  publish_once, publish_profile_version, profile_versions, template_versions,
}
use garam_agent_operator.Repository.Calls.{Call, step, run}
use garam_agent_operator.Repository.Calls.Frames.{publications-step}
use garam_agent_operator.History.Publishing.{run-profiles_Keeps}
use garam_agent_operator.History.Publishing.Versions.{version_at_bounds, version_at-Extends}

version_at_append_last :
    {A : Type 0} (xs : List A) (x : A) (n : ℕ)
    → n ≡ suc (length xs)
    → version_at (xs ++ x ∷ []) n ≡ some x
version_at_append_last xs x n e = rw e (get_elem?-append_last xs x)

module _ {S : Type 0} (same : S → S → Bool) where
  step-publication :
      (m : Memory S) (c : Call S) (key : RequestKey) (stored : Publication)
      → get key m.publications ≡ some stored
      → get key (step same m c).publications ≡ some stored
  unfolding step publish_once
  step-publication m (Call.publish_once p t) key stored h = ground (
    arith,
    request_key_eq.equal_iff p.key key,
    get-put p.key key
        (record p {
          template = record {
            name = t.name;
            version = length (template_versions p.key.organization t.name m) + 1;
          };
        })
        m.publications,
  )
  step-publication m c key stored h = rw (publications-step same m c refl) h

  run-publication :
      (m : Memory S) (cs : List (Call S)) (key : RequestKey) (stored : Publication)
      → get key m.publications ≡ some stored
      → get key (run same m cs).publications ≡ some stored
  unfolding run
  run-publication m [] key stored h = h
  run-publication m (c ∷ cs) key stored h =
      run-publication (step same m c) cs key stored (step-publication m c key stored h)

  -- Once the store answers a publish request, then after any calls it answers every request with that
  -- key the same, as not new, and publishes nothing.
  pub publish_once-run_repeat :
      (m : Memory S) (cs : List (Call S)) (p p' stored : Publication) (t t' : Template)
      (first : Bool)
      → (publish_once p t m).0 ≡ ok (stored, first)
      → p'.key ≡ p.key
      → publish_once p' t' (run same (publish_once p t m).1 cs)
        ≡ (ok (stored, false), run same (publish_once p t m).1 cs)
  unfolding publish_once
  publish_once-run_repeat m cs p p' stored t t' first h k =
      let kept : get p.key (publish_once p t m).1.publications ≡ some stored = ground (
        arith,
        get-put_self p.key
            (record p {
              template = record {
                name = t.name;
                version = length (template_versions p.key.organization t.name m) + 1;
              };
            })
            m.publications,
      ) in
      let later = run-publication (publish_once p t m).1 cs p.key stored kept in ground arith

  publish_profile_version-stored :
      (m : Memory S) (org : String) (p q : Profile S) (first : Bool)
      → (publish_profile_version same org p m).0 ≡ ok (q, first)
      → (version_at (profile_versions org p.name (publish_profile_version same org p m).1) p.version
          ≡ some q)
        × ((q ≡ p) ⊎ (same q.settings p.settings ≡ true))
  unfolding publish_profile_version
  publish_profile_version-stored m org p q first h =
      let versions = profile_versions org p.name m in
      elim (Bool-cases (leb p.version (length versions))) [
        | inl old ↦ elim (Option-cases (version_at versions p.version)) [
          | inl e ↦ absurd (ground arith)
          | inr (stored, e) ↦ (ground arith, inr (ground arith))
        ]
        | inr new ↦
            let k : Named = record { org = org; name = p.name } in
            let next : p.version ≡ suc (length versions) = ground arith in
            let is_new : p ≡ q = ground arith in
            let written : profile_versions org p.name (publish_profile_version same org p m).1
                ≡ versions ++ p ∷ [] =
              ground (arith, get-put_self k (versions ++ p ∷ []) m.profiles) in
            (
              ap (λ xs. version_at xs p.version) written
                  ∙ version_at_append_last versions p p.version next
                  ∙ ap some is_new,
              inl (sym is_new),
            )
      ]

  -- Where settings compare equal to themselves, once a version of a profile is published or found
  -- published, then after any calls publishing it again answers it as stored and not as new, and
  -- changes nothing.
  pub publish_profile_version-run_repeat :
      (m : Memory S) (cs : List (Call S)) (org : String) (p q : Profile S) (first : Bool)
      → ((s : S) → same s s ≡ true)
      → (publish_profile_version same org p m).0 ≡ ok (q, first)
      → publish_profile_version same org p (run same (publish_profile_version same org p m).1 cs)
        ≡ (ok (q, false), run same (publish_profile_version same org p m).1 cs)
  unfolding publish_profile_version
  publish_profile_version-run_repeat m cs org p q first reflexive h =
      let m' = (publish_profile_version same org p m).1 in
      let later = run same m' cs in
      let (stored, alike) = publish_profile_version-stored m org p q first h in
      let kept =
        version_at-Extends (profile_versions org p.name m') (profile_versions org p.name later)
          p.version q (run-profiles_Keeps same m' cs org p.name) stored in
      let bounds = version_at_bounds (profile_versions org p.name later) p.version q kept in
      let equal : same q.settings p.settings ≡ true = ground (arith, alike, reflexive p.settings) in
      ground (arith, kept, bounds, equal)
