-- ===== src/History/Publishing.antt =====
-- Published versions are numbered from 1 without a gap, and never change.
pub mod Versions
pub mod Repeats
use garam_agent_operator.Prelude.{
  ℕ, zero, suc, ◌+◌, ◌≤◌, ◌≡◌, ◌↔◌, ◌⊎◌, refl, String, Bool, true, false, Option, none, some, List,
  [], ◌∷◌, ◌++◌, Option-cases, Bool-cases, inl, inr, string_eq, ℕ_eq, ◌==◌, arith, subst, sym,
  get_elem?, length, Extends, Extends-append, Numbered, Numbered-append, Numbered-get, All,
  All-append, All-get, get_elem?_total, length-get,
}
use garam_agent_operator.Repository.Calls.Frames.{profiles-step, templates-step}
use garam_agent_operator.Definition.Equalities.{request_key_eq}
use garam_agent_operator.Definition.Errors.{ok, err, Error}
use garam_agent_operator.Map.{Map, get, get_or, put}
use garam_agent_operator.Map.Laws.{get_or-put}
use garam_agent_operator.Definition.Types.{Profile, ProfileRef, Template, TemplateRef, Publication}
use garam_agent_operator.Repository.{Memory, Named, named_eq, new_memory, version_at}
use garam_agent_operator.Repository.Publishing.{
  profile_versions, template_versions, append_profile, append_template, publish_profile,
  publish_profile_version, get_profile, publish_template, get_template, publish_once,
}
use garam_agent_operator.Repository.Calls.{Call, step, run}
use garam_agent_operator.History.Publishing.Versions.{
  Slices, at, Keeps, Keeps-refl, Keeps-append, IsNumbered, IsNumbered-append, version_at_bounds,
  version_at_total, version_at-Extends, version_at-Numbered, version_at-All,
}

module _ {S : Type 0} where
  -- A version of a profile is answered exactly when it stands at its place, from 1.
  pub get_profile-eq-ok_iff :
      (org : String) (ref : ProfileRef) (p : Profile S) (m : Memory S)
      → ((get_profile org ref m).0 ≡ ok p)
        ↔ (version_at (profile_versions org ref.name m) ref.version ≡ some p)
  unfolding get_profile
  get_profile-eq-ok_iff org ref p m = (
    λ h. ground arith,
    λ h.
        let bounds = version_at_bounds (profile_versions org ref.name m) ref.version p h in
        ground arith,
  )

  pub get_template-eq-ok_iff :
      (org : String) (ref : TemplateRef) (t : Template) (m : Memory S)
      → ((get_template org ref m).0 ≡ ok t)
        ↔ (version_at (template_versions org ref.name m) ref.version ≡ some t)
  unfolding get_template
  get_template-eq-ok_iff org ref t m = (
    λ h. ground arith,
    λ h.
        let bounds = version_at_bounds (template_versions org ref.name m) ref.version t h in
        ground arith,
  )

module _ {S : Type 0} (same : S → S → Bool) where
  -- A call leaves the profiles as they were, or appends the next version of one.
  step-profiles_cases :
      (m : Memory S) (c : Call S)
      → ((step same m c).profiles ≡ m.profiles)
        ⊎ ((org : String) × (p : Profile S) × (p.version
              ≡ length (profile_versions org p.name m) + 1)
            × ((step same m c).profiles ≡ (append_profile org p m).profiles))
  unfolding step publish_profile publish_profile_version
  step-profiles_cases m (Call.publish_profile org name settings) = inr (
    org,
    record { name = name; version = length (profile_versions org name m) + 1; settings = settings },
    refl,
    refl,
  )
  step-profiles_cases m (Call.publish_profile_version org p) =
      elim (Bool-cases (p.version == length (profile_versions org p.name m) + 1)) [
        | inl next ↦ inr (org, p, ground arith, ground arith)
        | inr other ↦ inl (ground arith)
      ]
  step-profiles_cases m c = inl (profiles-step same m c refl)

  step-templates_cases :
      (m : Memory S) (c : Call S)
      → ((step same m c).templates ≡ m.templates)
        ⊎ ((org : String) × (t : Template) × (t.version
              ≡ length (template_versions org t.name m) + 1)
            × ((step same m c).templates ≡ (append_template org t m).templates))
  unfolding step publish_template publish_once
  step-templates_cases m (Call.publish_template org t) =
      inr (org, record t { version = length (template_versions org t.name m) + 1 }, refl, refl)
  step-templates_cases m (Call.publish_once p t) = elim (Option-cases (get p.key m.publications)) [
    | inl new ↦ inr (
      p.key.organization,
      record t { version = length (template_versions p.key.organization t.name m) + 1 },
      refl,
      rw (new, step, publish_once),
    )
    | inr (stored, old) ↦ inl (rw (old, step, publish_once))
  ]
  step-templates_cases m c = inl (templates-step same m c refl)

  pub step-profiles_Keeps : (m : Memory S) (c : Call S) → Keeps m.profiles (step same m c).profiles
  step-profiles_Keeps m c = elim (step-profiles_cases m c) [
    | inl e ↦ rw e (Keeps-refl m.profiles)
    | inr (org, p, v, e) ↦ rw e (Keeps-append org p.name p m.profiles)
  ]

  pub step-templates_Keeps :
      (m : Memory S) (c : Call S) → Keeps m.templates (step same m c).templates
  step-templates_Keeps m c = elim (step-templates_cases m c) [
    | inl e ↦ rw e (Keeps-refl m.templates)
    | inr (org, t, v, e) ↦ rw e (Keeps-append org t.name t m.templates)
  ]

  pub run-profiles_Keeps :
      (m : Memory S) (cs : List (Call S)) → Keeps m.profiles (run same m cs).profiles
  unfolding run
  run-profiles_Keeps m [] org name i x h = h
  run-profiles_Keeps m (c ∷ cs) org name i x h =
      run-profiles_Keeps (step same m c) cs org name i x (step-profiles_Keeps m c org name i x h)

  run-templates_Keeps :
      (m : Memory S) (cs : List (Call S)) → Keeps m.templates (run same m cs).templates
  unfolding run
  run-templates_Keeps m [] org name i x h = h
  run-templates_Keeps m (c ∷ cs) org name i x h =
      run-templates_Keeps (step same m c) cs org name i x (step-templates_Keeps m c org name i x h)

  abbrev version_of : Profile S → ℕ
  version_of p = p.version

  abbrev profile_name : Profile S → String
  profile_name p = p.name

  run-profiles_IsNumbered :
      (m : Memory S) (cs : List (Call S))
      → IsNumbered version_of profile_name m.profiles
      → IsNumbered version_of profile_name (run same m cs).profiles
  unfolding run
  run-profiles_IsNumbered m [] v = v
  run-profiles_IsNumbered m (c ∷ cs) v =
      run-profiles_IsNumbered (step same m c) cs (elim (step-profiles_cases m c) [
        | inl e ↦ rw e v
        | inr (org, p, n, e) ↦ rw e (IsNumbered-append version_of profile_name org p m.profiles v n)
      ])

  run-templates_IsNumbered :
      (m : Memory S) (cs : List (Call S))
      → IsNumbered (λ (t : Template). t.version) (λ (t : Template). t.name) m.templates
      → IsNumbered
          (λ (t : Template). t.version)
          (λ (t : Template). t.name)
          (run same m cs).templates
  unfolding run
  run-templates_IsNumbered m [] v = v
  run-templates_IsNumbered m (c ∷ cs) v =
      run-templates_IsNumbered (step same m c) cs (elim (step-templates_cases m c) [
        | inl e ↦ rw e v
        | inr (org, t, n, e) ↦ rw e (
            IsNumbered-append (λ (t : Template). t.version) (λ (t : Template). t.name) org t
              m.templates v n)
      ])

  -- Once a version of a profile is answered, the same is answered for it after any calls.
  pub get_profile-run :
      (m : Memory S) (cs : List (Call S)) (org : String) (ref : ProfileRef) (p : Profile S)
      → (get_profile org ref m).0 ≡ ok p
      → (get_profile org ref (run same m cs)).0 ≡ ok p
  get_profile-run m cs org ref p h = (get_profile-eq-ok_iff org ref p (run same m cs)).1 (
      version_at-Extends (profile_versions org ref.name m)
        (profile_versions org ref.name (run same m cs)) ref.version p
        (run-profiles_Keeps m cs org ref.name) ((get_profile-eq-ok_iff org ref p m).0 h))

  -- Once a version of a template is answered, the same is answered for it after any calls.
  pub get_template-run :
      (m : Memory S) (cs : List (Call S)) (org : String) (ref : TemplateRef) (t : Template)
      → (get_template org ref m).0 ≡ ok t
      → (get_template org ref (run same m cs)).0 ≡ ok t
  get_template-run m cs org ref t h = (get_template-eq-ok_iff org ref t (run same m cs)).1 (
      version_at-Extends (template_versions org ref.name m)
        (template_versions org ref.name (run same m cs)) ref.version t
        (run-templates_Keeps m cs org ref.name) ((get_template-eq-ok_iff org ref t m).0 h))

  -- After any calls on a new store, a profile that is answered carries the name and the version that
  -- it was asked for by, and a template too.
  pub run-answers_as_asked :
      (cs : List (Call S)) (org : String) (ref : ProfileRef) (p : Profile S) (tref : TemplateRef)
      (t : Template)
      → (get_profile org ref (run same new_memory cs)).0 ≡ ok p
      → (get_template org tref (run same new_memory cs)).0 ≡ ok t
      → ((p.name ≡ ref.name) × (p.version ≡ ref.version))
        × ((t.name ≡ tref.name) × (t.version ≡ tref.version))
  unfolding new_memory get
  run-answers_as_asked cs org ref p tref t h k =
      let m = run same new_memory cs in
      let hp = (get_profile-eq-ok_iff org ref p m).0 h in
      let ht = (get_template-eq-ok_iff org tref t m).0 k in
      let np = run-profiles_IsNumbered new_memory cs (λ o n. (tt, tt)) org ref.name in
      let nt = run-templates_IsNumbered new_memory cs (λ o n. (tt, tt)) org tref.name in
      (
        (
          version_at-All (λ (y : Profile S). y.name ≡ ref.name) (profile_versions org ref.name m)
              ref.version p np.1 hp,
          version_at-Numbered version_of (profile_versions org ref.name m) ref.version p np.0 hp,
        ),
        (
          version_at-All (λ (y : Template). y.name ≡ tref.name) (template_versions org tref.name m)
              tref.version t nt.1 ht,
          version_at-Numbered (λ (y : Template). y.version) (template_versions org tref.name m)
              tref.version t nt.0 ht,
        ),
      )
