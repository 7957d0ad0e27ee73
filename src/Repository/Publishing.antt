-- ===== src/Repository/Publishing.antt =====
-- memory.go: the published versions of profiles and templates. `same` is `ExecutionSettings.Same`,
-- which Kubernetes' semantic equality decides.
use garam_agent_operator.Prelude.{
  ◌+◌, String, Bool, true, false, not, ◌&&◌, ◌||◌, none, some, List, [], ◌∷◌, ◌++◌, ◌==◌, ◌!=◌,
  string_eq, ℕ_eq, ltb, leb, if◌then◌else◌, length, last?, sort_by,
}
use garam_agent_operator.Map.{Map, get, put, get_or}
use garam_agent_operator.Exec.{Exec}
use garam_agent_operator.Definition.Errors.{Error, ok, err, panic}
use Prim.Native.Nat.{Ordering}
use Prim.Native.String.{compare}
use garam_agent_operator.Definition.Types.{Profile, ProfileRef, Template, TemplateRef, Publication}
use garam_agent_operator.Definition.Equalities.{request_key_eq}
use garam_agent_operator.Repository.{Memory, Named, named_eq, version_at}

abbrev pub Published : Type 0 → Type 0
Published A = A × Bool

-- `cmp.Compare(a, b) < 0` on texts.
abbrev pub text_before : String → String → Bool
text_before a b = elim (compare a b) [ Ordering.lt ↦ true | _ ↦ false ]

-- The loop of `ListTemplates`.
unfoldable pub latest_templates : String → Map Named (List Template) → List Template
latest_templates org [] = []
latest_templates org ((key, versions) ∷ rest) = elim (last? versions) [
  | none ↦ latest_templates org rest
  | some t ↦ if key.org == org then t ∷ latest_templates org rest else latest_templates org rest
]

ref_before : ProfileRef → ProfileRef → Bool
ref_before a b = text_before a.name b.name || (a.name == b.name && ltb a.version b.version)

module _ {S : Type 0} where
  abbrev pub profile_versions : String → String → Memory S → List (Profile S)
  profile_versions org name m = get_or [] (record { org = org; name = name }) m.profiles

  abbrev pub template_versions : String → String → Memory S → List Template
  template_versions org name m = get_or [] (record { org = org; name = name }) m.templates

  -- `m.profiles[key] = append(versions, p)`
  abbrev pub append_profile : String → Profile S → Memory S → Memory S
  append_profile org p m = record m {
    profiles =
        put (record { org = org; name = p.name }) (profile_versions org p.name m ++ p ∷ [])
          m.profiles;
  }

  abbrev pub append_template : String → Template → Memory S → Memory S
  append_template org t m = record m {
    templates =
        put (record { org = org; name = t.name }) (template_versions org t.name m ++ t ∷ [])
          m.templates;
  }

  unfoldable pub publish_profile : String → String → S → Exec (Memory S) (Profile S)
  publish_profile org name settings m =
      let p : Profile S = record {
        name = name;
        version = length (profile_versions org name m) + 1;
        settings = settings;
      } in
      (ok p, append_profile org p m)

  unfoldable pub publish_profile_version :
      (same : S → S → Bool) → String → Profile S → Exec (Memory S) (Published (Profile S))
  publish_profile_version same org p m =
      if leb p.version (length (profile_versions org p.name m))
      then elim (version_at (profile_versions org p.name m) p.version) [
        | none ↦ (panic, m)
        | some stored ↦
            if not (same stored.settings p.settings)
            then (err Error.profile_version_conflict, m)
            else (ok (stored, false), m)
      ]
      else if p.version != length (profile_versions org p.name m) + 1
      then (err Error.profile_version_gap, m)
      else (ok (p, true), append_profile org p m)

  unfoldable pub get_profile : String → ProfileRef → Exec (Memory S) (Profile S)
  get_profile org ref m =
      if ltb ref.version 1 || ltb (length (profile_versions org ref.name m)) ref.version
      then (err Error.not_found, m)
      else elim (version_at (profile_versions org ref.name m) ref.version) [
        | none ↦ (panic, m)
        | some p ↦ (ok p, m)
      ]

  unfoldable pub publish_template : String → Template → Exec (Memory S) Template
  publish_template org t m =
      let t' : Template = record t { version = length (template_versions org t.name m) + 1 } in
      (ok t', append_template org t' m)

  unfoldable pub get_template : String → TemplateRef → Exec (Memory S) Template
  get_template org ref m =
      if ltb ref.version 1 || ltb (length (template_versions org ref.name m)) ref.version
      then (err Error.not_found, m)
      else elim (version_at (template_versions org ref.name m) ref.version) [
        | none ↦ (panic, m)
        | some t ↦ (ok t, m)
      ]

  unfoldable pub list_templates : String → Exec (Memory S) (List Template)
  unfolding latest_templates
  list_templates org m =
      (ok (sort_by (λ a b. text_before a.name b.name) (latest_templates org m.templates)), m)

  refs_of : List (Profile S) → List ProfileRef
  refs_of [] = []
  refs_of (p ∷ versions) = record { name = p.name; version = p.version } ∷ refs_of versions

  -- The loops of `ListProfiles`.
  unfoldable pub profile_refs : String → Map Named (List (Profile S)) → List ProfileRef
  unfolding refs_of
  profile_refs org [] = []
  profile_refs org ((key, versions) ∷ rest) =
      if key.org != org then profile_refs org rest else refs_of versions ++ profile_refs org rest

  unfoldable pub list_profiles : String → Exec (Memory S) (List ProfileRef)
  unfolding profile_refs ref_before
  list_profiles org m = (ok (sort_by ref_before (profile_refs org m.profiles)), m)

  unfoldable pub publish_once : Publication → Template → Exec (Memory S) (Published Publication)
  publish_once p t m = elim (get p.key m.publications) [
    | some stored ↦ (ok (stored, false), m)
    | none ↦
        let org = p.key.organization in
        let t' : Template = record t { version = length (template_versions org t.name m) + 1 } in
        let p' : Publication = record p {
          template = record { name = t.name; version = t'.version };
        } in
        (
          ok (p', true),
          record (append_template org t' m) { publications = put p.key p' m.publications },
        )
  ]
