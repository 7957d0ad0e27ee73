-- ===== src/History/Revisions.antt =====
-- The revisions of an agent: numbered from 1 without a gap, of one organization, each naming a
-- published profile.
pub mod Invariant
pub mod Desired
use garam_agent_operator.Prelude.{
  ℕ, zero, suc, ◌+◌, ◌≤◌, ◌≡◌, ◌⊎◌, refl, String, Bool, true, false, Option, none, some, List, [],
  ◌∷◌, ◌++◌, Option-cases, List-cases, Bool-cases, inl, inr, string_eq, ℕ_eq, ◌==◌, arith, subst,
  sym, length, length-append, Numbered, Numbered-append, All, All-append, Extends-length,
  int64_succ,
}
use text.Mathlib.TextEquality.{eq_iff}
use garam_agent_operator.Repository.Calls.Frames.{definitions-step, positions-step}
use garam_agent_operator.Definition.Errors.{ok, err, panic, Error}
use garam_agent_operator.Definition.Equalities.{request_key_eq}
use garam_agent_operator.Map.{Map, get, get_or, put}
use garam_agent_operator.Map.Laws.{get_or-put, get-put}
use garam_agent_operator.Map.Entries.{Entries, Entries-get, Entries-put}
use garam_agent_operator.Map.Distinct.{IsDistinct, IsDistinct-put, Entries-map}
use garam_agent_operator.Definition.Types.{Definition, Assignment, Request, ProfileRef, RequestKey}
use garam_agent_operator.Repository.{Memory, new_memory}
use garam_agent_operator.Repository.Publishing.{profile_versions}
use garam_agent_operator.Repository.Revisions.{
  revisions_of, positions_of, append_locked, configure, configure_new,
}
use garam_agent_operator.Repository.Creations.{is_pending, register_creation, register_pending}
use garam_agent_operator.Repository.Calls.{Call, step}
use garam_agent_operator.History.Publishing.{step-profiles_Keeps}
use garam_agent_operator.History.Reach.{IsPublished, IsAdmissible, Reach, Reachable, here, next}

abbrev pub revision_of : Definition → ℕ
revision_of d = d.revision

-- The definition is of the organization of the revisions before it.
abbrev pub Fits : Definition → List Definition → Type 0
Fits d [] = Unit {0}
Fits d (first ∷ _) = first.organization ≡ d.organization

module _ {S : Type 0} where
  -- The next revision of an agent, and the store with it.
  pub record IsNext (d : Definition) (m m' : Memory S) : Type 0 where
    pub numbered : d.revision ≡ length (revisions_of d.agent m) + 1
    pub fits : Fits d (revisions_of d.agent m)
    pub published : IsPublished d.organization d.profile m
    pub definitions : m'.definitions ≡ put d.agent (revisions_of d.agent m ++ d ∷ []) m.definitions
    pub positions :
        m'.positions
        ≡ put d.agent (positions_of d.agent m ++ int64_succ m.position ∷ []) m.positions

  abbrev pub IsSame : Memory S → Memory S → Type 0
  IsSame m m' = (m'.definitions ≡ m.definitions) × (m'.positions ≡ m.positions)

  configure-cases :
      (m : Memory S) (r : Request) (d : Definition)
      → IsPublished d.organization d.profile m
      → IsSame m (configure r d m).1 ⊎ IsNext d m (configure r d m).1
  unfolding configure
  configure-cases m r d p = elim (Option-cases (get r.key m.requests)) [
    | inr (stored, e) ↦ inl (ground arith, ground arith)
    | inl e ↦ elim (List-cases (revisions_of d.agent m)) [
      | inl q ↦ inl (ground arith, ground arith)
      | inr (first, rest, q) ↦ elim (Bool-cases (first.organization == d.organization)) [
        | inr miss ↦ inl (ground arith, ground arith)
        | inl hit ↦ elim (Bool-cases (d.revision == length (revisions_of d.agent m) + 1)) [
          | inr stale ↦ inl (ground arith, ground arith)
          | inl one_past ↦ inr (record {
            numbered = ground arith;
            fits = subst (Fits d) (sym q) ((eq_iff first.organization d.organization).0 hit);
            published = p;
            definitions = ground arith;
            positions = ground arith;
          })
        ]
      ]
    ]
  ]

  register_creation-cases :
      (m : Memory S) (key : RequestKey) (d : Definition)
      → IsAdmissible m (Call.register_creation key d)
      → IsSame m (register_creation key d m).1 ⊎ IsNext d m (register_creation key d m).1
  unfolding register_creation
  register_creation-cases m key d (one, (a, has), p) = elim (Option-cases (get key m.creations)) [
    | inl e ↦ inl (ground arith, ground arith)
    | inr (c, e) ↦ elim (Bool-cases (is_pending c.outcome)) [
      | inr settled ↦ inl (ground arith, ground arith)
      | inl open_yet ↦ elim (List-cases (revisions_of d.agent m)) [
        | inr (first, rest, q) ↦ inl (ground arith, ground arith)
        | inl q ↦ inr (record {
          numbered = ground arith;
          fits = subst (Fits d) (sym q) tt;
          published = p;
          definitions = ground arith;
          positions = ground arith;
        })
      ]
    ]
  ]

  -- A call leaves the revisions as they were, or stores the next one of an agent.
  pub step-cases :
      (same : S → S → Bool) (m : Memory S) (c : Call S)
      → IsAdmissible m c
      → IsSame m (step same m c) ⊎ ((d : Definition) × IsNext d m (step same m c))
  unfolding step
  step-cases same m (Call.configure r d) p = elim (configure-cases m r d p) [
    | inl h ↦ inl h
    | inr h ↦ inr (d, h)
  ]
  step-cases same m (Call.register_creation key d) p = elim (register_creation-cases m key d p) [
    | inl h ↦ inl h
    | inr h ↦ inr (d, h)
  ]
  step-cases same m c p = inl (definitions-step same m c refl, positions-step same m c refl)
