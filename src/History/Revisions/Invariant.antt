-- ===== src/History/Revisions/Invariant.antt =====
-- What holds of the revisions of every agent in every store that is reached.
use garam_agent_operator.Prelude.{
  ℕ, ◌+◌, ◌≤◌, ◌≡◌, refl, ap, ◌∙◌, String, Bool, Bool-cases, Option, none, some, List, [], ◌∷◌,
  ◌++◌, Option-cases, inl, inr, string_eq, ◌==◌, arith, subst, sym, length, length-append, Numbered,
  Numbered-append, All, All-append, Extends-length, int64_succ, get_elem?, Numbered-get, All-get,
  length-get,
}
use garam_agent_operator.Map.{get}
use garam_agent_operator.Map.Laws.{get_or-put}
use garam_agent_operator.Map.Entries.{Entries, Entries-get, Entries-put}
use garam_agent_operator.Map.Distinct.{IsDistinct, IsDistinct-put, Entries-map}
use garam_agent_operator.Definition.Types.{Definition, ProfileRef}
use garam_agent_operator.Repository.{Memory, new_memory}
use garam_agent_operator.Repository.Publishing.{profile_versions}
use garam_agent_operator.Repository.Revisions.{revisions_of, positions_of}
use garam_agent_operator.Repository.Calls.{Call, step}
use garam_agent_operator.History.Publishing.{step-profiles_Keeps}
use garam_agent_operator.History.Reach.{IsPublished, IsAdmissible, Reach, Reachable, here, next}
use garam_agent_operator.History.Revisions.{revision_of, Fits, IsNext, step-cases}

-- The revisions of an agent: at least one, numbered from 1, all the agent's and of one organization.
pub record IsHistory (agent : String) (revisions : List Definition) : Type 0 where
  pub started : 1 ≤ length revisions
  pub numbered : Numbered revision_of 1 revisions
  pub own : All (λ d. d.agent ≡ agent) revisions
  pub org : String
  pub in_org : All (λ d. d.organization ≡ org) revisions

IsHistory-next :
    (d : Definition) (revisions : List Definition)
    → (1 ≤ length revisions → IsHistory d.agent revisions)
    → d.revision ≡ length revisions + 1
    → Fits d revisions
    → IsHistory d.agent (revisions ++ d ∷ [])
IsHistory-next d [] h n f = record {
  started = omega arith;
  numbered = (n, tt);
  own = (refl, tt);
  org = d.organization;
  in_org = (refl, tt);
}
IsHistory-next d (first ∷ rest) h n f =
    let before = h (omega arith) in
    record {
      started = omega arith;
      numbered = Numbered-append revision_of 1 (first ∷ rest) d before.numbered (omega arith);
      own = All-append (λ e. e.agent ≡ d.agent) (first ∷ rest) d before.own refl;
      org = before.org;
      in_org =
          All-append (λ e. e.organization ≡ before.org) (first ∷ rest) d before.in_org
            (sym f ∙ before.in_org.0);
    }

All-map :
    (P Q : Definition → Type 0) (ds : List Definition)
    → ((d : Definition) → P d → Q d)
    → All P ds
    → All Q ds
All-map P Q [] f h = tt
All-map P Q (d ∷ ds) f h = (f d h.0, All-map P Q ds f h.1)

module _ {S : Type 0} where
  abbrev pub NamesPublished : Memory S → Definition → Type 0
  NamesPublished m d = IsPublished d.organization d.profile m

  pub record Inv (m : Memory S) : Type 0 where
    pub distinct : IsDistinct m.definitions
    pub histories : Entries IsHistory m.definitions
    pub published : Entries (λ agent revisions. All (NamesPublished m) revisions) m.definitions
    pub paired : (agent : String) → length (positions_of agent m) ≡ length (revisions_of agent m)

  pub IsPublished-step :
      (same : S → S → Bool) (m : Memory S) (c : Call S) (org : String) (ref : ProfileRef)
      → IsPublished org ref m
      → IsPublished org ref (step same m c)
  IsPublished-step same m c org ref (low, high) = (
    low,
    omega (
      arith,
      high,
      Extends-length (profile_versions org ref.name m)
          (profile_versions org ref.name (step same m c))
          (step-profiles_Keeps same m c org ref.name),
    ),
  )

  -- What is stored for an agent with revisions.
  pub IsHistory-before :
      (m : Memory S) (agent : String)
      → Inv m
      → 1 ≤ length (revisions_of agent m)
      → IsHistory agent (revisions_of agent m)
  IsHistory-before m agent v h = elim (Option-cases (get agent m.definitions)) [
    | inl e ↦ absurd (ground arith)
    | inr (ds, e) ↦
        subst
          (λ (o : Option (List Definition)). IsHistory agent (elim o [ none ↦ [] | some w ↦ w ]))
          (sym e) (Entries-get IsHistory agent ds m.definitions v.histories e)
  ]

  published_before :
      (m : Memory S) (agent : String) → Inv m → All (NamesPublished m) (revisions_of agent m)
  published_before m agent v = elim (Option-cases (get agent m.definitions)) [
    | inl e ↦
        subst
          (λ (o : Option (List Definition)).
            All (NamesPublished m) (elim o [ none ↦ [] | some w ↦ w ]))
          (sym e) tt
    | inr (ds, e) ↦
        subst
          (λ (o : Option (List Definition)).
            All (NamesPublished m) (elim o [ none ↦ [] | some w ↦ w ]))
          (sym e)
          (Entries-get (λ a ds. All (NamesPublished m) ds) agent ds m.definitions v.published e)
  ]

  -- The revisions are still of published profiles after a call.
  published_after :
      (same : S → S → Bool) (m : Memory S) (c : Call S)
      → Inv m
      → Entries (λ agent revisions. All (NamesPublished (step same m c)) revisions) m.definitions
  published_after same m c v =
      Entries-map (λ agent ds. All (NamesPublished m) ds)
        (λ agent ds. All (NamesPublished (step same m c)) ds) m.definitions
        (λ agent ds.
          All-map (NamesPublished m) (NamesPublished (step same m c)) ds
            (λ d. IsPublished-step same m c d.organization d.profile))
        v.published

  IsNext-paired :
      (d : Definition) (m m' : Memory S)
      → Inv m
      → IsNext d m m'
      → (agent : String) → length (positions_of agent m') ≡ length (revisions_of agent m')
  IsNext-paired d m m' v n agent =
      let new_positions = positions_of d.agent m ++ int64_succ m.position ∷ [] in
      let new_revisions = revisions_of d.agent m ++ d ∷ [] in
      rw (n.positions, n.definitions)
        (ap length (get_or-put [] d.agent agent new_positions m.positions)
          ∙ (elim (Bool-cases (d.agent == agent)) [
            | inl hit ↦ rw hit (
                omega (
                  arith,
                  v.paired d.agent,
                  length-append (positions_of d.agent m) (int64_succ m.position ∷ []),
                  length-append (revisions_of d.agent m) (d ∷ []),
                ))
            | inr miss ↦ rw miss (v.paired agent)
          ])
          ∙ ap length (sym (get_or-put [] d.agent agent new_revisions m.definitions)))

  step-Inv :
      (same : S → S → Bool) (m : Memory S) (c : Call S)
      → IsAdmissible m c
      → Inv m
      → Inv (step same m c)
  step-Inv same m c a v = elim (step-cases same m c a) [
    | inl (e, f) ↦ record {
      distinct = rw e v.distinct;
      histories = rw e v.histories;
      published = rw e (published_after same m c v);
      paired = λ agent. rw (e, f) (v.paired agent);
    }
    | inr (d, n) ↦ record {
      distinct =
          rw n.definitions
            (IsDistinct-put d.agent (revisions_of d.agent m ++ d ∷ []) m.definitions v.distinct);
      histories = rw n.definitions (
          Entries-put IsHistory d.agent (revisions_of d.agent m ++ d ∷ []) m.definitions v.histories
            (IsHistory-next d (revisions_of d.agent m) (IsHistory-before m d.agent v) n.numbered
              n.fits));
      published = rw n.definitions (
          Entries-put (λ agent ds. All (NamesPublished (step same m c)) ds) d.agent
            (revisions_of d.agent m ++ d ∷ []) m.definitions (published_after same m c v)
            (All-append (NamesPublished (step same m c)) (revisions_of d.agent m) d
              (All-map (NamesPublished m) (NamesPublished (step same m c)) (revisions_of d.agent m)
                (λ x. IsPublished-step same m c x.organization x.profile)
                (published_before m d.agent v))
              (IsPublished-step same m c d.organization d.profile n.published)));
      paired = IsNext-paired d m (step same m c) v n;
    }
  ]

  new-Inv : Inv (new_memory {S = S})
  unfolding new_memory get
  new-Inv = record { distinct = tt; histories = tt; published = tt; paired = λ agent. refl }

  -- The invariant holds in every store that is reached from one where it holds.
  pub Reach-Inv : (same : S → S → Bool) {m m' : Memory S} → Inv m → Reach same m m' → Inv m'
  Reach-Inv same v here = v
  Reach-Inv same v (next {m = m} c r a) = step-Inv same m c a (Reach-Inv same v r)

  pub Reachable-Inv : (same : S → S → Bool) {m : Memory S} → Reachable same m → Inv m
  Reachable-Inv same r = Reach-Inv same new-Inv r

  -- In every store that the service reaches, the revision at place i of an agent, from 1, is numbered i
  -- and is the agent's, every revision of an agent is of the organization of its first, and the
  -- profile version that it names is published in that organization.
  pub Reachable-revisions :
      (same : S → S → Bool) (m : Memory S) (agent : String) (i j : ℕ) (d e : Definition)
      → Reachable same m
      → get_elem? (revisions_of agent m) i ≡ some d
      → get_elem? (revisions_of agent m) j ≡ some e
      → (d.revision ≡ i + 1)
        × (d.agent ≡ agent)
        × (d.organization ≡ e.organization)
        × IsPublished d.organization d.profile m
  Reachable-revisions same m agent i j d e r h k =
      let v = Reachable-Inv same r in
      let long = length-get (revisions_of agent m) i d h in
      let past = IsHistory-before m agent v (omega arith) in
      (
        omega (arith, Numbered-get revision_of 1 (revisions_of agent m) i d past.numbered h),
        All-get (λ x. x.agent ≡ agent) (revisions_of agent m) i d past.own h,
        All-get (λ x. x.organization ≡ past.org) (revisions_of agent m) i d past.in_org h
            ∙ sym
                (All-get (λ x. x.organization ≡ past.org) (revisions_of agent m) j e past.in_org k),
        All-get (NamesPublished m) (revisions_of agent m) i d (published_before m agent v) h,
      )
