-- ===== src/History/Revisions/Desired.antt =====
-- The desired feed: which revisions a controller is answered.
use garam_agent_operator.Prelude.{
  ℕ, suc, ◌≤◌, ◌<◌, ◌≡◌, ◌⊎◌, refl, ap, ◌∙◌, String, Bool, true, false, Bool-cases, Option, none,
  some, List, [], ◌∷◌, Option-cases, inl, inr, string_eq, ◌==◌, arith, subst, sym, length, last?,
  last?_total, All, All-last, Has, Has-sort_by, All-sort_by, All-take, take, take_of_length-lt,
  length-take-le, sort_by,
}
use text.Mathlib.TextEquality.{eq_iff}
use garam_agent_operator.Map.{Map, get}
use garam_agent_operator.Map.Entries.{Entries, Entries-get}
use garam_agent_operator.Map.Distinct.{Entries-and, Entries-map, Entries-get_self}
use garam_agent_operator.Definition.Errors.{ok}
use garam_agent_operator.Definition.Types.{
  Definition, DesiredRevision, DesiredPage, Assignment, Profile,
}
use garam_agent_operator.Repository.{Memory}
use garam_agent_operator.Repository.Publishing.{profile_versions, get_profile}
use garam_agent_operator.Repository.Revisions.{
  Owed, revisions_of, positions_of, owed_of, owed_to, earlier, revisions_in, desired,
}
use garam_agent_operator.Repository.Stops.{current_stop_locked}
use garam_agent_operator.Repository.Recoveries.{open_recovery_locked}
use garam_agent_operator.History.Publishing.Versions.{version_at_total}
use garam_agent_operator.History.Publishing.{get_profile-eq-ok_iff}
use garam_agent_operator.History.Reach.{Reachable}
use garam_agent_operator.History.Revisions.Invariant.{IsHistory, Inv, NamesPublished, Reachable-Inv}

abbrev is_some : {A : Type 0} → Option A → Bool
is_some none = false
is_some (some a) = true

-- The revision was recorded for the controller.
abbrev pub AssignedTo : String → Definition → Type 0
AssignedTo operator d = (a : Assignment) × (d.assignment ≡ some a) × (a.operator ≡ operator)

module _ {S : Type 0} where
  -- An entry of the feed: its agent's latest revision, recorded for the controller, with the settings
  -- of the profile version that it names and the agent's stop and open recovery.
  pub record IsOwed (m : Memory S) (operator : String) (r : DesiredRevision S) : Type 0 where
    pub latest : last? (revisions_of r.definition.agent m) ≡ some r.definition
    pub assigned : AssignedTo operator r.definition
    pub profile : Profile S
    pub published : (get_profile r.definition.organization r.definition.profile m).0 ≡ ok profile
    pub settings : r.settings ≡ profile.settings
    pub stopped : r.stopped ≡ is_some (current_stop_locked r.definition.agent m)
    pub recovery : r.recovery ≡ open_recovery_locked r.definition.agent m

  -- What the loop relies on of the agent that it visits.
  abbrev Visit : Memory S → String → List Definition → Type 0
  Visit m agent ds =
      (get agent m.definitions ≡ some ds) × IsHistory agent ds × All (NamesPublished m) ds

  -- One round: nothing for an agent that is not the controller's, and its entry otherwise.
  owed_of-cases :
      (m : Memory S) (operator agent : String) (ds : List Definition) (latest : Definition)
      → Inv m
      → Visit m agent ds
      → last? ds ≡ some latest
      → ((owed_of m operator agent ds ≡ ok none) × ¬ AssignedTo operator latest)
        ⊎ ((o : Owed S) × (owed_of m operator agent ds ≡ ok (some o))
            × (o.revision.definition ≡ latest)
            × IsOwed m operator o.revision)
  unfolding owed_of
  owed_of-cases m operator agent ds latest v (stored, past, names) h =
      elim (Option-cases latest.assignment) [
        | inl e ↦ inl (rw (h, e, owed_of), λ (a, has, is). ground arith)
        | inr (a, e) ↦ elim (Bool-cases (a.operator == operator)) [
          | inr miss ↦
              inl (ground arith, λ (b, has, is). ground (arith, eq_iff a.operator operator))
          | inl hit ↦
              let own = All-last (λ d. d.agent ≡ agent) ds latest past.own h in
              let named = All-last (NamesPublished m) ds latest names h in
              let same : revisions_of agent m ≡ ds = ground arith in
              let (p, at_version) =
                version_at_total (profile_versions latest.organization latest.profile.name m)
                  latest.profile.version named.0 named.1 in
              let (place, at_place) =
                version_at_total (positions_of agent m) (length ds) past.started
                  (omega (arith, v.paired agent, ap length same)) in
              let o : Owed S = record {
                revision = record {
                  definition = latest;
                  settings = p.settings;
                  stopped = is_some (current_stop_locked agent m);
                  recovery = open_recovery_locked agent m;
                };
                position = place;
              } in
              inr (
                o,
                ground arith,
                refl,
                record {
                  latest =
                      subst (λ (x : String). last? (revisions_of x m) ≡ some latest) (sym own)
                        (ap last? same ∙ h);
                  assigned = (a, e, (eq_iff a.operator operator).0 hit);
                  profile = p;
                  published =
                      (get_profile-eq-ok_iff latest.organization latest.profile p m).1 at_version;
                  settings = refl;
                  stopped = ap (λ (x : String). is_some (current_stop_locked x m)) (sym own);
                  recovery = ap (λ (x : String). open_recovery_locked x m) (sym own);
                },
              )
        ]
      ]

  abbrev IsFound : List (Owed S) → Definition → Type 0
  IsFound found d = Has (λ o. o.revision.definition ≡ d) found

  -- The latest of the revisions is found, if it was recorded for the controller.
  abbrev Finds : String → List (Owed S) → String → List Definition → Type 0
  Finds operator found agent ds =
      (latest : Definition)
      → last? ds ≡ some latest
      → AssignedTo operator latest
      → IsFound found latest

  owed_to-found :
      (m : Memory S) (operator : String) (rest : Map String (List Definition))
      → Inv m
      → Entries (Visit m) rest
      → (found : List (Owed S)) × (owed_to m operator rest ≡ ok found)
        × All (λ o. IsOwed m operator o.revision) found
        × Entries (Finds operator found) rest
  unfolding owed_to
  owed_to-found m operator [] v h = ([], refl, tt, tt)
  owed_to-found m operator ((agent, ds) ∷ rest) v (visit, more) =
      let (found, total, sound, complete) = owed_to-found m operator rest v more in
      let (latest, is_last) = last?_total ds visit.1.started in
      elim (owed_of-cases m operator agent ds latest v visit is_last) [
        | inl (e, not_assigned) ↦ (
          found,
          rw (owed_to, e, total),
          sound,
          (
            λ d last assigned.
                let is_same : d ≡ latest = ground arith in
                absurd (not_assigned (subst (AssignedTo operator) is_same assigned)),
            complete,
          ),
        )
        | inr (o, e, is_latest, owes) ↦ (
          o ∷ found,
          rw (owed_to, e, total),
          (owes, sound),
          (
            λ d last assigned. inl (is_latest ∙ ground arith),
            Entries-map (Finds operator found) (Finds operator (o ∷ found)) rest
                (λ a es f d last assigned. inr (f d last assigned)) complete,
          ),
        )
      ]

  visits : (m : Memory S) → Inv m → Entries (Visit m) m.definitions
  visits m v =
      Entries-map
        (λ agent ds.
          ((get agent m.definitions ≡ some ds) × IsHistory agent ds) × All (NamesPublished m) ds)
        (Visit m) m.definitions (λ agent ds h. (h.0.0, h.0.1, h.1))
        (Entries-and (λ agent ds. (get agent m.definitions ≡ some ds) × IsHistory agent ds)
          (λ agent ds. All (NamesPublished m) ds) m.definitions
          (Entries-and (λ agent ds. get agent m.definitions ≡ some ds) IsHistory m.definitions
            (Entries-get_self m.definitions v.distinct) v.histories)
          v.published)

  All-revisions_in :
      (P : DesiredRevision S → Type 0) (found : List (Owed S))
      → All (λ o. P o.revision) found
      → All P (revisions_in found)
  All-revisions_in P [] h = tt
  All-revisions_in P (o ∷ found) h = (h.0, All-revisions_in P found h.1)

  Has-revisions_in :
      (P : DesiredRevision S → Type 0) (found : List (Owed S))
      → Has (λ o. P o.revision) found
      → Has P (revisions_in found)
  Has-revisions_in P [] h = absurd h
  Has-revisions_in P (o ∷ found) (inl p) = inl p
  Has-revisions_in P (o ∷ found) (inr h) = inr (Has-revisions_in P found h)

  length-revisions_in : (found : List (Owed S)) → length (revisions_in found) ≡ length found
  length-revisions_in [] = refl
  length-revisions_in (o ∷ found) = ap suc (length-revisions_in found)

  -- In every store that the service reaches, the feed is answered: no profile is missing and no index
  -- is out of range. The page is at the store's position, has at most `limit` entries, and every
  -- entry is the latest revision of its agent, recorded for the controller, with the settings of the
  -- published profile that it names and the agent's stop and open recovery.
  pub desired_sound :
      (same : S → S → Bool) (m : Memory S) (operator : String) (limit : ℕ)
      → Reachable same m
      → (page : DesiredPage S) × ((desired operator limit m).0 ≡ ok page)
        × (page.position ≡ m.position)
        × (length page.revisions ≤ limit)
        × All (IsOwed m operator) page.revisions
  unfolding desired
  desired_sound same m operator limit r =
      let v = Reachable-Inv same r in
      let (found, total, sound, complete) = owed_to-found m operator m.definitions v (visits m v) in
      let kept = take limit (sort_by earlier found) in
      (
        record { position = m.position; revisions = revisions_in kept },
        rw (desired, total),
        refl,
        omega (arith, length-revisions_in kept, length-take-le limit (sort_by earlier found)),
        All-revisions_in (IsOwed m operator) kept (
            All-take (λ o. IsOwed m operator o.revision) limit (sort_by earlier found)
              (All-sort_by (λ o. IsOwed m operator o.revision) earlier found sound)),
      )

  -- In every store that the service reaches, a page with fewer entries than `limit` has the latest
  -- revision of every agent whose latest revision was recorded for the controller.
  pub desired_complete :
      (same : S → S → Bool) (m : Memory S) (operator : String) (limit : ℕ) (page : DesiredPage S)
      (agent : String) (latest : Definition)
      → Reachable same m
      → (desired operator limit m).0 ≡ ok page
      → length page.revisions < limit
      → last? (revisions_of agent m) ≡ some latest
      → AssignedTo operator latest
      → Has (λ r. r.definition ≡ latest) page.revisions
  unfolding desired
  desired_complete same m operator limit page agent latest r answered short is_last assigned =
      let v = Reachable-Inv same r in
      let (found, total, sound, complete) = owed_to-found m operator m.definitions v (visits m v) in
      let kept = take limit (sort_by earlier found) in
      let is_page : page.revisions ≡ revisions_in kept = ground arith in
      elim (Option-cases (get agent m.definitions)) [
        | inl e ↦ absurd (ground arith)
        | inr (ds, e) ↦
            let last : last? ds ≡ some latest = ground arith in
            let whole =
              take_of_length-lt limit (sort_by earlier found)
                (omega (arith, ap length is_page, length-revisions_in kept)) in
            rw (is_page, whole)
              (Has-revisions_in (λ x. x.definition ≡ latest) (sort_by earlier found)
                (Has-sort_by (λ o. o.revision.definition ≡ latest) earlier found
                  (Entries-get (Finds operator found) agent ds m.definitions complete e latest last
                    assigned)))
      ]
