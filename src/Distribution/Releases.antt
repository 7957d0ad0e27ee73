-- ===== src/Distribution/Releases.antt =====
-- Which agents the feed releases to a controller, and of which store.
use garam_agent_operator.Prelude.{
  ℕ, ◌+◌, ◌≤◌, ◌≡◌, ◌⊎◌, refl, String, Bool, not, Option, none, some, Option-cases, Bool-cases, inl,
  inr, List, [], ◌∷◌, Has, ◌||◌, ltb, string_eq, arith, sym, ap, ◌∙◌, subst, if◌then◌else◌, length,
}
use garam_agent_operator.Definition.Errors.{ok}
use garam_agent_operator.Definition.Types.{DesiredRevision, DesiredPage, Assignment}
use garam_agent_operator.Repository.{Memory}
use garam_agent_operator.Repository.Revisions.{desired}
use garam_agent_operator.Handler.{Outcome, done, answer, fail, ◌>>=◌}
use garam_agent_operator.Handler.Steps.{
  Gives, bind-Gives, bind_reads-Gives, read_or-Gives, service_done, bind-state,
}
use garam_agent_operator.Distribution.{
  Failure, Request, Server, Controller, Handler, on_memory, ask,
}
use garam_agent_operator.Distribution.Session.{record_contact, authenticate, placed}
use garam_agent_operator.Distribution.Proofs.{
  IsController, IsProvedAt, authenticate-IsController, placed-state, placed-IsProvedAt,
  IsProvedAt-placed,
}
use garam_agent_operator.Distribution.Feed.{
  Wake, DesiredAgent, DesiredResponse, desired_agent_of, wait_loop, wait_past, release_next,
  release, desired_feed, parse_query,
}

module _ {S : Type 0} where
  -- What the feed answers of a page: an agent for each revision that garam proves placed, in the order
  -- of the page, and none for another.
  pub data IsReleased (r : Request) (c : Controller)
      : List (DesiredRevision S) → List (DesiredAgent S) → Type 0 where
    none_left : IsReleased r c [] []
    released :
        {d : DesiredRevision S} {rest : List (DesiredRevision S)} {out : List (DesiredAgent S)}
        (a : Assignment)
        → d.definition.assignment ≡ some a
        → IsProvedAt r c d.definition.agent a.epoch
        → IsReleased r c rest out
        → IsReleased r c (d ∷ rest) (desired_agent_of d a.epoch ∷ out)
    withheld :
        {d : DesiredRevision S} {rest : List (DesiredRevision S)} {out : List (DesiredAgent S)}
        (a : Assignment)
        → d.definition.assignment ≡ some a
        → ¬ IsProvedAt r c d.definition.agent a.epoch
        → IsReleased r c rest out
        → IsReleased r c (d ∷ rest) out

  release_next-state :
      (r : Request) (c : Controller) (d : DesiredRevision S) (epoch : String)
      (more : Handler S (List (DesiredAgent S))) (s : Server S)
      → (more s).1 ≡ s
      → (release_next r c d epoch more s).1 ≡ s
  unfolding release_next
  release_next-state r c d epoch more s h =
      bind-state (placed r c d.definition.agent epoch) _ s
        (placed-state r c d.definition.agent epoch s) (λ b e. bind-state more _ s h (λ out f. refl))

  release-state :
      (r : Request) (c : Controller) (ds : List (DesiredRevision S)) (s : Server S)
      → (release r c ds s).1 ≡ s
  unfolding release
  release-state r c [] s = refl
  release-state r c (d ∷ rest) s = elim (Option-cases d.definition.assignment) [
    | inl e ↦ ground arith
    | inr (a, e) ↦
        let same : release r c (d ∷ rest) s ≡ release_next r c d a.epoch (release r c rest) s =
          rw (e, release) refl in
        ap (λ (o : Outcome Failure (List (DesiredAgent S)) × Server S). o.1) same
        ∙ release_next-state r c d a.epoch (release r c rest) s (release-state r c rest s)
  ]

  release_next-IsReleased :
      (r : Request) (c : Controller) (d : DesiredRevision S) (rest : List (DesiredRevision S))
      (a : Assignment) (more : Handler S (List (DesiredAgent S))) (s : Server S)
      → d.definition.assignment ≡ some a
      → Gives (λ out _. IsReleased r c rest out) (more s)
      → Gives (λ out _. IsReleased r c (d ∷ rest) out) (release_next r c d a.epoch more s)
  unfolding release_next
  release_next-IsReleased r c d rest a more s e h =
      let R : List (DesiredAgent S) → Server S → Type 0 = λ out _. IsReleased r c (d ∷ rest) out in
      let continue : Bool → Handler S (List (DesiredAgent S)) =
        λ b. more >>= (λ out. answer (if b then desired_agent_of d a.epoch ∷ out else out)) in
      bind_reads-Gives R (placed r c d.definition.agent a.epoch) continue s
        (placed-state r c d.definition.agent a.epoch s)
        (λ b f.
          bind-Gives R more (λ out. answer (if b then desired_agent_of d a.epoch ∷ out else out)) s
            (λ out g y k. elim (Bool-cases b) [
              | inl is ↦
                  let same : desired_agent_of d a.epoch ∷ out ≡ y = ground arith in
                  subst (IsReleased r c (d ∷ rest)) same (
                    released a e
                      (placed-IsProvedAt r c d.definition.agent a.epoch s (f ∙ ap done is))
                      (h out g))
              | inr not_placed ↦
                  let same : out ≡ y = ground arith in
                  subst (IsReleased r c (d ∷ rest)) same (
                    withheld a e
                      (λ proved. absurd (
                        ground
                          (arith, f, IsProvedAt-placed r c d.definition.agent a.epoch s proved)))
                      (h out g))
            ]))

  release-IsReleased :
      (r : Request) (c : Controller) (ds : List (DesiredRevision S)) (s : Server S)
      → Gives (λ out _. IsReleased r c ds out) (release r c ds s)
  unfolding release
  release-IsReleased r c [] s =
      λ out h. let same : [] ≡ out = ground arith in subst (IsReleased r c []) same none_left
  release-IsReleased r c (d ∷ rest) s = elim (Option-cases d.definition.assignment) [
    | inl e ↦ λ out h. absurd (ground arith)
    | inr (a, e) ↦
        let same : release r c (d ∷ rest) s ≡ release_next r c d a.epoch (release r c rest) s =
          rw (e, release) refl in
        subst (Gives (λ out _. IsReleased r c (d ∷ rest) out)) (sym same) (
          release_next-IsReleased r c d rest a (release r c rest) s e
            (release-IsReleased r c rest s))
  ]

  -- The store that the loop ends with is the one it began with or one that a wake found.
  wait_loop-state :
      (after deadline now : ℕ) (wakes : List (Wake S)) (s : Server S)
      → ((wait_loop after deadline now wakes s).1.memory ≡ s.memory)
        ⊎ Has (λ (w : Wake S). (wait_loop after deadline now wakes s).1.memory ≡ w.memory) wakes
  unfolding wait_loop
  wait_loop-state after deadline now [] s = elim (Bool-cases (ltb s.memory.position after)) [
    | inl e ↦ inl (ground arith)
    | inr e ↦ inl (ground arith)
  ]
  wait_loop-state after deadline now (wake ∷ rest) s =
      let woken : Server S = record s { memory = wake.memory } in
      let here : (t : Memory S)
          → t ≡ s.memory
          → (t ≡ s.memory) ⊎ Has (λ (w : Wake S). t ≡ w.memory) (wake ∷ rest) =
        λ t e. inl e in
      elim (Bool-cases (ltb s.memory.position after)) [
        | inl e ↦ inl (ground arith)
        | inr e ↦ elim (Bool-cases (ltb after s.memory.position || not (ltb now deadline))) [
          | inl f ↦ inl (ground arith)
          | inr f ↦ elim (Bool-cases wake.is_done) [
            | inl g ↦ inr (inl (ground arith))
            | inr g ↦
                let same : wait_loop after deadline now (wake ∷ rest) s
                    ≡ wait_loop after deadline wake.now rest woken =
                  rw (wait_loop, e, f, g) refl in
                subst
                  (λ (p : Outcome Failure (Unit {0}) × Server S).
                    (p.1.memory ≡ s.memory)
                    ⊎ Has (λ (w : Wake S). p.1.memory ≡ w.memory) (wake ∷ rest))
                  (sym same) (inr (wait_loop-state after deadline wake.now rest woken))
          ]
        ]
      ]

  wait_past-state :
      (after : Option ℕ) (wait now : ℕ) (wakes : List (Wake S)) (s : Server S)
      → ((wait_past after wait now wakes s).1.memory ≡ s.memory)
        ⊎ Has (λ (w : Wake S). (wait_past after wait now wakes s).1.memory ≡ w.memory) wakes
  unfolding wait_past
  wait_past-state none wait now wakes s = inl refl
  wait_past-state (some after) wait now wakes s = wait_loop-state after (now + wait) now wakes s

  -- What the feed answers: the page of a proven controller, of the store as it was when the controller's
  -- contact was recorded or as a wake found it, within the limit, and of it the agents that are released.
  pub record IsFed (max_agents : ℕ) (r : Request) (wakes : List (Wake S)) (s : Server S)
      (answered : DesiredResponse S) : Type 0 where
    pub controller : Controller
    pub page : DesiredPage S
    pub memory : Memory S
    pub is_controller : IsController r controller
    pub from :
        (memory ≡ (record_contact controller r.now s).memory)
        ⊎ Has (λ (w : Wake S). memory ≡ w.memory) wakes
    pub paged : (desired controller.grn (max_agents + 1) memory).0 ≡ ok page
    pub within : length page.revisions ≤ max_agents
    pub at : answered.cursor ≡ page.position
    pub is_released : IsReleased r controller page.revisions answered.agents

  -- Where the feed is answered, garam proved the controller by the token that it presents; the answer is
  -- of the controller's page of one store, the one that authentication left or one that a wake found,
  -- with the page's position as its cursor; the page is within the limit; and the answer has, in order,
  -- the revisions of the page whose agent garam proves assigned to the controller under the epoch that
  -- they are recorded under, and no other.
  pub desired_feed-IsFed :
      (max_agents : ℕ) (r : Request) (wakes : List (Wake S)) (s : Server S)
      (answered : DesiredResponse S)
      → (desired_feed max_agents r wakes s).0 ≡ done answered
      → IsFed max_agents r wakes s answered
  unfolding desired_feed
  desired_feed-IsFed max_agents r wakes s =
      let R : DesiredResponse S → Server S → Type 0 =
        λ answered _. IsFed max_agents r wakes s answered in
      read_or-Gives R Failure.invalid_query (parse_query r.after r.wait_seconds) _ s (λ q asked.
        bind-Gives R (authenticate r) _ s (λ c e.
          let (is_it, same) = authenticate-IsController r s c e in
          let s1 = (authenticate r s).1 in
          let s2 = (wait_past q.0 q.1 r.now wakes s1).1 in
          let P : Memory S → Type 0 =
            λ t. (s2.memory ≡ t) ⊎ Has (λ (w : Wake S). s2.memory ≡ w.memory) wakes in
          let from : P (record_contact c r.now s).memory =
            subst P (ap (λ (t : Server S). t.memory) same)
              (wait_past-state q.0 q.1 r.now wakes s1) in
          bind-Gives R (wait_past q.0 q.1 r.now wakes) _ s1 (λ _ waited.
            bind-Gives R (ask (desired c.grn (max_agents + 1))) _ s2 (λ page f.
              let s3 = (ask (desired c.grn (max_agents + 1)) s2).1 in
              elim (Bool-cases (ltb max_agents (length page.revisions))) [
                | inl g ↦ λ x h. absurd (ground arith)
                | inr g ↦
                    let few : length page.revisions ≤ max_agents = ground arith in
                    let answer_of : List (DesiredAgent S) → DesiredResponse S =
                      λ agents. record { cursor = page.position; agents = agents } in
                    let finish : Handler S (DesiredResponse S) =
                      release r c page.revisions >>= (λ agents. answer (answer_of agents)) in
                    subst
                      (λ (b : Bool).
                        Gives R ((if b then fail Failure.too_many_agents else finish) s3))
                      (sym g)
                      (bind-Gives R (release r c page.revisions)
                        (λ agents. answer (answer_of agents)) s3
                        (λ agents k y is.
                          let full : answer_of agents ≡ y = ground arith in
                          subst (λ (z : DesiredResponse S). IsFed max_agents r wakes s z) full
                            (record {
                              controller = c;
                              page = page;
                              memory = s2.memory;
                              is_controller = is_it;
                              from = from;
                              paged =
                                  service_done Failure.service
                                    (on_memory (desired c.grn (max_agents + 1))) s2 page f;
                              within = few;
                              at = refl;
                              is_released = release-IsReleased r c page.revisions s3 agents k;
                            })))
              ]))))
