-- ===== src/Desired/Puller/Rendered.antt =====
-- What the puller remembers as rendered, and how long it waits.
use garam_agent_operator.Prelude.{
  ℕ, ◌≤◌, ◌*◌, ltb, ◌≡◌, ◌⊎◌, refl, String, some, Bool-cases, inl, inr, List, [], ◌∷◌, ◌++◌, ◌==◌,
  string_eq, arith, sym, subst, ap, ◌∙◌, if◌then◌else◌,
}
use text.Mathlib.TextEquality.{eq_iff}
use garam_agent_operator.Map.{get, put, get_or}
use garam_agent_operator.Map.Laws.{get-put}
use garam_agent_operator.Desired.{Reply, replied, refused, silent, Reply-cases}
use garam_agent_operator.Desired.Puller.{
  Agent, Answer, RenderOutcome, done, not_control_source, malformed, fails, Round, Call, render,
  report, ask, Puller, new_puller, rendered_key, render_new, apply, apply_each, pull, run,
  long_poll,
}

module _ {D : Type 0} where
  -- The agent was rendered, and its revision was reported next, which the control service took.
  abbrev pub IsReported : List (Call D) → Agent D → Type 0
  IsReported calls a =
      (before : List (Call D)) × (after : List (Call D)) × (calls
        ≡ before ++ (report a.grn a.revision (replied tt) ∷ render a done ∷ after))

  -- What is remembered of an agent is the key of a revision that was rendered and reported.
  abbrev pub IsBacked : Puller D → Type 0
  IsBacked p =
      (grn key : String)
      → get grn p.rendered ≡ some key
      → (a : Agent D) × (a.grn ≡ grn) × (rendered_key a ≡ key) × IsReported p.calls a

  -- More calls, and the same memory.
  called-IsBacked :
      (p p' : Puller D) (c : Call D)
      → p'.rendered ≡ p.rendered
      → p'.calls ≡ c ∷ p.calls
      → IsBacked p
      → IsBacked p'
  called-IsBacked p p' c e k h grn key at =
      let (a, same, is, (before, after, q)) = h grn key (ap (get grn) (sym e) ∙ at) in
      (a, same, is, (c ∷ before, after, k ∙ ap (λ (l : List (Call D)). c ∷ l) q))

  put-IsBacked :
      (p p' : Puller D) (a : Agent D)
      → p'.rendered ≡ put a.grn (rendered_key a) p.rendered
      → p'.calls ≡ p.calls
      → IsReported p.calls a
      → IsBacked p
      → IsBacked p'
  put-IsBacked p p' a e k reported h grn key at =
      let at' : get grn (put a.grn (rendered_key a) p.rendered) ≡ some key =
        ap (get grn) (sym e) ∙ at in
      elim (Bool-cases (a.grn == grn)) [
        | inl hit ↦
            let is : rendered_key a ≡ key =
              ground (arith, get-put a.grn grn (rendered_key a) p.rendered) in
            (
              a,
              (eq_iff a.grn grn).0 hit,
              is,
              subst (λ (l : List (Call D)). IsReported l a) (sym k) reported,
            )
        | inr miss ↦
            subst
              (λ (l : List (Call D)).
                (b : Agent D) × (b.grn ≡ grn) × (rendered_key b ≡ key) × IsReported l b)
              (sym k) (h grn key (ground (arith, get-put a.grn grn (rendered_key a) p.rendered)))
      ]

  abbrev rendering : RenderOutcome → Agent D → Puller D → Puller D
  rendering o a p = record p { calls = render a o ∷ p.calls }

  abbrev reporting : Reply (Unit {0}) → Agent D → Puller D → Puller D
  reporting x a p = record p { calls = report a.grn a.revision x ∷ render a done ∷ p.calls }

  abbrev remembering : Agent D → Puller D → Puller D
  remembering a p = record (reporting (replied tt) a p) {
    rendered = put a.grn (rendered_key a) p.rendered;
  }

  -- The agent was rendered and its revision not reported, or reported and not taken, or taken.
  abbrev IsOne : Round D → Agent D → Puller D → Puller D → Type 0
  IsOne round a p p' =
      (p' ≡ rendering (round.render a) a p)
      ⊎ (p' ≡ reporting (round.report a) a p)
      ⊎ (p' ≡ remembering a p)

  render_new-cases :
      (round : Round D) (a : Agent D) (p : Puller D) (o : RenderOutcome)
      → round.render a ≡ o
      → IsOne round a p (render_new round a p)
  unfolding render_new
  render_new-cases round a p done e = elim (Reply-cases (round.report a)) [
    | inl (tt, f) ↦ inr (inr (ground arith))
    | inr (inl (status, kind, f)) ↦ inr (inl (ground arith))
    | inr (inr f) ↦ inr (inl (ground arith))
  ]
  render_new-cases round a p not_control_source e = inl (ground arith)
  render_new-cases round a p malformed e = inl (ground arith)
  render_new-cases round a p fails e = inl (ground arith)

  render_new-IsBacked :
      (round : Round D) (a : Agent D) (p : Puller D) → IsBacked p → IsBacked (render_new round a p)
  render_new-IsBacked round a p h =
      let o = round.render a in
      let x = round.report a in
      let h1 : (y : RenderOutcome) → IsBacked (rendering y a p) =
        λ y. called-IsBacked p (rendering y a p) (render a y) refl refl h in
      let h2 : (y : Reply (Unit {0})) → IsBacked (reporting y a p) = λ y.
        called-IsBacked (rendering done a p) (reporting y a p) (report a.grn a.revision y) refl refl
          (h1 done) in
      elim (render_new-cases round a p (round.render a) refl) [
        | inl e ↦ subst IsBacked (sym e) (h1 o)
        | inr (inl e) ↦ subst IsBacked (sym e) (h2 x)
        | inr (inr e) ↦ subst IsBacked (sym e) (
            put-IsBacked (reporting (replied tt) a p) (remembering a p) a refl refl
              ([], p.calls, refl) (h2 (replied tt)))
      ]

  apply-cases :
      (round : Round D) (a : Agent D) (p : Puller D)
      → (apply round a p ≡ p) ⊎ (apply round a p ≡ render_new round a p)
  unfolding apply
  apply-cases round a p = elim (Bool-cases (get_or "" a.grn p.rendered == rendered_key a)) [
    | inl known ↦ inl (ground arith)
    | inr new ↦ inr (ground arith)
  ]

  apply_each-IsBacked :
      (round : Round D) (agents : List (Agent D)) (p : Puller D)
      → IsBacked p
      → IsBacked (apply_each round agents p)
  unfolding apply_each
  apply_each-IsBacked round [] p h = h
  apply_each-IsBacked round (a ∷ rest) p h =
      apply_each-IsBacked round rest (apply round a p) (elim (apply-cases round a p) [
        | inl e ↦ subst IsBacked (sym e) h
        | inr e ↦ subst IsBacked (sym e) (render_new-IsBacked round a p h)
      ])

  pull-IsBacked : (round : Round D) (p : Puller D) → IsBacked p → IsBacked (pull round p).0
  unfolding pull
  pull-IsBacked round p h =
      let c : Call D = ask p.cursor (if p.cursor == "" then 0 else long_poll) in
      let asked : Puller D = record p { calls = c ∷ p.calls } in
      let h' : IsBacked asked = called-IsBacked p asked c refl refl h in
      elim (Reply-cases round.feed) [
        | inl (answer, e) ↦ rw (e, pull) (apply_each-IsBacked round answer.agents _ h')
        | inr (inl (status, kind, e)) ↦ rw (e, pull) h'
        | inr (inr e) ↦ rw (e, pull) h'
      ]

  run-IsBacked : (rounds : List (Round D)) (p : Puller D) → IsBacked p → IsBacked (run rounds p)
  unfolding run
  run-IsBacked [] p h = h
  run-IsBacked (round ∷ rest) p h = run-IsBacked rest (pull round p).0 (pull-IsBacked round p h)

  -- Whatever the rounds bring, the puller remembers a revision of an agent as rendered only where it
  -- rendered an agent with that revision and reported it next, and the report was taken.
  pub run-new_IsBacked : (rounds : List (Round D)) → IsBacked (run rounds new_puller)
  unfolding get
  run-new_IsBacked rounds = run-IsBacked rounds new_puller (λ grn key at. absurd (ground arith))

  -- The wait that the loop keeps is between a second and half a minute.
  abbrev pub IsPaced : Puller D → Type 0
  IsPaced p = (1000000000 ≤ p.backoff) × (p.backoff ≤ 30000000000)

  -- What a round's reply, the wait that was kept, the pause and the wait that is kept then have to do
  -- with each other, in nanoseconds.
  abbrev pub IsPause : Reply (Answer D) → ℕ → ℕ → ℕ → Type 0
  IsPause (replied answer) kept pause next = (pause ≡ 0) × (next ≡ 1000000000)
  IsPause (refused status kind) kept pause next = (pause ≡ 300000000000) × (next ≡ kept)
  IsPause silent kept pause next =
      (pause ≡ kept)
      × (((2 * kept ≤ 30000000000) × (next ≡ 2 * kept))
          ⊎ ((30000000000 ≤ 2 * kept) × (next ≡ 30000000000)))

  abbrev backoff_of : Puller D → ℕ
  backoff_of p = p.backoff

  apply-backoff :
      (round : Round D) (a : Agent D) (p : Puller D) → backoff_of (apply round a p) ≡ p.backoff
  apply-backoff round a p = elim (apply-cases round a p) [
    | inl e ↦ ap backoff_of e
    | inr e ↦ ap backoff_of e ∙ (elim (render_new-cases round a p (round.render a) refl) [
      | inl f ↦ ap backoff_of f
      | inr (inl f) ↦ ap backoff_of f
      | inr (inr f) ↦ ap backoff_of f
    ])
  ]

  apply_each-backoff :
      (round : Round D) (agents : List (Agent D)) (p : Puller D)
      → (apply_each round agents p).backoff ≡ p.backoff
  unfolding apply_each
  apply_each-backoff round [] p = refl
  apply_each-backoff round (a ∷ rest) p =
      apply_each-backoff round rest (apply round a p) ∙ apply-backoff round a p

  -- A round pauses for no time after an answer, and keeps a wait of a second then; for five minutes after
  -- a refusal; and where nothing was answered for the wait that was kept, which is doubled then up to half
  -- a minute. The wait that is kept stays between a second and half a minute.
  pub pull-IsPaced :
      (round : Round D) (p : Puller D)
      → IsPaced p
      → IsPaced (pull round p).0
        × IsPause round.feed p.backoff (pull round p).1 (pull round p).0.backoff
  unfolding pull
  pull-IsPaced round p h = elim (Reply-cases round.feed) [
    | inl (answer, e) ↦
        rw (e, pull)
          (
            rw (apply_each-backoff round answer.agents _) (omega arith, omega arith),
            (refl, apply_each-backoff round answer.agents _),
          )
    | inr (inl (status, kind, e)) ↦ rw (e, pull) (h, (refl, refl))
    | inr (inr e) ↦
        rw (e, pull)
          (elim (Bool-cases (ltb 30000000000 (2 * p.backoff))) [
            | inl over ↦ rw over ((omega arith, omega arith), (refl, inr (ground arith, refl)))
            | inr under ↦ rw under ((ground arith, ground arith), (refl, inl (ground arith, refl)))
          ])
  ]
