-- ===== src/Desired/Registrar/Bounds.antt =====
-- How long the registrar waits, and what it remembers.
use garam_agent_operator.Prelude.{
  ℕ, Bool, ◌⊎◌, ℕ_eq, ◌+◌, ◌≤◌, ◌≡◌, refl, String, true, false, Option, none, some, Option-cases,
  Bool-cases, inl, inr, List, [], ◌∷◌, ◌==◌, string_eq, arith, sym, subst, ap, ◌∙◌,
}
use text.Mathlib.TextEquality.{eq_iff}
use garam_agent_operator.Map.{get, put}
use garam_agent_operator.Map.Laws.{get-put, get-retain}
use garam_agent_operator.Desired.{
  Reply, replied, refused, silent, Reply-cases, IsBackoff, next_backoff-bounds,
}
use garam_agent_operator.Desired.Registrar.{
  CurrentPlacement, Registration, Registrar, Attempt, same_placement, registration_of, after_reply,
  is_due, is_for_good, register, register_each, is_listed, register_all, run,
}

-- What is remembered of each agent waits for a backoff.
abbrev pub IsPaced : Registrar → Type 0
IsPaced r =
    (grn : String) (state : Registration)
    → get grn r.registrations ≡ some state
    → IsBackoff state.backoff

registration_of-IsBackoff :
    (c : CurrentPlacement) (r : Registrar) → IsPaced r → IsBackoff (registration_of c r).backoff
unfolding registration_of
registration_of-IsBackoff c r h = elim (Option-cases (get c.grn r.registrations)) [
  | inl e ↦ rw (e, registration_of) (inl refl)
  | inr (state, e) ↦ elim (Bool-cases (same_placement state.placement c.placement)) [
    | inl same ↦ rw (e, registration_of, same) (h c.grn state e)
    | inr other ↦ rw (e, registration_of, other) (inl refl)
  ]
]

after_reply-IsBackoff :
    (a : Attempt) (state : Registration)
    → IsBackoff state.backoff
    → IsBackoff (after_reply a state).backoff
unfolding after_reply
after_reply-IsBackoff a state h = elim (Reply-cases a.reply) [
  | inl (created, e) ↦ inl (ground arith)
  | inr (inl (status, kind, e)) ↦ inl (ground arith)
  | inr (inr e) ↦ inr (
    ground (arith, next_backoff-bounds state.backoff h),
    ground (arith, next_backoff-bounds state.backoff h),
  )
]

put-IsPaced :
    (grn : String) (state : Registration) (r r' : Registrar)
    → r'.registrations ≡ put grn state r.registrations
    → IsPaced r
    → IsBackoff state.backoff
    → IsPaced r'
put-IsPaced grn state r r' e h k other found at =
    let at' : get other (put grn state r.registrations) ≡ some found =
      ap (get other) (sym e) ∙ at in
    elim (Bool-cases (grn == other)) [
      | inl hit ↦
          let is : state ≡ found = ground (arith, get-put grn other state r.registrations) in
          subst (λ (s : Registration). IsBackoff s.backoff) is k
      | inr miss ↦ h other found (ground (arith, get-put grn other state r.registrations))
    ]

register-IsPaced :
    (c : CurrentPlacement) (a : Attempt) (r : Registrar) → IsPaced r → IsPaced (register c a r)
unfolding register
register-IsPaced c a r h =
    let state = registration_of c r in
    let k = registration_of-IsBackoff c r h in
    elim (Bool-cases (is_due a.now state)) [
      | inl due ↦
          put-IsPaced c.grn (after_reply a state) r (register c a r) (ground arith) h
            (after_reply-IsBackoff a state k)
      | inr early ↦ put-IsPaced c.grn state r (register c a r) (ground arith) h k
    ]

register_each-IsPaced :
    (attempt : String → Attempt) (current : List CurrentPlacement) (r : Registrar)
    → IsPaced r
    → IsPaced (register_each attempt current r)
unfolding register_each
register_each-IsPaced attempt [] r h = h
register_each-IsPaced attempt (c ∷ rest) r h =
    register_each-IsPaced attempt rest (register c (attempt c.grn) r)
      (register-IsPaced c (attempt c.grn) r h)

register_all-IsPaced :
    (attempt : String → Attempt) (current : Option (List CurrentPlacement)) (r : Registrar)
    → IsPaced r
    → IsPaced (register_all attempt current r)
unfolding register_all
register_all-IsPaced attempt none r h = h
register_all-IsPaced attempt (some current) r h = λ grn state at.
    let r' = register_each attempt current r in
    register_each-IsPaced attempt current r h grn state
      (ground (arith, get-retain (is_listed current) grn r'.registrations))

-- What the passes leave waits for no time, or for a second to half a minute.
pub run-IsPaced :
    (passes : List ((String → Attempt) × Option (List CurrentPlacement))) (r : Registrar)
    → IsPaced r
    → IsPaced (run passes r)
unfolding run
run-IsPaced [] r h = h
run-IsPaced ((attempt, current) ∷ rest) r h =
    run-IsPaced rest (register_all attempt current r) (register_all-IsPaced attempt current r h)

-- What ends the presenting of a placement: it is taken, or refused because another one, or another
-- epoch, took its place.
pub data IsClosed : Reply Bool → Type 0 where
  accepted : (created : Bool) → IsClosed (replied created)
  placement_superseded : IsClosed (refused 409 "placement_superseded")
  epoch_superseded : IsClosed (refused 409 "epoch_superseded")

is_for_good-IsClosed :
    (status : ℕ) (kind : String) → is_for_good status kind ≡ true → IsClosed (refused status kind)
is_for_good-IsClosed status kind h = elim (Bool-cases (kind == "placement_superseded")) [
  | inl placed ↦
      let s : 409 ≡ status = ground arith in
      subst (λ (x : ℕ). IsClosed (refused x kind)) s
        (subst (λ (x : String). IsClosed (refused 409 x)) (sym ((eq_iff kind _).0 placed))
          placement_superseded)
  | inr other ↦
      let s : 409 ≡ status = ground arith in
      let k : (kind == "epoch_superseded") ≡ true = ground arith in
      subst (λ (x : ℕ). IsClosed (refused x kind)) s
        (subst (λ (x : String). IsClosed (refused 409 x)) (sym ((eq_iff kind _).0 k))
          epoch_superseded)
]

abbrev is_closing : Reply Bool → Bool
is_closing (replied created) = true
is_closing (refused status kind) = is_for_good status kind
is_closing silent = false

IsClosed-is_closing : (x : Reply Bool) → IsClosed x → is_closing x ≡ true
IsClosed-is_closing _ (accepted created) = refl
IsClosed-is_closing _ placement_superseded = refl
IsClosed-is_closing _ epoch_superseded = refl

not_IsClosed : (x : Reply Bool) → is_closing x ≡ false → ¬ IsClosed x
not_IsClosed x h k = absurd (ground (arith, IsClosed-is_closing x k))

-- A placement that was due and was presented is never due again after a reply that takes it, or that
-- refuses it because another placement or another epoch took its place; after any other refusal, and
-- where nothing was answered, it is due again from five minutes after the reply on.
pub after_reply-is_due :
    (a : Attempt) (state : Registration) (now : ℕ)
    → IsBackoff state.backoff
    → is_due a.now state ≡ true
    → a.now ≤ now
    → a.later + 300000000000 ≤ now
    → ((is_due now (after_reply a state) ≡ false) × IsClosed a.reply)
      ⊎ ((is_due now (after_reply a state) ≡ true) × ¬ IsClosed a.reply)
unfolding after_reply
after_reply-is_due a state now h due order le = elim (Reply-cases a.reply) [
  | inl (created, e) ↦ inl (ground arith, subst IsClosed (sym e) (accepted created))
  | inr (inl (status, kind, e)) ↦ elim (Bool-cases (is_for_good status kind)) [
    | inl closed ↦
        inl (ground arith, subst IsClosed (sym e) (is_for_good-IsClosed status kind closed))
    | inr other ↦ inr (ground arith, not_IsClosed a.reply (ground arith))
  ]
  | inr (inr e) ↦
      inr (
        ground (arith, next_backoff-bounds state.backoff h),
        not_IsClosed a.reply (ap is_closing e),
      )
]

-- A pass that lists the placements remembers those agents that it lists, and no other.
pub register_all-listed :
    (attempt : String → Attempt) (current : List CurrentPlacement) (r : Registrar) (grn : String)
    → is_listed current grn ≡ false
    → get grn (register_all attempt (some current) r).registrations ≡ none
unfolding register_all
register_all-listed attempt current r grn h =
    let r' = register_each attempt current r in
    get-retain (is_listed current) grn r'.registrations ∙ rw h refl
