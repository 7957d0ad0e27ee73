-- ===== src/History/Operators.antt =====
-- What each controller reported: neither its last contact nor its report goes back in time.
use garam_agent_operator.Prelude.{
  ℕ, ◌≤◌, ◌≡◌, refl, String, Bool, true, false, Option, none, some, List, [], ◌∷◌, Option-cases,
  inl, inr, Bool-cases, string_eq, ◌==◌, arith, ltb, subst, sym, ap, ◌∙◌, if◌then◌else◌,
}
use text.Mathlib.TextEquality.{eq_iff}
use garam_agent_operator.Map.{Map, get, put}
use garam_agent_operator.Map.Laws.{get-put}
use garam_agent_operator.Definition.Types.{Operator, OperatorImage}
use garam_agent_operator.Repository.{Memory, StoredOperator}
use garam_agent_operator.Repository.Operators.{
  operator_locked, record_operator_contact, report_operator_images, is_later, is_not_earlier,
}
use garam_agent_operator.Repository.Calls.{Call, step, run}
use garam_agent_operator.Repository.Calls.Frames.{operators-step}

-- The instant is known and is not before `at`.
abbrev pub IsSince : ℕ → Option ℕ → Type 0
IsSince at none = ⊥
IsSince at (some t) = at ≤ t

abbrev pub contact_at : Option StoredOperator → Option ℕ
contact_at none = none
contact_at (some s) = s.operator.last_contact_at

abbrev pub reported_at : Option StoredOperator → Option ℕ
reported_at none = none
reported_at (some s) = s.operator.reported_at

-- The later of the two is known where the earlier is, and is not before it.
abbrev pub Moves : Option ℕ → Option ℕ → Type 0
Moves none u = Unit {0}
Moves (some t) u = IsSince t u

Moves-refl : (t : Option ℕ) → Moves t t
Moves-refl none = tt
Moves-refl (some t) = omega arith

Moves-trans : (t u w : Option ℕ) → Moves t u → Moves u w → Moves t w
Moves-trans none u w h k = tt
Moves-trans (some t) none w h k = absurd h
Moves-trans (some t) (some u) none h k = k
Moves-trans (some t) (some u) (some w) h k = omega arith

ltb-lt : (a b : ℕ) → ltb a b ≡ true → a ≤ b
ltb-lt a b h = ground arith

ltb-ge : (a b : ℕ) → ltb a b ≡ false → b ≤ a
ltb-ge a b h = ground arith

abbrev Both : Option StoredOperator → Option StoredOperator → Type 0
Both a b = Moves (contact_at a) (contact_at b) × Moves (reported_at a) (reported_at b)

Both-refl : (a : Option StoredOperator) → Both a a
Both-refl a = (Moves-refl (contact_at a), Moves-refl (reported_at a))

Both-put :
    (o operator : String) (s : StoredOperator) (operators : Map String StoredOperator)
    → Both (get o operators) (some s)
    → Both (get operator operators) (get operator (put o s operators))
Both-put o operator s operators h =
    subst (Both (get operator operators)) (sym (get-put o operator s operators))
      (elim (Bool-cases (o == operator)) [
        | inl hit ↦
            rw hit (
              subst (λ (x : String). Both (get x operators) (some s)) ((eq_iff o operator).0 hit) h)
        | inr miss ↦ rw miss (Both-refl (get operator operators))
      ])

abbrev BothIn : Operator → Operator → Type 0
BothIn o o' = Moves o.last_contact_at o'.last_contact_at × Moves o.reported_at o'.reported_at

contacted :
    (grn : String) (images : List OperatorImage) (reported last : Option ℕ) (at : ℕ)
    → let o : Operator = record {
      grn = grn;
      images = images;
      reported_at = reported;
      last_contact_at = last;
    } in
      BothIn o (if is_later last at then record o { last_contact_at = some at } else o)
contacted grn images reported none at = (tt, Moves-refl reported)
contacted grn images reported (some t) at = elim (Bool-cases (ltb t at)) [
  | inl later ↦ rw later (omega (arith, ltb-lt t at later), Moves-refl reported)
  | inr before ↦ rw before (omega arith, Moves-refl reported)
]

reported :
    (grn : String) (images images' : List OperatorImage) (last reported : Option ℕ) (at : ℕ)
    → let o : Operator = record {
      grn = grn;
      images = images;
      reported_at = reported;
      last_contact_at = last;
    } in
      BothIn o (
        if is_not_earlier reported at
        then record o { images = images'; reported_at = some at }
        else o)
reported grn images images' last none at = (Moves-refl last, tt)
reported grn images images' last (some t) at = elim (Bool-cases (ltb at t)) [
  | inl earlier ↦ rw earlier (Moves-refl last, omega arith)
  | inr not_earlier ↦ rw not_earlier (Moves-refl last, ltb-ge at t not_earlier)
]

module _ {S : Type 0} (same : S → S → Bool) where
  step-Both :
      (m : Memory S) (c : Call S) (operator : String)
      → Both (get operator m.operators) (get operator (step same m c).operators)
  unfolding step record_operator_contact report_operator_images operator_locked
  step-Both m (Call.record_operator_contact org o at) operator =
      Both-put o operator _ m.operators (elim (Option-cases (get o m.operators)) [
        | inl e ↦ rw e (tt, tt)
        | inr (s, e) ↦
            rw (e, operator_locked)
              (contacted s.operator.grn s.operator.images s.operator.reported_at
                s.operator.last_contact_at at)
      ])
  step-Both m (Call.report_operator_images org o images at) operator =
      Both-put o operator _ m.operators (elim (Option-cases (get o m.operators)) [
        | inl e ↦ rw e (tt, tt)
        | inr (s, e) ↦
            rw (e, operator_locked)
              (reported s.operator.grn s.operator.images images s.operator.last_contact_at
                s.operator.reported_at at)
      ])
  step-Both m c operator = rw (operators-step same m c refl) (Both-refl (get operator m.operators))

  run-Both :
      (m : Memory S) (cs : List (Call S)) (operator : String)
      → Both (get operator m.operators) (get operator (run same m cs).operators)
  unfolding run
  run-Both m [] operator = Both-refl (get operator m.operators)
  run-Both m (c ∷ cs) operator =
      let (a, b) = step-Both m c operator in
      let (d, e) = run-Both (step same m c) cs operator in
      (
        Moves-trans (contact_at (get operator m.operators))
            (contact_at (get operator (step same m c).operators)) _ a d,
        Moves-trans (reported_at (get operator m.operators))
            (reported_at (get operator (step same m c).operators)) _ b e,
      )

  -- Whatever the calls, once an operator was in contact at an instant it is known to have been in
  -- contact no earlier than that, and likewise of the instant of its report of images.
  pub operators-run :
      (m : Memory S) (cs : List (Call S)) (operator : String) (s : StoredOperator) (t u : ℕ)
      → get operator m.operators ≡ some s
      → s.operator.last_contact_at ≡ some t
      → s.operator.reported_at ≡ some u
      → IsSince t (contact_at (get operator (run same m cs).operators))
        × IsSince u (reported_at (get operator (run same m cs).operators))
  operators-run m cs operator s t u h e f =
      let (a, b) = run-Both m cs operator in
      (
        subst (λ (x : Option ℕ). Moves x (contact_at (get operator (run same m cs).operators)))
            (ap contact_at h ∙ e) a,
        subst (λ (x : Option ℕ). Moves x (reported_at (get operator (run same m cs).operators)))
            (ap reported_at h ∙ f) b,
      )
