-- ===== src/Desired/Registrar/Settled.antt =====
-- A placement that the control service took, or refused for good, is not presented again.
use garam_agent_operator.Prelude.{
  ◌≡◌, ◌≢◌, ◌⊎◌, refl, String, Bool, true, Option, none, some, Option-cases, Bool-cases, inl, inr,
  List, [], ◌∷◌, All, ◌||◌, ◌==◌, string_eq, ℕ_eq, option_eq, option_beq_iff, beq_refl, arith, sym,
  ap, ◌∙◌, subst, if◌then◌else◌,
}
use text.Mathlib.TextEquality.{eq_iff}
use garam_agent_operator.Map.{get}
use garam_agent_operator.Map.Laws.{get-put, get-put_self, get-retain}
use garam_agent_operator.Definition.Equalities.{previous_placement_eq}
use garam_agent_operator.Desired.{Reply, Reply-cases, replied, refused, silent}
use garam_agent_operator.Desired.Registrar.{
  Placement, CurrentPlacement, Registration, Registrar, Attempt, same_placement, registration_of,
  is_for_good, after_reply, is_due, register, register_each, is_listed, register_all, run,
}

-- What was sent for an agent.
abbrev pub sent_for : String → List CurrentPlacement → List CurrentPlacement
sent_for grn [] = []
sent_for grn (c ∷ rest) = if c.grn == grn then c ∷ sent_for grn rest else sent_for grn rest

-- The agent is listed, with the placement alone.
abbrev pub IsOf : String → Placement → CurrentPlacement → Type 0
IsOf grn p c = (c.grn ≢ grn) ⊎ (c.placement ≡ p)

-- The placement was accepted, or refused for good.
pub record IsSettled (grn : String) (p : Placement) (r : Registrar) : Type 0 where
  pub state : Registration
  pub found : get grn r.registrations ≡ some state
  pub same : state.placement ≡ p
  pub settled : (state.superseded || state.accepted) ≡ true

pub same_placement_iff : (a b : Placement) → same_placement a b ≡ true → a ≡ b
unfolding same_placement
same_placement_iff a b h = ground (
  arith,
  eq_iff a.epoch b.epoch,
  eq_iff a.pod_uid b.pod_uid,
  eq_iff a.pvc_uid b.pvc_uid,
  eq_iff a.token_sha256 b.token_sha256,
  option_beq_iff a.previous b.previous,
)

same_placement_refl : (a : Placement) → same_placement a a ≡ true
unfolding same_placement
same_placement_refl a = ground (
  arith,
  beq_refl a.epoch,
  beq_refl a.pod_uid,
  beq_refl a.pvc_uid,
  beq_refl a.token_sha256,
  option_beq_iff a.previous a.previous,
)

registration_of-found :
    (c : CurrentPlacement) (r : Registrar) (state : Registration)
    → get c.grn r.registrations ≡ some state
    → state.placement ≡ c.placement
    → registration_of c r ≡ state
unfolding registration_of
registration_of-found c r state found same =
    let e : same_placement state.placement c.placement ≡ true =
      rw same (same_placement_refl c.placement) in
    ground arith

-- Registering another agent's placement leaves what is remembered of the agent and sent for it.
register-other :
    (grn : String) (c : CurrentPlacement) (a : Attempt) (r : Registrar)
    → c.grn ≢ grn
    → (get grn (register c a r).registrations ≡ get grn r.registrations)
      × (sent_for grn (register c a r).presented ≡ sent_for grn r.presented)
unfolding register
register-other grn c a r other =
    let state = registration_of c r in
    (
      ground (
        arith,
        eq_iff c.grn grn,
        get-put c.grn grn (after_reply a state) r.registrations,
        get-put c.grn grn state r.registrations,
      ),
      ground (arith, eq_iff c.grn grn),
    )

register-same :
    (c : CurrentPlacement) (a : Attempt) (r : Registrar) (state : Registration)
    → get c.grn r.registrations ≡ some state
    → state.placement ≡ c.placement
    → (state.superseded || state.accepted) ≡ true
    → (get c.grn (register c a r).registrations ≡ some state)
      × ((register c a r).presented ≡ r.presented)
unfolding register
register-same c a r state found same settled =
    let e = registration_of-found c r state found same in
    (ground (arith, e, get-put_self c.grn state r.registrations), ground (arith, e))

register-IsSettled :
    (grn : String) (p : Placement) (c : CurrentPlacement) (a : Attempt) (r : Registrar)
    → IsOf grn p c
    → IsSettled grn p r
    → IsSettled grn p (register c a r)
      × (sent_for grn (register c a r).presented ≡ sent_for grn r.presented)
register-IsSettled grn p c a r of h = elim (Bool-cases (c.grn == grn)) [
  | inr other ↦
      let (found, sent) = register-other grn c a r (ground (arith, eq_iff c.grn grn)) in
      (
        record { state = h.state; found = found ∙ h.found; same = h.same; settled = h.settled },
        sent,
      )
  | inl hit ↦
      let q : c.grn ≡ grn = (eq_iff c.grn grn).0 hit in
      let placed : c.placement ≡ p = elim of [ inl ne ↦ absurd (ne q) | inr e ↦ e ] in
      let (found, sent) =
        register-same c a r h.state (rw q h.found) (h.same ∙ sym placed) h.settled in
      (
        record {
          state = h.state;
          found =
              subst (λ (g : String). get g (register c a r).registrations ≡ some h.state) q found;
          same = h.same;
          settled = h.settled;
        },
        ap (sent_for grn) sent,
      )
]

register_each-IsSettled :
    (grn : String) (p : Placement) (attempt : String → Attempt) (current : List CurrentPlacement)
    (r : Registrar)
    → All (IsOf grn p) current
    → IsSettled grn p r
    → IsSettled grn p (register_each attempt current r)
      × (sent_for grn (register_each attempt current r).presented ≡ sent_for grn r.presented)
unfolding register_each
register_each-IsSettled grn p attempt [] r of h = (h, refl)
register_each-IsSettled grn p attempt (c ∷ rest) r of h =
    let (h1, e1) = register-IsSettled grn p c (attempt c.grn) r of.0 h in
    let (h2, e2) =
      register_each-IsSettled grn p attempt rest (register c (attempt c.grn) r) of.1 h1 in
    (h2, e2 ∙ e1)

-- A pass that lists the agent with the placement, or that cannot list the placements.
abbrev pub IsPass :
    String → Placement → (String → Attempt) × Option (List CurrentPlacement) → Type 0
IsPass grn p (attempt, none) = Unit {0}
IsPass grn p (attempt, some current) = (is_listed current grn ≡ true) × All (IsOf grn p) current

register_all-IsSettled :
    (grn : String) (p : Placement) (attempt : String → Attempt)
    (current : Option (List CurrentPlacement)) (r : Registrar)
    → IsPass grn p (attempt, current)
    → IsSettled grn p r
    → IsSettled grn p (register_all attempt current r)
      × (sent_for grn (register_all attempt current r).presented ≡ sent_for grn r.presented)
unfolding register_all
register_all-IsSettled grn p attempt none r of h = (h, refl)
register_all-IsSettled grn p attempt (some current) r of h =
    let r' = register_each attempt current r in
    let (h', e) = register_each-IsSettled grn p attempt current r of.1 h in
    (
      record {
        state = h'.state;
        found = get-retain (is_listed current) grn r'.registrations ∙ rw of.0 h'.found;
        same = h'.same;
        settled = h'.settled;
      },
      e,
    )

run-IsSettled :
    (grn : String) (p : Placement)
    (passes : List ((String → Attempt) × Option (List CurrentPlacement))) (r : Registrar)
    → All (IsPass grn p) passes
    → IsSettled grn p r
    → IsSettled grn p (run passes r)
      × (sent_for grn (run passes r).presented ≡ sent_for grn r.presented)
unfolding run
run-IsSettled grn p [] r of h = (h, refl)
run-IsSettled grn p ((attempt, current) ∷ rest) r of h =
    let (h1, e1) = register_all-IsSettled grn p attempt current r of.0 h in
    let (h2, e2) = run-IsSettled grn p rest (register_all attempt current r) of.1 h1 in
    (h2, e2 ∙ e1)

-- A reply that accepts the placement, or refuses it for good.
abbrev pub IsFinal : Reply Bool → Type 0
IsFinal (replied created) = Unit {0}
IsFinal (refused status kind) = is_for_good status kind ≡ true
IsFinal silent = ⊥

registration_of-placement :
    (c : CurrentPlacement) (r : Registrar) → (registration_of c r).placement ≡ c.placement
unfolding registration_of
registration_of-placement c r = elim (Option-cases (get c.grn r.registrations)) [
  | inl e ↦ ground arith
  | inr (state, e) ↦ elim (Bool-cases (same_placement state.placement c.placement)) [
    | inl same ↦ ground (arith, same_placement_iff state.placement c.placement same)
    | inr other ↦ ground arith
  ]
]

after_reply_final :
    (a : Attempt) (state : Registration)
    → IsFinal a.reply
    → ((after_reply a state).placement ≡ state.placement)
      × (((after_reply a state).superseded || (after_reply a state).accepted) ≡ true)
unfolding after_reply
after_reply_final a state h = elim (Reply-cases a.reply) [
  | inl (created, e) ↦ (ground arith, ground arith)
  | inr (inl (status, kind, e)) ↦
      let good : is_for_good status kind ≡ true = subst IsFinal e h in (ground arith, ground arith)
  | inr (inr e) ↦ absurd (subst IsFinal e h)
]

-- A placement that is presented and then accepted, or refused for good, is sent once: no later pass
-- presents anything for the agent while its current placement is that one.
pub register-run_final :
    (c : CurrentPlacement) (a : Attempt) (r : Registrar)
    (passes : List ((String → Attempt) × Option (List CurrentPlacement)))
    → is_due a.now (registration_of c r) ≡ true
    → IsFinal a.reply
    → All (IsPass c.grn c.placement) passes
    → sent_for c.grn (run passes (register c a r)).presented ≡ c ∷ sent_for c.grn r.presented
unfolding register
register-run_final c a r passes due final of =
    let state = registration_of c r in
    let (placed, settled) = after_reply_final a state final in
    let h : IsSettled c.grn c.placement (register c a r) = record {
      state = after_reply a state;
      found = ground (arith, get-put_self c.grn (after_reply a state) r.registrations);
      same = placed ∙ registration_of-placement c r;
      settled = settled;
    } in
    (run-IsSettled c.grn c.placement passes (register c a r) of h).1
    ∙ ground (arith, beq_refl c.grn)
