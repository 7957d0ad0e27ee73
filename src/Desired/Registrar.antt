-- ===== src/Desired/Registrar.antt =====
-- internal/desired/registrar.go: the placements that the controller registers.
pub mod Settled
pub mod Bounds
use garam_agent_operator.Prelude.{
  ℕ, ◌+◌, String, Bool, true, false, not, ◌&&◌, ◌||◌, Option, none, some, List, [], ◌∷◌, ◌==◌, ◌!=◌,
  string_eq, ℕ_eq, option_eq, ltb, if◌then◌else◌,
}
use garam_agent_operator.Map.{Map, get, put, retain}
use garam_agent_operator.Definition.Types.{PreviousPlacement}
use garam_agent_operator.Definition.Equalities.{previous_placement_eq}
use garam_agent_operator.Desired.{
  Reply, replied, refused, silent, next_backoff, is_refused_as, refused_wait,
}

pub record Placement : Type 0 where
  pub epoch : String
  pub pod_uid : String
  pub pvc_uid : String
  pub token_sha256 : String
  pub previous : Option PreviousPlacement

pub record CurrentPlacement : Type 0 where
  pub grn : String
  pub placement : Placement

-- `refused_as` is the status and the kind of the refusal logged last.
pub record Registration : Type 0 where
  pub placement : Placement
  pub accepted : Bool
  pub superseded : Bool
  pub next : ℕ
  pub backoff : ℕ
  pub refused_as : Option (ℕ × String)

-- The registrar, with what it sent to the control service and the refusals that it logged, the last
-- first.
pub record Registrar : Type 0 where
  pub registrations : Map String Registration
  pub presented : List CurrentPlacement
  pub logged : List (String × ℕ × String)

-- What presenting an agent's placement meets: the clock before the call and after it, and the reply,
-- with whether the placement was new.
pub record Attempt : Type 0 where
  pub now : ℕ
  pub later : ℕ
  pub reply : Reply Bool

-- `samePlacement`
unfoldable pub same_placement : Placement → Placement → Bool
same_placement a b =
    if a.epoch != b.epoch
      || a.pod_uid != b.pod_uid
      || a.pvc_uid != b.pvc_uid
      || a.token_sha256 != b.token_sha256
    then false
    else a.previous == b.previous

abbrev pub fresh : Placement → Registration
fresh p = record {
  placement = p;
  accepted = false;
  superseded = false;
  next = 0;
  backoff = 0;
  refused_as = none;
}

-- What is remembered of the placement, from its start where it is another than the last.
unfoldable pub registration_of : CurrentPlacement → Registrar → Registration
unfolding same_placement
registration_of c r = elim (get c.grn r.registrations) [
  | none ↦ fresh c.placement
  | some state ↦ if same_placement state.placement c.placement then state else fresh c.placement
]

abbrev pub is_for_good : ℕ → String → Bool
is_for_good status kind =
    status == 409 && (kind == "placement_superseded" || kind == "epoch_superseded")

-- The registration after a reply.
unfoldable pub after_reply : Attempt → Registration → Registration
after_reply a state = elim a.reply [
  | replied created ↦ record state { accepted = true; backoff = 0; refused_as = none }
  | refused status kind ↦
      if is_for_good status kind
      then record state { backoff = 0; superseded = true }
      else record state {
        backoff = 0;
        next = a.later + refused_wait;
        refused_as = some (status, kind);
      }
  | silent ↦
      let wait = next_backoff state.backoff in
      record state { backoff = wait; next = a.later + wait }
]

-- The refusals logged after a reply.
unfoldable pub log_reply :
    String → Attempt → Registration → List (String × ℕ × String) → List (String × ℕ × String)
log_reply grn a state logged = elim a.reply [
  | replied created ↦ logged
  | refused status kind ↦
      if is_for_good status kind || not (is_refused_as state.refused_as status kind)
      then (grn, status, kind) ∷ logged
      else logged
  | silent ↦ logged
]

abbrev pub is_due : ℕ → Registration → Bool
is_due now state = not (state.superseded || state.accepted || ltb now state.next)

-- `register`
unfoldable pub register : CurrentPlacement → Attempt → Registrar → Registrar
unfolding registration_of after_reply log_reply
register c a r =
    let state = registration_of c r in
    if is_due a.now state
    then record {
      registrations = put c.grn (after_reply a state) r.registrations;
      presented = c ∷ r.presented;
      logged = log_reply c.grn a state r.logged;
    }
    else record r { registrations = put c.grn state r.registrations }

unfoldable pub register_each : (String → Attempt) → List CurrentPlacement → Registrar → Registrar
unfolding register
register_each attempt [] r = r
register_each attempt (c ∷ rest) r = register_each attempt rest (register c (attempt c.grn) r)

abbrev pub is_listed : List CurrentPlacement → String → Bool
is_listed [] grn = false
is_listed (c ∷ rest) grn = c.grn == grn || is_listed rest grn

-- `registerAll`, with `none` for placements that cannot be listed.
unfoldable pub register_all :
    (String → Attempt) → Option (List CurrentPlacement) → Registrar → Registrar
unfolding register_each
register_all attempt none r = r
register_all attempt (some current) r =
    let r' = register_each attempt current r in
    record r' { registrations = retain (is_listed current) r'.registrations }

-- The passes of `Start`, the first in front.
unfoldable pub run :
    List ((String → Attempt) × Option (List CurrentPlacement)) → Registrar → Registrar
unfolding register_all
run [] r = r
run ((attempt, current) ∷ rest) r = run rest (register_all attempt current r)
