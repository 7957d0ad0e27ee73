-- ===== src/Definition/Placement/Decisions.antt =====
-- When a registration is a repeat, and when it makes a placement the current one.
use garam_agent_operator.Prelude.{◌≡◌, ◌≢◌, ◌↔◌, false, Option, none, some, arith}
use text.Mathlib.TextEquality.{eq_iff}
use garam_agent_operator.Definition.Errors.{ok}
use garam_agent_operator.Definition.Types.{PreviousPlacement, PlacementInput, Placement}
use garam_agent_operator.Definition.Equalities.{
  placement_request_beq_iff, previous_placement_beq_iff,
}
use garam_agent_operator.Definition.Placement.{repeat, register, no_previous, decide_placement}

-- The current placement may be replaced as the registration says: none is held and none is named,
-- or the one named is held and its writer-stopped evidence is there.
abbrev pub MayReplace : Option Placement → PreviousPlacement → Type 0
MayReplace none previous = previous ≡ no_previous
MayReplace (some held) previous =
    (held.request.pod_uid ≡ previous.pod_uid) × (previous.writer_stopped_sha256 ≢ "")

-- The Pod was registered before, with the same content, and was not replaced since.
abbrev pub IsRepeat : Option Placement → PlacementInput → Type 0
IsRepeat none input = ⊥
IsRepeat (some held) input =
    (held.superseded ≡ false)
    × (held.request ≡ input.request)
    × (held.controller ≡ input.controller)

-- A registration becomes the current placement exactly when its Pod is not stored and it may
-- replace what is held.
pub decide_placement-eq-register_iff :
    (current same : Option Placement) (input : PlacementInput)
    → (decide_placement current same input ≡ ok register)
      ↔ ((same ≡ none) × MayReplace current input.request.previous)
unfolding decide_placement
decide_placement-eq-register_iff none none input =
    ground (arith, previous_placement_beq_iff input.request.previous no_previous)
decide_placement-eq-register_iff (some held) none input = ground (
  arith,
  previous_placement_beq_iff input.request.previous no_previous,
  eq_iff held.request.pod_uid input.request.previous.pod_uid,
  eq_iff input.request.previous.writer_stopped_sha256 "",
)
decide_placement-eq-register_iff current (some held) input = ground arith

-- A registration is answered as a repeat exactly when the Pod's stored placement is not superseded
-- and was registered with the same content by the same controller.
pub decide_placement-eq-repeat_iff :
    (current same : Option Placement) (input : PlacementInput)
    → (decide_placement current same input ≡ ok repeat) ↔ IsRepeat same input
unfolding decide_placement
decide_placement-eq-repeat_iff none none input = ground arith
decide_placement-eq-repeat_iff (some held) none input = ground arith
decide_placement-eq-repeat_iff current (some held) input = ground (
  arith,
  placement_request_beq_iff held.request input.request,
  eq_iff held.controller input.controller,
)
