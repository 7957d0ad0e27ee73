-- ===== src/Definition/Equalities.antt =====
-- Go's `==` on the structs that the package compares, field by field.
use garam_agent_operator.Prelude.{
  ◌≡◌, ◌↔◌, Bool, true, ◌&&◌, Eq, ◌==◌, ℕ_eq, string_eq, nat_eq_iff, arith,
}
use text.Mathlib.TextEquality.{eq_iff}
use garam_agent_operator.Definition.Types.{
  ProfileRef, TemplateRef, Assignment, RequestKey, Binding, Registered, PreviousPlacement,
  PlacementRequest, ActivationRequest,
}

unfoldable pub profile_ref_beq : ProfileRef → ProfileRef → Bool
profile_ref_beq a b = a.name == b.name && a.version == b.version

pub profile_ref_beq_iff : (a b : ProfileRef) → (profile_ref_beq a b ≡ true) ↔ (a ≡ b)
unfolding profile_ref_beq
profile_ref_beq_iff a b = ground (arith, eq_iff a.name b.name, nat_eq_iff a.version b.version)

instance abbrev pub profile_ref_eq : Eq ProfileRef
profile_ref_eq = record { equal = profile_ref_beq; equal_iff = profile_ref_beq_iff }

unfoldable pub template_ref_beq : TemplateRef → TemplateRef → Bool
template_ref_beq a b = a.name == b.name && a.version == b.version

pub template_ref_beq_iff : (a b : TemplateRef) → (template_ref_beq a b ≡ true) ↔ (a ≡ b)
unfolding template_ref_beq
template_ref_beq_iff a b = ground (arith, eq_iff a.name b.name, nat_eq_iff a.version b.version)

instance abbrev pub template_ref_eq : Eq TemplateRef
template_ref_eq = record { equal = template_ref_beq; equal_iff = template_ref_beq_iff }

unfoldable pub assignment_beq : Assignment → Assignment → Bool
assignment_beq a b = a.operator == b.operator && a.epoch == b.epoch

pub assignment_beq_iff : (a b : Assignment) → (assignment_beq a b ≡ true) ↔ (a ≡ b)
unfolding assignment_beq
assignment_beq_iff a b = ground (arith, eq_iff a.operator b.operator, eq_iff a.epoch b.epoch)

instance abbrev pub assignment_eq : Eq Assignment
assignment_eq = record { equal = assignment_beq; equal_iff = assignment_beq_iff }

unfoldable pub request_key_beq : RequestKey → RequestKey → Bool
request_key_beq a b = a.organization == b.organization && a.request_id == b.request_id

pub request_key_beq_iff : (a b : RequestKey) → (request_key_beq a b ≡ true) ↔ (a ≡ b)
unfolding request_key_beq
request_key_beq_iff a b =
    ground (arith, eq_iff a.organization b.organization, eq_iff a.request_id b.request_id)

instance abbrev pub request_key_eq : Eq RequestKey
request_key_eq = record { equal = request_key_beq; equal_iff = request_key_beq_iff }

unfoldable pub binding_beq : Binding → Binding → Bool
binding_beq a b =
    a.actor == b.actor
    && a.operation == b.operation
    && a.target == b.target
    && a.body_sha256 == b.body_sha256
    && a.operation_ref == b.operation_ref
    && a.assignment == b.assignment

pub binding_beq_iff : (a b : Binding) → (binding_beq a b ≡ true) ↔ (a ≡ b)
unfolding binding_beq
binding_beq_iff a b = ground (
  arith,
  eq_iff a.actor b.actor,
  eq_iff a.operation b.operation,
  eq_iff a.target b.target,
  eq_iff a.body_sha256 b.body_sha256,
  eq_iff a.operation_ref b.operation_ref,
  assignment_beq_iff a.assignment b.assignment,
)

instance abbrev pub binding_eq : Eq Binding
binding_eq = record { equal = binding_beq; equal_iff = binding_beq_iff }

unfoldable pub registered_beq : Registered → Registered → Bool
registered_beq a b = a.agent == b.agent && a.epoch == b.epoch

pub registered_beq_iff : (a b : Registered) → (registered_beq a b ≡ true) ↔ (a ≡ b)
unfolding registered_beq
registered_beq_iff a b = ground (arith, eq_iff a.agent b.agent, eq_iff a.epoch b.epoch)

instance abbrev pub registered_eq : Eq Registered
registered_eq = record { equal = registered_beq; equal_iff = registered_beq_iff }

unfoldable pub previous_placement_beq : PreviousPlacement → PreviousPlacement → Bool
previous_placement_beq a b =
    a.pod_uid == b.pod_uid && a.writer_stopped_sha256 == b.writer_stopped_sha256

pub previous_placement_beq_iff :
    (a b : PreviousPlacement) → (previous_placement_beq a b ≡ true) ↔ (a ≡ b)
unfolding previous_placement_beq
previous_placement_beq_iff a b =
    ground
      (arith, eq_iff a.pod_uid b.pod_uid, eq_iff a.writer_stopped_sha256 b.writer_stopped_sha256)

instance abbrev pub previous_placement_eq : Eq PreviousPlacement
previous_placement_eq = record {
  equal = previous_placement_beq;
  equal_iff = previous_placement_beq_iff;
}

unfoldable pub placement_request_beq : PlacementRequest → PlacementRequest → Bool
placement_request_beq a b =
    a.pod_uid == b.pod_uid
    && a.pvc_uid == b.pvc_uid
    && a.epoch == b.epoch
    && a.token_sha256 == b.token_sha256
    && a.previous == b.previous

pub placement_request_beq_iff :
    (a b : PlacementRequest) → (placement_request_beq a b ≡ true) ↔ (a ≡ b)
unfolding placement_request_beq
placement_request_beq_iff a b = ground (
  arith,
  eq_iff a.pod_uid b.pod_uid,
  eq_iff a.pvc_uid b.pvc_uid,
  eq_iff a.epoch b.epoch,
  eq_iff a.token_sha256 b.token_sha256,
  previous_placement_beq_iff a.previous b.previous,
)

instance abbrev pub placement_request_eq : Eq PlacementRequest
placement_request_eq = record {
  equal = placement_request_beq;
  equal_iff = placement_request_beq_iff;
}

unfoldable pub activation_request_beq : ActivationRequest → ActivationRequest → Bool
activation_request_beq a b =
    a.request_id == b.request_id
    && a.epoch == b.epoch
    && a.generation == b.generation
    && a.config_revision == b.config_revision
    && a.placement_pod_uid == b.placement_pod_uid

pub activation_request_beq_iff :
    (a b : ActivationRequest) → (activation_request_beq a b ≡ true) ↔ (a ≡ b)
unfolding activation_request_beq
activation_request_beq_iff a b = ground (
  arith,
  eq_iff a.request_id b.request_id,
  eq_iff a.epoch b.epoch,
  eq_iff a.generation b.generation,
  nat_eq_iff a.config_revision b.config_revision,
  eq_iff a.placement_pod_uid b.placement_pod_uid,
)

instance abbrev pub activation_request_eq : Eq ActivationRequest
activation_request_eq = record {
  equal = activation_request_beq;
  equal_iff = activation_request_beq_iff;
}
