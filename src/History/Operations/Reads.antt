-- ===== src/History/Operations/Reads.antt =====
-- The operations that only read, and what an answered profile says.
use garam_agent_operator.Prelude.{ℕ, ◌≡◌, String, string_eq, ℕ_eq, arith}
use garam_agent_operator.Definition.Errors.{ok}
use garam_agent_operator.Definition.Types.{ProfileRef, Profile, ConfigureInput, TemplateRef}
use garam_agent_operator.Definition.Equalities.{binding_eq}
use garam_agent_operator.Repository.{Memory}
use garam_agent_operator.Repository.Publishing.{profile_versions, get_profile, get_template}
use garam_agent_operator.Repository.Revisions
use garam_agent_operator.Repository.Creations
use garam_agent_operator.Repository.Activations
use garam_agent_operator.Repository.Statuses
use garam_agent_operator.Repository.Stops
use garam_agent_operator.Service.Activation
use garam_agent_operator.Service.Stop
use garam_agent_operator.Service.Configure
use garam_agent_operator.History.Publishing.Versions.{version_at_bounds}
use garam_agent_operator.History.Publishing.{get_profile-eq-ok_iff}
use garam_agent_operator.History.Reach.{IsPublished}

module _ {S : Type 0} where
  pub IsPublished-get_profile :
      (org : String) (ref : ProfileRef) (p : Profile S) (m : Memory S)
      → (get_profile org ref m).0 ≡ ok p
      → IsPublished org ref m
  IsPublished-get_profile org ref p m h =
      version_at_bounds (profile_versions org ref.name m) ref.version p
        ((get_profile-eq-ok_iff org ref p m).0 h)

  pub get_profile-state :
      (org : String) (ref : ProfileRef) (m : Memory S) → (get_profile org ref m).1 ≡ m
  unfolding get_profile
  get_profile-state org ref m = ground arith

  pub embedding_kept-state :
      (input : ConfigureInput) (m : Memory S) → (Configure.embedding_kept input m).1 ≡ m
  unfolding Configure.embedding_kept Revisions.get_definition
  embedding_kept-state input m = ground arith

  pub get_template-state :
      (org : String) (ref : TemplateRef) (m : Memory S) → (get_template org ref m).1 ≡ m
  unfolding get_template
  get_template-state org ref m = ground arith

  pub get_definition-state :
      (agent : String) (m : Memory S) → (Revisions.get_definition agent m).1 ≡ m
  unfolding Revisions.get_definition
  get_definition-state agent m = ground arith

  pub stopped-state : (agent : String) (m : Memory S) → (Stop.stopped agent m).1 ≡ m
  unfolding Stop.stopped Stops.current_stop
  stopped-state agent m = ground arith

  pub in_organization-state :
      (agent org : String) (m : Memory S) → (Stop.in_organization agent org m).1 ≡ m
  unfolding Stop.in_organization Revisions.get_definition
  in_organization-state agent org m = ground arith

  pub latest_activation-state :
      (agent : String) (m : Memory S) → (Activations.latest_activation agent m).1 ≡ m
  unfolding Activations.latest_activation
  latest_activation-state agent m = ground arith

  pub get_activation-state :
      (agent request_id : String) (m : Memory S)
      → (Activations.get_activation agent request_id m).1 ≡ m
  unfolding Activations.get_activation
  get_activation-state agent request_id m = ground arith

  pub operation_reference-state :
      (agent : String) (revision : ℕ) (anchor : String) (m : Memory S)
      → (Activation.operation_reference agent revision anchor m).1 ≡ m
  unfolding Activation.operation_reference Activation.reference_of Statuses.get_runtime_applied
      Creations.creation_of Revisions.configure_reference
  operation_reference-state agent revision anchor m = ground arith
