-- ===== src/Definition/Types.antt =====
-- The data of internal/definition/definition.go. A `Revision`, a `Version` and a `Position` are
-- natural numbers, where 0 stands for every value below 1. A GRN and every identifier is a text. A
-- pointer that may be nil is an `Option`. An instant is a natural number. `S` is the type of the
-- execution settings, which the store keeps and never looks into.
use garam_agent_operator.Prelude.{ℕ, String, Bool, Option, List}
use garam_agent_operator.Map.{Map}

pub record Embedding : Type 0 where
  pub base_url : String
  pub name : String
  pub api_key : String

pub record Model : Type 0 where
  pub provider : String
  pub base_url : String
  pub name : String
  pub api_key : String
  pub embedding : Option Embedding

pub record Configuration : Type 0 where
  pub model : Model
  pub ego : String
  pub tools : Map String String

pub record ProfileRef : Type 0 where
  pub name : String
  pub version : ℕ

pub record TemplateRef : Type 0 where
  pub name : String
  pub version : ℕ

pub record Profile (S : Type 0) : Type 0 where
  pub name : String
  pub version : ℕ
  pub settings : S

pub record Template : Type 0 where
  pub name : String
  pub version : ℕ
  pub profile : ProfileRef
  pub config : Configuration

pub record Assignment : Type 0 where
  pub operator : String
  pub epoch : String

pub record Definition : Type 0 where
  pub agent : String
  pub organization : String
  pub revision : ℕ
  pub profile : ProfileRef
  pub config : Configuration
  pub assignment : Option Assignment

pub record OpenRecovery : Type 0 where
  pub request_id : String
  pub epoch : String

pub record DesiredRevision (S : Type 0) : Type 0 where
  pub definition : Definition
  pub settings : S
  pub stopped : Bool
  pub recovery : Option OpenRecovery

pub record DesiredPage (S : Type 0) : Type 0 where
  pub position : ℕ
  pub revisions : List (DesiredRevision S)

pub record Status : Type 0 where
  pub observed : ℕ
  pub rendered : ℕ
  pub applied : Option ℕ

pub record RequestKey : Type 0 where
  pub organization : String
  pub request_id : String

pub record Binding : Type 0 where
  pub actor : String
  pub operation : String
  pub target : String
  pub body_sha256 : String
  pub operation_ref : String
  pub assignment : Assignment

pub record CreateInput : Type 0 where
  pub request : RequestKey
  pub binding : Binding
  pub controller : String
  pub template : TemplateRef
  pub profile : ProfileRef

-- The GRN that garam minted, and the epoch of the agent's first assignment.
pub record Registered : Type 0 where
  pub agent : String
  pub epoch : String

pub data Outcome : Type 0 where
  pending : Outcome
  registered : Registered → Outcome
  -- The reason, and whether the refusal names another request.
  failed : String → Bool → Outcome

pub record Creation : Type 0 where
  pub key : RequestKey
  pub binding : Binding
  pub controller : String
  pub template : TemplateRef
  pub profile : ProfileRef
  pub outcome : Outcome

pub record Registration : Type 0 where
  pub request : RequestKey
  pub controller : String
  pub operation_ref : String

pub record PublishInput : Type 0 where
  pub request : RequestKey
  pub binding : Binding
  pub template : Template

pub record Publication : Type 0 where
  pub key : RequestKey
  pub binding : Binding
  pub template : TemplateRef

pub record Effective : Type 0 where
  pub revision : ℕ
  pub generation : String
  pub observed_at : ℕ

pub record Execution : Type 0 where
  pub desired : ℕ
  pub rendered : ℕ
  pub effective : Option Effective

pub record ConfigureInput : Type 0 where
  pub request : RequestKey
  pub binding : Binding
  pub agent : String
  pub expected_revision : ℕ
  pub profile : ProfileRef
  pub config : Configuration

-- `Applied` or `Stale`.
pub data RequestOutcome : Type 0 where
  applied : ℕ → RequestOutcome
  stale : RequestOutcome

-- A configure request. The outcome of one that is not stored yet is nil.
pub record Request : Type 0 where
  pub key : RequestKey
  pub binding : Binding
  pub agent : String
  pub outcome : Option RequestOutcome

pub record PreviousPlacement : Type 0 where
  pub pod_uid : String
  pub writer_stopped_sha256 : String

pub record PlacementRequest : Type 0 where
  pub pod_uid : String
  pub pvc_uid : String
  pub epoch : String
  pub token_sha256 : String
  pub previous : PreviousPlacement

pub record PlacementInput : Type 0 where
  pub agent : String
  pub controller : String
  pub request : PlacementRequest

pub record Placement : Type 0 where
  pub agent : String
  pub controller : String
  pub request : PlacementRequest
  pub superseded : Bool

pub record ActivationRequest : Type 0 where
  pub request_id : String
  pub epoch : String
  pub generation : String
  pub config_revision : ℕ
  pub placement_pod_uid : String

pub record Activation : Type 0 where
  pub agent : String
  pub request : ActivationRequest
  pub replaces_activation_id : String
  pub operation_ref : String
  pub activation_id : String

pub record RuntimeApplied : Type 0 where
  pub revision : ℕ
  pub activation_id : String
  pub generation : String
  pub observed_at : ℕ

pub data RecoveryStage : Type 0 where
  requested prepared finalized : RecoveryStage

-- `body` is nil until the request is prepared: here the empty list, which Go's `bytes.Equal` does
-- not tell from nil. `recovered` is the lineage that garam answered.
pub record Recovery : Type 0 where
  pub agent : String
  pub request_id : String
  pub key : RequestKey
  pub binding : Binding
  pub epoch : String
  pub stage : RecoveryStage
  pub body : List ℕ
  pub recovered : Option String

pub record RecoveryRequest : Type 0 where
  pub request_id : String
  pub epoch : String

pub record OpenRecoveryInput : Type 0 where
  pub key : RequestKey
  pub binding : Binding
  pub agent : String
  pub request_id : String

pub record StopEnd : Type 0 where
  pub key : RequestKey
  pub binding : Binding

pub record Stop : Type 0 where
  pub agent : String
  pub key : RequestKey
  pub binding : Binding
  pub activation_id : String
  pub deactivated : Bool
  pub start : Option StopEnd

pub record StopInput : Type 0 where
  pub key : RequestKey
  pub binding : Binding
  pub agent : String

pub record OperatorImage : Type 0 where
  pub name : String
  pub ref : String
  pub digest : Option String

pub record Operator : Type 0 where
  pub grn : String
  pub images : List OperatorImage
  pub reported_at : Option ℕ
  pub last_contact_at : Option ℕ

-- The configured revision is the text that the runtime sent.
pub record RuntimeReport : Type 0 where
  pub activation_id : String
  pub generation : String
  pub config_revision : List ℕ
  pub serving : Bool
  pub observed_at : ℕ
