-- ===== src/Controller/Cluster.antt =====
-- What internal/controller/agent_fence.go reads and writes of a cluster: one Agent's Pod, its claims, the
-- nodes, the placement Secret and the Agent's status. A field that the fence does not read is left out.
use garam_agent_operator.Prelude.{ℕ, String, Bool, List, Option}
use garam_agent_operator.Map.{Map}

pub record Terminated : Type 0 where
  pub container_id : String
  pub exit_code : ℕ
  pub finished_at : ℕ

-- `corev1.ContainerState`: which of its pointers are set.
pub record ContainerState : Type 0 where
  pub running : Bool
  pub waiting : Bool
  pub terminated : Option Terminated

pub record ContainerStatus : Type 0 where
  pub name : String
  pub container_id : String
  pub restart_count : ℕ
  pub last_state : ContainerState
  pub state : ContainerState

pub record PodCondition : Type 0 where
  pub kind : String
  pub reason : String

pub record NodeCondition : Type 0 where
  pub kind : String
  pub status : String

-- `restarts` is that the restart policy is `Always`.
pub record InitContainer : Type 0 where
  pub name : String
  pub restarts : Bool

-- A volume's name and the name of its claim, where it has one.
pub record Volume : Type 0 where
  pub name : String
  pub claim : Option String

pub record Pod : Type 0 where
  pub uid : String
  pub node_name : String
  pub is_deleting : Bool
  pub created : ℕ
  pub finalizers : List String
  pub annotations : Map String String
  pub volumes : List Volume
  pub init_containers : List InitContainer
  pub containers : List String
  pub init_statuses : List ContainerStatus
  pub statuses : List ContainerStatus
  pub phase : String
  pub conditions : List PodCondition

-- `taints` has the keys.
pub record Node : Type 0 where
  pub conditions : List NodeCondition
  pub taints : List String

-- `last_writer` is its annotation, empty where it is not set.
pub record Claim : Type 0 where
  pub uid : String
  pub created : ℕ
  pub last_writer : String

-- `TerminatedContainer`
pub record TerminatedContainer : Type 0 where
  pub name : String
  pub container_id : String
  pub exit_code : ℕ
  pub finished_at : ℕ

-- `WriterStoppedEvidence`
pub record Evidence : Type 0 where
  pub pod_uid : String
  pub pvc_uid : String
  pub containers : List TerminatedContainer
  pub never_created : List String
  pub pod_phase : String
  pub observed_at : ℕ

-- The placement Secret: its token, and the Pod's UID and the evidence's digest of its annotations.
pub record Secret : Type 0 where
  pub token : String
  pub previous : Option (String × String)

-- Why a fence is not verified.
pub data Reason : Type 0 where
  node_unknown pvc_changed no_container_status container_waiting container_running : Reason

-- The condition that the reconciliation sets of the fence.
pub data FenceCondition : Type 0 where
  unset : FenceCondition
  unverified : Reason → FenceCondition
  writer_stopped : FenceCondition

pub record Placement : Type 0 where
  pub pod_uid : String
  pub pvc_uid : String

-- `placement` and `condition` are of the Agent that the reconciliation holds, `evidence` of the one that
-- is stored.
pub record Cluster : Type 0 where
  pub pod : Option Pod
  pub nodes : Map String Node
  pub claims : Map String Claim
  pub secret : Option Secret
  pub evidence : Option Evidence
  pub placement : Option Placement
  pub condition : FenceCondition
