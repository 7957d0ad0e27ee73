-- ===== src/Tests/Fences.antt =====
-- A run of the fence: a deleting Pod whose one container is seen terminated is released.
use garam_agent_operator.Prelude.{none, some, [], ◌∷◌, true, false}
use garam_agent_operator.Map.{get, put}
use garam_agent_operator.Controller.Cluster.{
  ContainerState, ContainerStatus, Pod, Node, Claim, FenceCondition, Cluster,
}
use garam_agent_operator.Controller.Fence.{
  Turn, claim_of_pod, ready_of, read_node, read_claim, was_never_created, is_never_created_refused,
  writer_of, terminated_each, terminated_writers, read_fence,
}
use garam_agent_operator.Controller.Fence.Release.{
  record_last_writer, record_stopped_writer, create_placement_token, mint_placement_token,
  mint_next, release_fence, record_placement, reconcile_pod, reconcile_fence,
}

unfoldable opened_fence : Unit {0}
unfolding get put claim_of_pod ready_of read_node read_claim was_never_created
    is_never_created_refused writer_of terminated_each terminated_writers read_fence
    record_last_writer record_stopped_writer create_placement_token mint_placement_token mint_next
    release_fence record_placement reconcile_pod reconcile_fence
opened_fence = tt

abbrev turn : Turn
turn = record {
  now = 9;
  own_claim = "state-agent-0";
  adapter_built = true;
  get_pod_fails = false;
  get_node_fails = false;
  get_claim_fails = false;
  get_stopped_claim_fails = false;
  patch_status_fails = false;
  patch_secret_fails = false;
  get_secret_fails = false;
  get_secret_finds = false;
  create_secret_fails = false;
  create_secret_exists = false;
  patch_claim_fails = false;
  patch_pod_fails = false;
  pod_is_gone = false;
  token = some "token";
  created_token = some "created";
  digest = λ e. some "digest";
  encode = λ w. w.pod_uid;
}

abbrev no_state : ContainerState
no_state = record { running = false; waiting = false; terminated = none }

abbrev ended_status : ContainerStatus
ended_status = record {
  name = "agent";
  container_id = "container";
  restart_count = 0;
  last_state = no_state;
  state = record no_state {
    terminated = some (record { container_id = "container"; exit_code = 0; finished_at = 8 });
  };
}

abbrev deleting_pod : Pod
deleting_pod = record {
  uid = "pod";
  node_name = "node";
  is_deleting = true;
  created = 5;
  finalizers = "agent.garam.sh/writer-stopped" ∷ [];
  annotations = ("agent.garam.sh/pvc-uid", "pvc") ∷ [];
  volumes = [];
  init_containers = [];
  containers = "agent" ∷ [];
  init_statuses = [];
  statuses = ended_status ∷ [];
  phase = "Running";
  conditions = [];
}

abbrev node : Node
node = record { conditions = record { kind = "Ready"; status = "True" } ∷ []; taints = [] }

abbrev claim : Claim
claim = record { uid = "pvc"; created = 4; last_writer = "" }

abbrev cluster : Cluster
cluster = record {
  pod = some deleting_pod;
  nodes = ("node", node) ∷ [];
  claims = ("state-agent-0", claim) ∷ [];
  secret = none;
  evidence = none;
  placement = none;
  condition = FenceCondition.unset;
}
