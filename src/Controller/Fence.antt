-- ===== src/Controller/Fence.antt =====
-- internal/controller/agent_fence.go: how the fence of a deleting Pod is read.
pub mod Verified
pub mod Release
pub mod Released
use garam_agent_operator.Prelude.{
  ℕ, String, Bool, true, false, not, ◌&&◌, ◌||◌, Option, none, some, List, [], ◌∷◌, ◌++◌, ◌==◌,
  ◌!=◌, string_eq, ℕ_eq, ltb, if◌then◌else◌,
}
use garam_agent_operator.Map.{Map, get, put, get_or}
use garam_agent_operator.Handler.{
  Outcome, done, fails, panics, Handler as HandlerOf, answer, fail, ◌>>=◌, ◌>>◌,
}
use garam_agent_operator.Controller.Cluster.{
  Terminated, ContainerState, ContainerStatus, PodCondition, NodeCondition, InitContainer, Volume,
  Pod, Node, Claim, TerminatedContainer, Evidence, Secret, Reason, FenceCondition, Placement,
  Cluster,
}

-- A call of the API server, of the random source or of the encoder failed.
pub data FenceError : Type 0 where
  call_failed : FenceError

abbrev pub Handler : Type 0 → Type 0
Handler A = HandlerOf FenceError Cluster A

-- `lastWriter`, where the state is `running` or `stopped`.
pub record LastWriter : Type 0 where
  pub pod_uid : String
  pub is_stopped : Bool
  pub exit_code : Option ℕ

-- What a reconciliation meets: the clock, the name of the StatefulSet's claim, whether garam's adapter
-- is built, which of its calls fail, the tokens that the random source brings, and what the encoders do.
-- Where a patch does not find the Secret, the read after it, which is of a cache, may find one all the
-- same, and its creation may meet one; a patch of the Pod may find it gone.
pub record Turn : Type 0 where
  pub now : ℕ
  pub own_claim : String
  pub adapter_built : Bool
  pub get_pod_fails : Bool
  pub get_node_fails : Bool
  pub get_claim_fails : Bool
  pub get_stopped_claim_fails : Bool
  pub patch_status_fails : Bool
  pub patch_secret_fails : Bool
  pub get_secret_fails : Bool
  pub get_secret_finds : Bool
  pub create_secret_fails : Bool
  pub create_secret_exists : Bool
  pub patch_claim_fails : Bool
  pub patch_pod_fails : Bool
  pub pod_is_gone : Bool
  pub token : Option String
  pub created_token : Option String
  pub digest : Evidence → Option String
  pub encode : LastWriter → String

-- `writerStoppedFinalizer`, `pvcUIDAnnotation`, `stateVolumeName` and `agentContainerName`
abbrev pub writer_stopped_finalizer : String
writer_stopped_finalizer = "agent.garam.sh/writer-stopped"

abbrev pub pvc_uid_annotation : String
pvc_uid_annotation = "agent.garam.sh/pvc-uid"

abbrev pub state_volume : String
state_volume = "state"

abbrev pub agent_container : String
agent_container = "agent"

abbrev pub contains : String → List String → Bool
contains s [] = false
contains s (x ∷ rest) = x == s || contains s rest

abbrev pub without : String → List String → List String
without s [] = []
without s (x ∷ rest) = let more = without s rest in if x == s then more else x ∷ more

-- `podStateClaim`
abbrev pub pod_state_claim : List Volume → String
pod_state_claim [] = ""
pod_state_claim (v ∷ rest) =
    let more = pod_state_claim rest in
    elim v.claim [ none ↦ more | some claim ↦ if v.name == state_volume then claim else more ]

-- `claimOfPod`
unfoldable pub claim_of_pod : Turn → Pod → String
claim_of_pod turn pod =
    if pod_state_claim pod.volumes != "" then pod_state_claim pod.volumes else turn.own_claim

-- What was read, or why the fence is not verified.
pub data Reading (A : Type 0) : Type 0 where
  read : A → Reading A
  refused : Reason → Reading A

-- The loop over a node's conditions, to the first `Ready`.
unfoldable pub ready_of : Node → List NodeCondition → Reading Node
ready_of n [] = refused Reason.node_unknown
ready_of n (c ∷ rest) =
    let more = ready_of n rest in
    if c.kind != "Ready"
    then more
    else if c.status == "Unknown"
    then refused Reason.node_unknown
    else read n

-- `readNode`
unfoldable pub read_node : Turn → String → Cluster → Outcome FenceError (Reading Node)
unfolding ready_of
read_node turn name k = if turn.get_node_fails then fails call_failed else elim (get name k.nodes) [
  | none ↦ done (refused Reason.node_unknown)
  | some n ↦ done (ready_of n n.conditions)
]

-- `readClaim`
unfoldable pub read_claim : Turn → Pod → Cluster → Outcome FenceError (Reading String)
unfolding claim_of_pod
read_claim turn pod k =
    if turn.get_claim_fails
    then fails call_failed
    else elim (get (claim_of_pod turn pod) k.claims) [
      | none ↦ done (refused Reason.pvc_changed)
      | some claim ↦
          if get_or "" pvc_uid_annotation pod.annotations != claim.uid
            || ltb pod.created claim.created
          then done (refused Reason.pvc_changed)
          else done (read claim.uid)
    ]

abbrev pub statuses_of :
    List ContainerStatus → Map String ContainerStatus → Map String ContainerStatus
statuses_of [] m = m
statuses_of (s ∷ rest) m = statuses_of rest (put s.name s m)

-- The init containers that keep running.
abbrev pub kept_running : List InitContainer → List String
kept_running [] = []
kept_running (c ∷ rest) = let more = kept_running rest in if c.restarts then c.name ∷ more else more

-- The containers that could write the agent's state.
abbrev pub writers_of : Pod → List String
writers_of pod = kept_running pod.init_containers ++ pod.containers

-- `state == (corev1.ContainerState{})`
abbrev pub is_empty_state : ContainerState → Bool
is_empty_state s =
    not s.running && not s.waiting && (elim s.terminated [ none ↦ true | some t ↦ false ])

-- `wasNeverCreated`
unfoldable pub was_never_created : ContainerStatus → Bool
was_never_created s =
    s.container_id == ""
    && s.restart_count == 0
    && is_empty_state s.last_state
    && not s.state.running
    && (elim s.state.terminated [ none ↦ true | some t ↦ false ])

abbrev pub is_ready : List NodeCondition → Bool
is_ready [] = false
is_ready (c ∷ rest) = (c.kind == "Ready" && c.status == "True") || is_ready rest

abbrev pub is_disrupted : List PodCondition → Bool
is_disrupted [] = false
is_disrupted (c ∷ rest) =
    (c.kind == "DisruptionTarget" && c.reason != "TerminationByKubelet") || is_disrupted rest

-- `neverCreatedRefusal`: whether it answers a reason.
unfoldable pub is_never_created_refused : Pod → Node → Bool
is_never_created_refused pod node =
    (pod.phase != "Failed" && pod.phase != "Succeeded")
    || not (is_ready node.conditions)
    || contains "node.kubernetes.io/out-of-service" node.taints
    || is_disrupted pod.conditions

pub data Writer : Type 0 where
  ended : TerminatedContainer → Writer
  never_created : Writer
  held : Reason → Writer

-- The loop's body in `terminatedWriters`.
unfoldable pub writer_of : Pod → Node → String → Option ContainerStatus → Writer
unfolding was_never_created is_never_created_refused
writer_of pod node name none = held Reason.no_container_status
writer_of pod node name (some s) =
    if was_never_created s
    then (if is_never_created_refused pod node
        then held (if s.state.waiting then Reason.container_waiting else Reason.no_container_status)
        else never_created)
    else if s.state.running
    then held Reason.container_running
    else if s.state.waiting
    then held Reason.container_waiting
    else elim s.state.terminated [
      | none ↦ held Reason.no_container_status
      | some t ↦
          if t.container_id == ""
          then held Reason.no_container_status
          else ended (record {
            name = name;
            container_id = t.container_id;
            exit_code = t.exit_code;
            finished_at = t.finished_at;
          })
    ]

unfoldable pub terminated_each :
    Pod
    → Node
    → Map String ContainerStatus
    → List String
    → Reading (List TerminatedContainer × List String)
unfolding writer_of
terminated_each pod node statuses [] = read ([], [])
terminated_each pod node statuses (name ∷ rest) =
    let more = terminated_each pod node statuses rest in
    elim (writer_of pod node name (get name statuses)) [
      | held reason ↦ refused reason
      | never_created ↦ elim more [
        | refused reason ↦ refused reason
        | read (ts, ns) ↦ read (ts, name ∷ ns)
      ]
      | ended t ↦ elim more [ refused reason ↦ refused reason | read (ts, ns) ↦ read (t ∷ ts, ns) ]
    ]

-- `terminatedWriters`
unfoldable pub terminated_writers : Pod → Node → Reading (List TerminatedContainer × List String)
unfolding terminated_each
terminated_writers pod node =
    terminated_each pod node (statuses_of (pod.init_statuses ++ pod.statuses) []) (writers_of pod)

abbrev pub evidence_of : Turn → Pod → String → List TerminatedContainer → List String → Evidence
evidence_of turn pod pvc_uid ts ns = record {
  pod_uid = pod.uid;
  pvc_uid = pvc_uid;
  containers = ts;
  never_created = ns;
  pod_phase = elim ns [ [] ↦ "" | n ∷ more ↦ pod.phase ];
  observed_at = turn.now;
}

-- `readFence`
unfoldable pub read_fence : Turn → Pod → Cluster → Outcome FenceError (Reading Evidence)
unfolding read_node read_claim terminated_writers
read_fence turn pod k =
    if pod.node_name == ""
    then done (read (evidence_of turn pod "" [] []))
    else elim (read_node turn pod.node_name k) [
      | fails e ↦ fails e
      | panics ↦ panics
      | done (refused reason) ↦ done (refused reason)
      | done (read node) ↦ elim (read_claim turn pod k) [
        | fails e ↦ fails e
        | panics ↦ panics
        | done (refused reason) ↦ done (refused reason)
        | done (read pvc_uid) ↦ elim (terminated_writers pod node) [
          | refused reason ↦ done (refused reason)
          | read (ts, ns) ↦ done (read (evidence_of turn pod pvc_uid ts ns))
        ]
      ]
    ]
