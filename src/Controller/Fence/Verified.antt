-- ===== src/Controller/Fence/Verified.antt =====
-- What the evidence that a Pod's writers stopped rests on.
use garam_agent_operator.Prelude.{
  ◌≤◌, ◌≡◌, ◌≢◌, ◌⊎◌, refl, String, true, false, Option, none, some, Option-cases, Bool-cases, inl,
  inr, List, [], ◌∷◌, ◌++◌, All, ◌==◌, ◌!=◌, string_eq, ℕ_eq, arith, ap, ◌∙◌, if◌then◌else◌,
}
use text.Mathlib.TextEquality.{eq_iff}
use garam_agent_operator.Map.{Map, get, get_or}
use garam_agent_operator.Handler.{done}
use garam_agent_operator.Controller.Cluster.{
  Terminated, ContainerStatus, NodeCondition, Pod, Node, Claim, TerminatedContainer, Evidence,
  Reason, Cluster,
}
use garam_agent_operator.Controller.Fence.{
  Turn, Reading, read, refused, Writer, ended, never_created, held, ready_of, read_node, read_claim,
  claim_of_pod, statuses_of, writers_of, was_never_created, is_never_created_refused, is_ready,
  is_disrupted, contains, writer_of, terminated_each, terminated_writers, read_fence,
  pvc_uid_annotation,
}

-- A writer is seen terminated, with the container that terminated; or it was never created, in a Pod
-- that the kubelet made terminal on a node that is Ready and in service.
pub data IsStopped (pod : Pod) (node : Node) : Option ContainerStatus → Type 0 where
  terminated :
      {s : ContainerStatus} (t : Terminated)
      → s.state.running ≡ false
      → s.state.waiting ≡ false
      → s.state.terminated ≡ some t
      → t.container_id ≢ ""
      → IsStopped pod node (some s)
  never_started :
      {s : ContainerStatus}
      → s.container_id ≡ ""
      → s.restart_count ≡ 0
      → s.state.running ≡ false
      → s.state.terminated ≡ none
      → (pod.phase ≡ "Failed") ⊎ (pod.phase ≡ "Succeeded")
      → is_ready node.conditions ≡ true
      → contains "node.kubernetes.io/out-of-service" node.taints ≡ false
      → is_disrupted pod.conditions ≡ false
      → IsStopped pod node (some s)

writer_of-IsStopped :
    (pod : Pod) (node : Node) (name : String) (o : Option ContainerStatus)
    → ((r : Reason) → writer_of pod node name o ≢ held r)
    → IsStopped pod node o
unfolding writer_of was_never_created is_never_created_refused
writer_of-IsStopped pod node name none h = absurd (h Reason.no_container_status refl)
writer_of-IsStopped pod node name (some s) h = elim (Bool-cases (was_never_created s)) [
  | inl never ↦ elim (Bool-cases (is_never_created_refused pod node)) [
    | inl refuse ↦ absurd (
        h (if s.state.waiting then Reason.container_waiting else Reason.no_container_status)
          (ground arith))
    | inr fine ↦
        never_started (ground (arith, eq_iff s.container_id "")) (ground arith) (ground arith)
          (ground arith)
          (elim (Bool-cases (pod.phase == "Failed")) [
            | inl failed ↦ inl ((eq_iff pod.phase "Failed").0 failed)
            | inr other ↦ inr (ground (arith, eq_iff pod.phase "Succeeded"))
          ])
          (ground arith) (ground arith) (ground arith)
  ]
  | inr once ↦ elim (Bool-cases s.state.running) [
    | inl e ↦ absurd (h Reason.container_running (ground arith))
    | inr e ↦ elim (Bool-cases s.state.waiting) [
      | inl f ↦ absurd (h Reason.container_waiting (ground arith))
      | inr f ↦ elim (Option-cases s.state.terminated) [
        | inl g ↦ absurd (h Reason.no_container_status (ground arith))
        | inr (t, g) ↦ elim (Bool-cases (t.container_id == "")) [
          | inl l ↦ absurd (h Reason.no_container_status (ground arith))
          | inr l ↦ terminated t e f g (ground (arith, eq_iff t.container_id ""))
        ]
      ]
    ]
  ]
]

-- What the evidence of a deleting Pod rests on.
pub data IsVerified (turn : Turn) (pod : Pod) (k : Cluster) (e : Evidence) : Type 0 where
  never_scheduled : pod.node_name ≡ "" → e.pod_uid ≡ pod.uid → IsVerified turn pod k e
  all_stopped :
      (node : Node) (claim : Claim)
      → e.pod_uid ≡ pod.uid
      → e.pvc_uid ≡ claim.uid
      → get pod.node_name k.nodes ≡ some node
      → ready_of node node.conditions ≡ read node
      → get (claim_of_pod turn pod) k.claims ≡ some claim
      → get_or "" pvc_uid_annotation pod.annotations ≡ claim.uid
      → claim.created ≤ pod.created
      → All
          (λ (name : String).
            IsStopped pod node (get name (statuses_of (pod.init_statuses ++ pod.statuses) [])))
          (writers_of pod)
      → IsVerified turn pod k e

pub Reading-cases :
    {A : Type 0} (r : Reading A) → ((a : A) × (r ≡ read a)) ⊎ ((x : Reason) × (r ≡ refused x))
Reading-cases (read a) = inl (a, refl)
Reading-cases (refused x) = inr (x, refl)

Writer-cases :
    (w : Writer)
    → ((t : TerminatedContainer) × (w ≡ ended t))
      ⊎ (w ≡ never_created)
      ⊎ ((x : Reason) × (w ≡ held x))
Writer-cases (ended t) = inl (t, refl)
Writer-cases never_created = inr (inl refl)
Writer-cases (held x) = inr (inr (x, refl))

ready_of-same : (n m : Node) (cs : List NodeCondition) → ready_of n cs ≡ read m → m ≡ n
unfolding ready_of
ready_of-same n m [] h = absurd (ground arith)
ready_of-same n m (c ∷ rest) h = elim (Bool-cases (c.kind != "Ready")) [
  | inl other ↦ ready_of-same n m rest (ground arith)
  | inr hit ↦ elim (Bool-cases (c.status == "Unknown")) [
    | inl unknown ↦ absurd (ground arith)
    | inr known ↦ ground arith
  ]
]

terminated_each-IsStopped :
    (pod : Pod) (node : Node) (m : Map String ContainerStatus) (names : List String)
    (x : List TerminatedContainer × List String)
    → terminated_each pod node m names ≡ read x
    → All (λ (name : String). IsStopped pod node (get name m)) names
unfolding terminated_each
terminated_each-IsStopped pod node m [] x h = tt
terminated_each-IsStopped pod node m (name ∷ rest) x h =
    let w = writer_of pod node name (get name m) in
    elim (Reading-cases (terminated_each pod node m rest)) [
      | inr (r, e) ↦ elim (Writer-cases w) [
        | inl (t, f) ↦ absurd (ground arith)
        | inr (inl f) ↦ absurd (ground arith)
        | inr (inr (y, f)) ↦ absurd (ground arith)
      ]
      | inl (y, e) ↦ elim (Writer-cases w) [
        | inl (t, f) ↦ (
          writer_of-IsStopped pod node name (get name m) (λ r g. absurd (ground arith)),
          terminated_each-IsStopped pod node m rest y e,
        )
        | inr (inl f) ↦ (
          writer_of-IsStopped pod node name (get name m) (λ r g. absurd (ground arith)),
          terminated_each-IsStopped pod node m rest y e,
        )
        | inr (inr (r, f)) ↦ absurd (ground arith)
      ]
    ]

pub read_fence-IsVerified :
    (turn : Turn) (pod : Pod) (k : Cluster) (e : Evidence)
    → read_fence turn pod k ≡ done (read e)
    → IsVerified turn pod k e
unfolding read_fence read_node read_claim terminated_writers
read_fence-IsVerified turn pod k e h = elim (Bool-cases (pod.node_name == "")) [
  | inl free ↦ never_scheduled ((eq_iff pod.node_name "").0 free) (ground arith)
  | inr scheduled ↦ elim (Option-cases (get pod.node_name k.nodes)) [
    | inl f ↦ absurd (ground arith)
    | inr (node, f) ↦ elim (Reading-cases (ready_of node node.conditions)) [
      | inr (r, g) ↦ absurd (ground arith)
      | inl (m, g) ↦
          let same : m ≡ node = ready_of-same node m node.conditions g in
          elim (Option-cases (get (claim_of_pod turn pod) k.claims)) [
            | inl c ↦ absurd (ground arith)
            | inr (claim, c) ↦ elim (Reading-cases (terminated_writers pod node)) [
              | inr (r, l) ↦ absurd (ground (arith, l))
              | inl (x, l) ↦
                  all_stopped node claim (ground arith) (ground arith) f (g ∙ ap read same) c
                    (ground
                      (arith, eq_iff (get_or "" pvc_uid_annotation pod.annotations) claim.uid))
                    (ground arith)
                    (terminated_each-IsStopped pod node
                      (statuses_of (pod.init_statuses ++ pod.statuses) []) (writers_of pod) x l)
            ]
          ]
    ]
  ]
]
