-- ===== src/Controller/Fence/Release.antt =====
-- internal/controller/agent_fence.go: how a Pod is released, and its placement recorded.
use garam_agent_operator.Prelude.{
  ℕ, String, Bool, true, false, not, ◌&&◌, ◌||◌, Option, none, some, List, [], ◌∷◌, ◌==◌, string_eq,
  ℕ_eq, if◌then◌else◌,
}
use garam_agent_operator.Map.{get, put}
use garam_agent_operator.Handler.{done, fails, panics, answer, fail, ◌>>=◌, ◌>>◌}
use garam_agent_operator.Controller.Cluster.{
  Pod, Claim, TerminatedContainer, Evidence, FenceCondition, Cluster,
}
use garam_agent_operator.Controller.Fence.{
  call_failed, Handler, LastWriter, Turn, writer_stopped_finalizer, pvc_uid_annotation,
  agent_container, contains, without, claim_of_pod, read, refused, read_fence,
}

-- A write of the API server.
abbrev pub write : Bool → (Cluster → Cluster) → Handler (Unit {0})
write failing f k = if failing then (fails call_failed, k) else (done tt, f k)

abbrev pub set_claim : String → Claim → Cluster → Cluster
set_claim name claim k = record k { claims = put name claim k.claims }

-- `recordLastWriter`
unfoldable pub record_last_writer : Turn → String → Claim → LastWriter → Handler (Unit {0})
record_last_writer turn name claim writer =
    if claim.last_writer == turn.encode writer
    then answer tt
    else write turn.patch_claim_fails
        (set_claim name (record claim { last_writer = turn.encode writer }))

abbrev pub agent_exit : List TerminatedContainer → Option ℕ → Option ℕ
agent_exit [] found = found
agent_exit (c ∷ rest) found =
    agent_exit rest (if c.name == agent_container then some c.exit_code else found)

-- `recordStoppedWriter`
unfoldable pub record_stopped_writer : Turn → Pod → Evidence → Handler (Unit {0})
unfolding record_last_writer claim_of_pod
record_stopped_writer turn pod e k =
    if turn.get_stopped_claim_fails
    then (fails call_failed, k)
    else elim (get (claim_of_pod turn pod) k.claims) [
      | none ↦ (done tt, k)
      | some claim ↦
          record_last_writer turn (claim_of_pod turn pod) claim
            (record {
              pod_uid = pod.uid;
              is_stopped = true;
              exit_code = agent_exit e.containers none;
            })
            k
    ]

abbrev pub set_secret : String → String × String → Cluster → Cluster
set_secret token previous k = record k {
  secret = some (record { token = token; previous = some previous });
}

-- `createPlacementToken`, where a patch did not find the Secret.
unfoldable pub create_placement_token : Turn → String × String → Handler (Unit {0})
create_placement_token turn previous k =
    if turn.get_secret_fails
    then (fails call_failed, k)
    else if turn.get_secret_finds
    then (done tt, k)
    else elim turn.created_token [
      | none ↦ (fails call_failed, k)
      | some fresh ↦
          if turn.create_secret_exists
          then (done tt, k)
          else write turn.create_secret_fails (set_secret fresh previous) k
    ]

-- `mintPlacementToken`
unfoldable pub mint_placement_token : Turn → String × String → Handler (Unit {0})
unfolding create_placement_token
mint_placement_token turn previous k = elim turn.token [
  | none ↦ (fails call_failed, k)
  | some token ↦ if turn.patch_secret_fails then (fails call_failed, k) else elim k.secret [
    | some _ ↦ (done tt, set_secret token previous k)
    | none ↦ create_placement_token turn previous k
  ]
]

unfoldable pub mint_next : Turn → Pod → Evidence → Handler (Unit {0})
unfolding mint_placement_token
mint_next turn pod e = if not turn.adapter_built then answer tt else elim (turn.digest e) [
  | none ↦ fail call_failed
  | some digest ↦ mint_placement_token turn (pod.uid, digest)
]

abbrev pub released_pod : Pod → Pod
released_pod pod = record pod { finalizers = without writer_stopped_finalizer pod.finalizers }

-- `releaseFence`
unfoldable pub release_fence : Turn → Pod → Evidence → Handler (Unit {0})
unfolding mint_next record_stopped_writer
release_fence turn pod e = do
  write turn.patch_status_fails (λ k. record k { evidence = some e })
  mint_next turn pod e
  record_stopped_writer turn pod e
  write (turn.patch_pod_fails && not turn.pod_is_gone) (λ k. record k {
    pod = if turn.pod_is_gone then none else some (released_pod pod);
    condition = FenceCondition.writer_stopped;
  })

abbrev pub place : Pod → String → Cluster → Cluster
place pod uid k = record k { placement = some (record { pod_uid = pod.uid; pvc_uid = uid }) }

abbrev pub mark : Pod → String → Cluster → Cluster
mark pod uid k = record k {
  pod = some (record pod { annotations = put pvc_uid_annotation uid pod.annotations });
}

-- `recordPlacement`
unfoldable pub record_placement : Turn → Pod → Handler (Unit {0})
unfolding claim_of_pod record_last_writer
record_placement turn pod k = elim (get pvc_uid_annotation pod.annotations) [
  | some recorded ↦ (done tt, place pod recorded k)
  | none ↦
      if turn.get_claim_fails
      then (fails call_failed, k)
      else elim (get (claim_of_pod turn pod) k.claims) [
        | none ↦ (done tt, k)
        | some claim ↦
            (record_last_writer turn (claim_of_pod turn pod) claim
                  (record { pod_uid = pod.uid; is_stopped = false; exit_code = none })
                >> (write (turn.patch_pod_fails || turn.pod_is_gone) (mark pod claim.uid)
                    >> (λ (s : Cluster). (done tt, place pod claim.uid s))))
              k
      ]
]

-- What a reconciliation says of the Pod.
pub data Seen : Type 0 where
  gone present unverified : Seen

-- `reconcileFence`, once the Pod was read.
unfoldable pub reconcile_pod : Turn → Pod → Handler Seen
unfolding record_placement read_fence release_fence
reconcile_pod turn pod k =
    if not pod.is_deleting
    then (record_placement turn pod >>= (λ _. answer present)) k
    else if not (contains writer_stopped_finalizer pod.finalizers)
    then (done present, k)
    else elim (read_fence turn pod k) [
      | fails e ↦ (fails e, k)
      | panics ↦ (panics, k)
      | done (refused reason) ↦
          (done unverified, record k { condition = FenceCondition.unverified reason })
      | done (read e) ↦ (release_fence turn pod e >>= (λ _. answer present)) k
    ]

-- `reconcileFence`
unfoldable pub reconcile_fence : Turn → Handler Seen
unfolding reconcile_pod
reconcile_fence turn k =
    if turn.get_pod_fails
    then (fails call_failed, k)
    else elim k.pod [ none ↦ (done gone, k) | some pod ↦ reconcile_pod turn pod k ]
