-- ===== src/Repository/Recoveries.antt =====
-- memory_lifecycle.go: the credential recoveries of agents.
use garam_agent_operator.Prelude.{
  ℕ, String, Bool, true, false, not, ◌&&◌, Option, none, some, List, [], ◌∷◌, ◌++◌, ◌==◌, ◌!=◌,
  string_eq, ℕ_eq, int64_succ, if◌then◌else◌, last?, get_elem?, set, index_of, find,
}
use garam_agent_operator.Map.{Map, put, get_or}
use garam_agent_operator.Exec.{Exec}
use garam_agent_operator.Definition.Errors.{Error, ok, err, panic}
use garam_agent_operator.Definition.Types.{RequestKey, Recovery, RecoveryStage, OpenRecovery}
use garam_agent_operator.Definition.Equalities.{request_key_eq}
use garam_agent_operator.Repository.{Memory}

-- `r.Stage != RecoveryFinalized`
abbrev pub is_open : Recovery → Bool
is_open r = elim r.stage [ RecoveryStage.finalized ↦ false | _ ↦ true ]

-- `bytes.Equal`
abbrev pub bytes_equal : List ℕ → List ℕ → Bool
bytes_equal [] [] = true
bytes_equal (a ∷ as') (b ∷ bs) = a == b && bytes_equal as' bs
bytes_equal _ _ = false

-- The nested loop of `OpenRecovery` over every recovery of every agent.
abbrev pub recovery_under : RequestKey → Map String (List Recovery) → Option Recovery
recovery_under key [] = none
recovery_under key ((_, recoveries) ∷ rest) = elim (find (λ r. r.key == key) recoveries) [
  | some stored ↦ some stored
  | none ↦ recovery_under key rest
]

module _ {S : Type 0} where
  abbrev pub recoveries_of : String → Memory S → List Recovery
  recoveries_of agent m = get_or [] agent m.recoveries

  unfoldable pub open_recovery_locked : String → Memory S → Option OpenRecovery
  open_recovery_locked agent m = elim (find is_open (recoveries_of agent m)) [
    | none ↦ none
    | some r ↦ some (record { request_id = r.request_id; epoch = r.epoch })
  ]

  unfoldable pub recovery_locked : String → String → Memory S → Option ℕ
  recovery_locked agent request_id m =
      index_of (λ r. r.request_id == request_id) (recoveries_of agent m)

  unfoldable pub open_recovery : Recovery → Exec (Memory S) (Recovery × Bool)
  open_recovery r m = elim (recovery_under r.key m.recoveries) [
    | some stored ↦ (ok (stored, false), m)
    | none ↦ elim (recovery_locked r.agent r.request_id m) [
      | some _ ↦ (err Error.request_reused, m)
      | none ↦ elim (open_recovery_locked r.agent m) [
        | some _ ↦ (err Error.recovery_open, m)
        | none ↦ (
          ok (r, true),
          record m {
            recoveries = put r.agent (recoveries_of r.agent m ++ r ∷ []) m.recoveries;
            position = int64_succ m.position;
          },
        )
      ]
    ]
  ]

  unfoldable pub latest_recovery : String → Exec (Memory S) Recovery
  latest_recovery agent m = elim (last? (recoveries_of agent m)) [
    | none ↦ (err Error.not_found, m)
    | some r ↦ (ok r, m)
  ]

  -- `r := &m.recoveries[agent][i]` and what is assigned through it.
  abbrev pub write_recovery : String → ℕ → Recovery → Memory S → Memory S
  write_recovery agent i r m = record m {
    recoveries = put agent (set (recoveries_of agent m) i r) m.recoveries;
  }

  unfoldable pub prepare_found : String → ℕ → Recovery → String → List ℕ → Exec (Memory S) Recovery
  prepare_found agent i r epoch body m =
      if r.epoch != epoch then (err Error.recovery_epoch, m) else elim r.stage [
        | RecoveryStage.requested ↦
            let r' : Recovery = record r { stage = RecoveryStage.prepared; body = body } in
            (ok r', write_recovery agent i r' m)
        | RecoveryStage.finalized ↦
            if not (bytes_equal r.body body) then (err Error.recovery_stage, m) else (ok r, m)
        | RecoveryStage.prepared ↦
            if not (bytes_equal r.body body) then (err Error.request_reused, m) else (ok r, m)
      ]

  unfoldable pub prepare_recovery : String → String → String → List ℕ → Exec (Memory S) Recovery
  unfolding prepare_found
  prepare_recovery agent request_id epoch body m = elim (recovery_locked agent request_id m) [
    | none ↦ (err Error.not_found, m)
    | some i ↦ elim (get_elem? (recoveries_of agent m) i) [
      | none ↦ (panic, m)
      | some r ↦ prepare_found agent i r epoch body m
    ]
  ]

  unfoldable pub finalize_found : String → ℕ → Recovery → String → Exec (Memory S) Recovery
  finalize_found agent i r lineage m = elim r.stage [
    | RecoveryStage.finalized ↦ (ok r, m)
    | RecoveryStage.prepared ↦
        let r' : Recovery = record r {
          stage = RecoveryStage.finalized;
          recovered = some lineage;
        } in
        (ok r', record (write_recovery agent i r' m) { position = int64_succ m.position })
    | RecoveryStage.requested ↦ (err Error.recovery_stage, m)
  ]

  unfoldable pub finalize_recovery : String → String → String → Exec (Memory S) Recovery
  unfolding finalize_found
  finalize_recovery agent request_id lineage m = elim (recovery_locked agent request_id m) [
    | none ↦ (err Error.not_found, m)
    | some i ↦ elim (get_elem? (recoveries_of agent m) i) [
      | none ↦ (panic, m)
      | some r ↦ finalize_found agent i r lineage m
    ]
  ]
