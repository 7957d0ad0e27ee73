-- ===== src/History/Recoveries/Moves.antt =====
-- What one call of the store does to the recoveries of an agent.
use garam_agent_operator.Prelude.{
  ℕ, ◌≡◌, ◌⊎◌, refl, ap, ◌∙◌, sym, subst, String, Bool, Bool-cases, none, some, List, [], ◌∷◌, ◌++◌,
  Option-cases, inl, inr, string_eq, ◌==◌, arith, get_elem?, set, find, Extends-append,
}
use text.Mathlib.TextEquality.{eq_iff}
use garam_agent_operator.Map.{get_or, put}
use garam_agent_operator.Map.Laws.{get_or-put}
use garam_agent_operator.Definition.Types.{Recovery, RecoveryStage, requested, prepared, finalized}
use garam_agent_operator.Repository.{Memory}
use garam_agent_operator.Repository.Recoveries.{
  is_open, recoveries_of, open_recovery_locked, recovery_locked, recovery_under, open_recovery,
  prepare_recovery, prepare_found, finalize_recovery, finalize_found,
}
use garam_agent_operator.Repository.Calls.{Call, step}
use garam_agent_operator.Repository.Calls.Frames.{recoveries-step}
use garam_agent_operator.History.Recoveries.Stages.{Advances, Advances-refl, Advanced, Advanced-set}
use garam_agent_operator.History.Recoveries.Order.{OpenLast, OpenLast-append, OpenLast-set}

stage_cases : (s : RecoveryStage) → (s ≡ requested) ⊎ ((s ≡ prepared) ⊎ (s ≡ finalized))
stage_cases RecoveryStage.requested = inl refl
stage_cases RecoveryStage.prepared = inr (inl refl)
stage_cases RecoveryStage.finalized = inr (inr refl)

module _ {S : Type 0} where
  -- What a call does to the recoveries of an agent: nothing, a new one where none is open, or one that
  -- advances.
  pub data Moves (m m' : Memory S) : Type 0 where
    stays : m'.recoveries ≡ m.recoveries → Moves m m'
    opens :
        (agent : String) (r : Recovery)
        → find is_open (recoveries_of agent m) ≡ none
        → m'.recoveries ≡ put agent (recoveries_of agent m ++ r ∷ []) m.recoveries
        → Moves m m'
    advances :
        (agent : String) (i : ℕ) (r r' : Recovery)
        → get_elem? (recoveries_of agent m) i ≡ some r
        → Advances r r'
        → m'.recoveries ≡ put agent (set (recoveries_of agent m) i r') m.recoveries
        → Moves m m'

  open_recovery-Moves : (r : Recovery) (m : Memory S) → Moves m (open_recovery r m).1
  unfolding open_recovery open_recovery_locked
  open_recovery-Moves r m = elim (Option-cases (recovery_under r.key m.recoveries)) [
    | inr (stored, e) ↦ stays (ground arith)
    | inl e ↦ elim (Option-cases (recovery_locked r.agent r.request_id m)) [
      | inr (i, f) ↦ stays (ground arith)
      | inl f ↦ elim (Option-cases (find is_open (recoveries_of r.agent m))) [
        | inr (o, g) ↦ stays (ground arith)
        | inl g ↦ opens r.agent r g (ground arith)
      ]
    ]
  ]

  prepare_found-Moves :
      (agent : String) (i : ℕ) (r : Recovery) (epoch : String) (body : List ℕ) (m : Memory S)
      → get_elem? (recoveries_of agent m) i ≡ some r
      → Moves m (prepare_found agent i r epoch body m).1
  unfolding prepare_found
  prepare_found-Moves agent i r epoch body m at_i = elim (Bool-cases (r.epoch == epoch)) [
    | inr other ↦ stays (ground arith)
    | inl same_epoch ↦ elim (stage_cases r.stage) [
      | inl e ↦
          let r' : Recovery = record r { stage = prepared; body = body } in
          advances agent i r r' at_i
            (record {
              agent = refl;
              request_id = refl;
              key = refl;
              binding = refl;
              epoch = refl;
              stages = ground arith;
            })
            (ground arith)
      | inr e ↦ stays (ground arith)
    ]
  ]

  prepare_recovery-Moves :
      (agent request_id epoch : String) (body : List ℕ) (m : Memory S)
      → Moves m (prepare_recovery agent request_id epoch body m).1
  unfolding prepare_recovery
  prepare_recovery-Moves agent request_id epoch body m =
      elim (Option-cases (recovery_locked agent request_id m)) [
        | inl e ↦ rw (e, prepare_recovery) (stays refl)
        | inr (i, e) ↦ elim (Option-cases (get_elem? (recoveries_of agent m) i)) [
          | inl f ↦ stays (ground arith)
          | inr (r, f) ↦
              let found : prepare_recovery agent request_id epoch body m
                  ≡ prepare_found agent i r epoch body m =
                ground arith in
              subst (λ x. Moves m x.1) (sym found) (prepare_found-Moves agent i r epoch body m f)
        ]
      ]

  finalize_found-Moves :
      (agent : String) (i : ℕ) (r : Recovery) (lineage : String) (m : Memory S)
      → get_elem? (recoveries_of agent m) i ≡ some r
      → Moves m (finalize_found agent i r lineage m).1
  unfolding finalize_found
  finalize_found-Moves agent i r lineage m at_i = elim (stage_cases r.stage) [
    | inl e ↦ stays (ground arith)
    | inr later ↦ elim later [
      | inr e ↦ stays (ground arith)
      | inl e ↦
          let r' : Recovery = record r { stage = finalized; recovered = some lineage } in
          advances agent i r r' at_i
            (record {
              agent = refl;
              request_id = refl;
              key = refl;
              binding = refl;
              epoch = refl;
              stages = ground arith;
            })
            (ground arith)
    ]
  ]

  finalize_recovery-Moves :
      (agent request_id lineage : String) (m : Memory S)
      → Moves m (finalize_recovery agent request_id lineage m).1
  unfolding finalize_recovery
  finalize_recovery-Moves agent request_id lineage m =
      elim (Option-cases (recovery_locked agent request_id m)) [
        | inl e ↦ rw (e, finalize_recovery) (stays refl)
        | inr (i, e) ↦ elim (Option-cases (get_elem? (recoveries_of agent m) i)) [
          | inl f ↦ stays (ground arith)
          | inr (r, f) ↦
              let found : finalize_recovery agent request_id lineage m
                  ≡ finalize_found agent i r lineage m =
                ground arith in
              subst (λ x. Moves m x.1) (sym found) (finalize_found-Moves agent i r lineage m f)
        ]
      ]

  pub step-Moves : (same : S → S → Bool) (m : Memory S) (c : Call S) → Moves m (step same m c)
  unfolding step
  step-Moves same m (Call.open_recovery r) = open_recovery-Moves r m
  step-Moves same m (Call.prepare_recovery agent id epoch body) =
      prepare_recovery-Moves agent id epoch body m
  step-Moves same m (Call.finalize_recovery agent id lineage) =
      finalize_recovery-Moves agent id lineage m
  step-Moves same m c = stays (recoveries-step same m c refl)

  -- What a property of lists keeps when one agent's list is written.
  pub written :
      (P : List Recovery → Type 0) (agent other : String) (xs : List Recovery) (m m' : Memory S)
      → m'.recoveries ≡ put agent xs m.recoveries
      → (agent ≡ other → P xs)
      → P (recoveries_of other m)
      → P (recoveries_of other m')
  written P agent other xs m m' e hit miss =
      subst P (sym (ap (get_or [] other) e ∙ get_or-put [] agent other xs m.recoveries))
        (elim (Bool-cases (agent == other)) [
          | inl h ↦ rw h (hit ((eq_iff agent other).0 h))
          | inr h ↦ rw h miss
        ])

  pub Moves-Advanced :
      (m m' : Memory S) (agent : String)
      → Moves m m'
      → Advanced (recoveries_of agent m) (recoveries_of agent m')
  Moves-Advanced m m' agent (stays e) = λ i r h. (r, rw e h, Advances-refl r)
  Moves-Advanced m m' agent (opens a r none_open e) =
      written (Advanced (recoveries_of agent m)) a agent (recoveries_of a m ++ r ∷ []) m m' e
        (λ same i s h. (
          s,
          Extends-append (recoveries_of a m) (r ∷ []) i s
              (subst (λ (x : String). get_elem? (recoveries_of x m) i ≡ some s) (sym same) h),
          Advances-refl s,
        ))
        (λ i s h. (s, h, Advances-refl s))
  Moves-Advanced m m' agent (advances a i r r' at_i adv e) =
      written (Advanced (recoveries_of agent m)) a agent (set (recoveries_of a m) i r') m m' e
        (λ same j s h.
          Advanced-set (recoveries_of a m) i r r' at_i adv j s
            (subst (λ (x : String). get_elem? (recoveries_of x m) j ≡ some s) (sym same) h))
        (λ j s h. (s, h, Advances-refl s))

  pub Moves-OpenLast :
      (m m' : Memory S) (agent : String)
      → Moves m m'
      → OpenLast (recoveries_of agent m)
      → OpenLast (recoveries_of agent m')
  Moves-OpenLast m m' agent (stays e) h = rw e h
  Moves-OpenLast m m' agent (opens a r none_open e) h =
      written OpenLast a agent (recoveries_of a m ++ r ∷ []) m m' e
        (λ same. OpenLast-append (recoveries_of a m) r none_open) h
  Moves-OpenLast m m' agent (advances a i r r' at_i adv e) h =
      written OpenLast a agent (set (recoveries_of a m) i r') m m' e
        (λ same.
          OpenLast-set (recoveries_of a m) i r r' at_i adv
            (subst (λ (x : String). OpenLast (recoveries_of x m)) (sym same) h))
        h
