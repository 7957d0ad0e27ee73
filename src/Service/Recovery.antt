-- ===== src/Service/Recovery.antt =====
-- internal/definition/recovery.go. `quote` is encoding/json's text of a string, quotes included.
use garam_agent_operator.Prelude.{
  ℕ, String, Bool, ◌||◌, none, some, List, [], ◌++◌, ◌!=◌, string_eq, ℕ_eq, if◌then◌else◌,
}
use garam_agent_operator.Exec.{Exec, pure, raise, ◌>>=◌}
use garam_agent_operator.Definition.Errors.{Error}
use garam_agent_operator.Repository.{Memory}
use garam_agent_operator.Text.{codes}
use garam_agent_operator.Definition.Types.{
  Recovery, RecoveryStage, RecoveryRequest, OpenRecoveryInput,
}
use garam_agent_operator.Definition.Equalities.{binding_eq}
use garam_agent_operator.Repository.Revisions.{get_definition}
use garam_agent_operator.Repository.Recoveries

-- `RecoveryBody`: {"requestId":…,"epoch":…}
unfoldable pub recovery_body : (quote : String → List ℕ) → RecoveryRequest → List ℕ
recovery_body quote r =
    codes "{"
    ++ (quote "requestId"
        ++ (codes ":"
            ++ (quote r.request_id
                ++ (codes "," ++ (quote "epoch" ++ (codes ":" ++ (quote r.epoch ++ codes "}")))))))

module _ {S : Type 0} where
  unfoldable pub open_recovery : OpenRecoveryInput → Exec (Memory S) (Recovery × Bool)
  open_recovery input = do
    d ← get_definition input.agent
    if d.organization != input.key.organization then raise Error.not_found else elim d.assignment [
      | none ↦ raise Error.unnamed
      | some assignment ↦ do
        (stored, first) ← Recoveries.open_recovery (record {
          agent = input.agent;
          request_id = input.request_id;
          key = input.key;
          binding = input.binding;
          epoch = assignment.epoch;
          stage = RecoveryStage.requested;
          body = [];
          recovered = none;
        })
        if stored.agent != input.agent
              || stored.request_id != input.request_id
              || stored.binding != input.binding
            then raise Error.request_reused
            else pure (stored, first)
    ]

  unfoldable pub recovery_of : String → String → Exec (Memory S) Recovery
  recovery_of org agent = do
    r ← Recoveries.latest_recovery agent
    if r.key.organization != org then raise Error.not_found else pure r

  unfoldable pub prepare_recovery :
      (quote : String → List ℕ) → String → RecoveryRequest → Exec (Memory S) Recovery
  prepare_recovery quote agent r =
      Recoveries.prepare_recovery agent r.request_id r.epoch (recovery_body quote r)
