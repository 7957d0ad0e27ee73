-- ===== src/Repository/Revisions.antt =====
-- memory.go: agents' revisions, configure requests and the desired feed.
use garam_agent_operator.Prelude.{
  ℕ, ◌+◌, String, Bool, true, false, ◌&&◌, Option, none, some, List, [], ◌∷◌, ◌++◌, ◌==◌, ◌!=◌,
  string_eq, ℕ_eq, ltb, int64_succ, if◌then◌else◌, length, last?, take, sort_by,
}
use garam_agent_operator.Map.{Map, get, put, get_or, find_value}
use garam_agent_operator.Exec.{Exec}
use garam_agent_operator.Definition.Errors.{Error, Result, ok, err, panic}
use garam_agent_operator.Definition.Types.{
  Definition, Request, RequestOutcome, DesiredRevision, DesiredPage,
}
use garam_agent_operator.Definition.Equalities.{request_key_eq}
use garam_agent_operator.Repository.{Memory, version_at}
use garam_agent_operator.Repository.Publishing.{profile_versions}
use garam_agent_operator.Repository.Stops.{current_stop_locked}
use garam_agent_operator.Repository.Recoveries.{open_recovery_locked}

-- An entry of `found` in `Desired`.
pub record Owed (S : Type 0) : Type 0 where
  pub revision : DesiredRevision S
  pub position : ℕ

-- `applied, ok := r.Outcome.(Applied); ok && r.Agent == agent && applied.Revision == revision`
unfoldable pub applied_as : String → ℕ → Request → Bool
applied_as agent revision r = elim r.outcome [
  | none ↦ false
  | some outcome ↦ elim outcome [
    | RequestOutcome.applied applied ↦ r.agent == agent && applied == revision
    | RequestOutcome.stale ↦ false
  ]
]

module _ {S : Type 0} where
  abbrev pub revisions_of : String → Memory S → List Definition
  revisions_of agent m = get_or [] agent m.definitions

  abbrev pub positions_of : String → Memory S → List ℕ
  positions_of agent m = get_or [] agent m.positions

  -- `appendLocked`: whether the revision was stored, and the store after it.
  unfoldable pub append_locked : Definition → Exec (Memory S) (Unit {0})
  append_locked d m =
      if d.revision != length (revisions_of d.agent m) + 1 then (err Error.stale_revision, m) else (
        ok tt,
        record m {
          position = int64_succ m.position;
          definitions = put d.agent (revisions_of d.agent m ++ d ∷ []) m.definitions;
          positions =
              put d.agent (positions_of d.agent m ++ int64_succ m.position ∷ []) m.positions;
        },
      )

  -- `m.requests[r.Key] = r`, with its outcome.
  abbrev pub store_request : Request → RequestOutcome → Exec (Memory S) Request
  store_request r outcome m =
      let r' : Request = record r { outcome = some outcome } in
      (ok r', record m { requests = put r.key r' m.requests })

  -- A new request of an agent that has revisions in its organization.
  unfoldable pub configure_new : Request → Definition → Exec (Memory S) Request
  unfolding append_locked
  configure_new r d m =
      let (stored, m') = append_locked d m in
      elim stored [
        | ok _ ↦ store_request r (RequestOutcome.applied d.revision) m'
        | _ ↦ store_request r RequestOutcome.stale m'
      ]

  unfoldable pub configure : Request → Definition → Exec (Memory S) Request
  unfolding configure_new
  configure r d m = elim (get r.key m.requests) [
    | some stored ↦ (ok stored, m)
    | none ↦ elim (revisions_of d.agent m) [
      | [] ↦ (err Error.not_found, m)
      | first ∷ _ ↦
          if first.organization != d.organization
          then (err Error.not_found, m)
          else configure_new r d m
    ]
  ]

  unfoldable pub get_definition : String → Exec (Memory S) Definition
  get_definition agent m = elim (last? (revisions_of agent m)) [
    | none ↦ (err Error.not_found, m)
    | some d ↦ (ok d, m)
  ]

  unfoldable pub position : Exec (Memory S) ℕ
  position m = (ok m.position, m)

  -- One round of the loop of `Desired`: nothing where the agent is not the controller's.
  unfoldable pub owed_of : Memory S → String → String → List Definition → Result (Option (Owed S))
  owed_of m operator agent revisions = elim (last? revisions) [
    | none ↦ panic
    | some latest ↦ elim latest.assignment [
      | none ↦ ok none
      | some assignment ↦
          if assignment.operator != operator
          then ok none
          else elim (version_at (profile_versions latest.organization latest.profile.name m)
              latest.profile.version) [
                | none ↦ panic
                | some profile ↦ elim (version_at (positions_of agent m) (length revisions)) [
                  | none ↦ panic
                  | some position ↦ ok (
                      some (record {
                        revision = record {
                          definition = latest;
                          settings = profile.settings;
                          stopped = elim (current_stop_locked agent m) [
                            | none ↦ false
                            | some _ ↦ true
                          ];
                          recovery = open_recovery_locked agent m;
                        };
                        position = position;
                      }))
                ]
              ]
    ]
  ]

  abbrev pub add_owed : Result (Option (Owed S)) → Result (List (Owed S)) → Result (List (Owed S))
  add_owed (ok none) rest = rest
  add_owed (ok (some o)) (ok found) = ok (o ∷ found)
  add_owed (ok (some o)) (err e) = err e
  add_owed (ok (some o)) panic = panic
  add_owed (err e) rest = err e
  add_owed panic rest = panic

  -- The loop of `Desired`.
  unfoldable pub owed_to : Memory S → String → Map String (List Definition) → Result (List (Owed S))
  owed_to m operator [] = ok []
  owed_to m operator ((agent, revisions) ∷ rest) =
      add_owed (owed_of m operator agent revisions) (owed_to m operator rest)

  abbrev pub earlier : Owed S → Owed S → Bool
  earlier a b = ltb a.position b.position

  abbrev pub revisions_in : List (Owed S) → List (DesiredRevision S)
  revisions_in [] = []
  revisions_in (o ∷ rest) = o.revision ∷ revisions_in rest

  unfoldable pub desired : String → ℕ → Exec (Memory S) (DesiredPage S)
  desired operator limit m = elim (owed_to m operator m.definitions) [
    | ok found ↦ (
      ok (record {
        position = m.position;
        revisions = revisions_in (take limit (sort_by earlier found));
      }),
      m,
    )
    | err e ↦ (err e, m)
    | panic ↦ (panic, m)
  ]

  unfoldable pub configure_reference : String → ℕ → Exec (Memory S) String
  unfolding applied_as
  configure_reference agent revision m = elim (find_value (applied_as agent revision) m.requests) [
    | none ↦ (err Error.not_found, m)
    | some r ↦ (ok r.binding.operation_ref, m)
  ]
