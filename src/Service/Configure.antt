-- ===== src/Service/Configure.antt =====
-- internal/definition/configure.go.
use garam_agent_operator.Prelude.{
  ℕ, not, ◌||◌, none, some, ◌!=◌, string_eq, ℕ_eq, int64_succ, if◌then◌else◌,
}
use garam_agent_operator.Exec.{Exec, raise, lift, optional, ◌>>=◌, ◌>>◌}
use garam_agent_operator.Definition.Errors.{Error, Result, ok, err}
use garam_agent_operator.Repository.{Memory}
use garam_agent_operator.SecretRef.{Validation}
use garam_agent_operator.Definition.Types.{ConfigureInput, Definition, Request, RequestOutcome}
use garam_agent_operator.Definition.Equalities.{binding_eq}
use garam_agent_operator.Repository.Publishing.{get_profile}
use garam_agent_operator.Repository.Revisions
use garam_agent_operator.Repository.Revisions.{get_definition}
use garam_agent_operator.Service.Checks.{check_config, same_endpoint}

-- The embedding of the agent's latest revision against the request's.
unfoldable pub embedding_kept_from : ConfigureInput → Definition → Result (Unit {0})
embedding_kept_from input latest = elim latest.config.model.embedding [
  | none ↦ ok tt
  | some was ↦
      if latest.organization != input.request.organization
        || latest.revision != input.expected_revision
      then ok tt
      else if not (same_endpoint input.config.model.embedding was)
      then err Error.embedding_immutable
      else ok tt
]

abbrev pub next_definition : ConfigureInput → Definition
next_definition input = record {
  agent = input.agent;
  organization = input.request.organization;
  revision = int64_succ input.expected_revision;
  profile = input.profile;
  config = input.config;
  assignment = some input.binding.assignment;
}

abbrev pub request_of : ConfigureInput → Request
request_of input = record {
  key = input.request;
  binding = input.binding;
  agent = input.agent;
  outcome = none;
}

-- The `switch` on the stored outcome; the revision applied.
unfoldable pub answer_of : Request → Result ℕ
answer_of stored = elim stored.outcome [
  | none ↦ err Error.unnamed
  | some outcome ↦ elim outcome [
    | RequestOutcome.applied revision ↦ ok revision
    | RequestOutcome.stale ↦ err Error.stale_revision
  ]
]

module _ {S : Type 0} where
  unfoldable pub embedding_kept : ConfigureInput → Exec (Memory S) (Unit {0})
  unfolding embedding_kept_from
  embedding_kept input = do
    found ← optional (get_definition input.agent)
    lift (elim found [ none ↦ ok tt | some latest ↦ embedding_kept_from input latest ])

  unfoldable pub configure : Validation → ConfigureInput → Exec (Memory S) ℕ
  unfolding answer_of
  configure v input = do
    lift (check_config v input.config)
    get_profile input.request.organization input.profile
    embedding_kept input
    stored ← Revisions.configure (request_of input) (next_definition input)
    if stored.binding != input.binding || stored.agent != input.agent
        then raise Error.request_reused
        else lift (answer_of stored)
