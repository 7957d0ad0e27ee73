-- ===== src/History/Executions.antt =====
-- What is known of an agent's execution.
use garam_agent_operator.Prelude.{
  ◌≡◌, ◌≢◌, ◌↔◌, String, some, Option-cases, inl, inr, string_eq, arith, beq_refl,
}
use text.Mathlib.TextEquality.{eq_iff}
use garam_agent_operator.Map.{get}
use garam_agent_operator.Definition.Errors.{ok, Result-cases}
use garam_agent_operator.Definition.Types.{Effective, Execution, RuntimeApplied, Definition}
use garam_agent_operator.Repository.{Memory}
use garam_agent_operator.Repository.Revisions.{get_definition}
use garam_agent_operator.Repository.Statuses.{get_status, get_runtime_applied}
use garam_agent_operator.Repository.Activations.{latest_activation}
use garam_agent_operator.Service.Read.{execution, effective_of}

module _ {S : Type 0} where
  -- A runtime's report of the agent, made under the latest activation that was recorded.
  pub record IsEffective (m : Memory S) (agent : String) (e : Effective) : Type 0 where
    pub report : RuntimeApplied
    pub reported : (get_runtime_applied agent m).0 ≡ ok report
    pub latest : (latest_activation agent m).0 ≡ ok report.activation_id
    pub named : report.activation_id ≢ ""
    pub revision : e.revision ≡ report.revision
    pub generation : e.generation ≡ report.generation
    pub observed_at : e.observed_at ≡ report.observed_at

  -- What is answered of an agent's execution in its organization: it desires the latest revision, and
  -- a revision is effective exactly when a runtime reported it under the latest activation.
  pub execution-effective_iff :
      (org agent : String) (x : Execution) (e : Effective) (m : Memory S)
      → (execution org agent m).0 ≡ ok x
      → ((d : Definition) × ((get_definition agent m).0 ≡ ok d)
          × (d.organization ≡ org)
          × (x.desired ≡ d.revision))
        × ((x.effective ≡ some e) ↔ IsEffective m agent e)
  unfolding execution get_definition get_status get_runtime_applied latest_activation
  execution-effective_iff org agent x e m h = elim (Result-cases (get_definition agent m).0) [
    | inr f ↦ absurd (ground (arith, f))
    | inl (d, f) ↦ (
      (d, f, ground (arith, eq_iff d.organization org), ground arith),
      (
        λ q. elim (Option-cases (get agent m.applied)) [
          | inl g ↦ absurd (ground arith)
          | inr (a, g) ↦ elim (Option-cases (get agent m.latest)) [
            | inl k ↦ absurd (ground arith)
            | inr (l, k) ↦
                let ran : a.activation_id ≡ l =
                  ground (arith, eq_iff a.activation_id l, eq_iff l "") in
                let is : effective_of a l ≡ some e = ground arith in
                record {
                  report = a;
                  reported = ground arith;
                  latest = ground arith;
                  named = ground (arith, ran, eq_iff l "");
                  revision = ground arith;
                  generation = ground arith;
                  observed_at = ground arith;
                }
          ]
        ],
        λ q.
            let reported : get agent m.applied ≡ some q.report = ground (arith, q.reported) in
            let latest : get agent m.latest ≡ some q.report.activation_id =
              ground (arith, q.latest) in
            ground (
              arith,
              q.named,
              beq_refl q.report.activation_id,
              eq_iff q.report.activation_id "",
              q.revision,
              q.generation,
              q.observed_at,
            ),
      ),
    )
  ]
