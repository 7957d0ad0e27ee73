-- ===== src/History/Requests/Endpoints.antt =====
-- A configure request keeps the endpoint of the embedding.
use garam_agent_operator.Prelude.{
  ℕ, ◌≡◌, Bool, true, none, some, inl, List-cases, inr, ap, string_eq, ℕ_eq, arith, length,
}
use text.Mathlib.TextEquality.{eq_iff}
use garam_agent_operator.Definition.Errors.{ok}
use garam_agent_operator.Definition.Types.{Embedding, Definition, ConfigureInput}
use garam_agent_operator.Definition.Equalities.{request_key_eq, binding_eq}
use garam_agent_operator.Map.{get}
use garam_agent_operator.SecretRef.{Validation}
use garam_agent_operator.Repository.{Memory}
use garam_agent_operator.Repository.Revisions.{revisions_of, get_definition}
use garam_agent_operator.Service.Configure
use garam_agent_operator.Service.Checks.{same_endpoint}
use garam_agent_operator.History.Reach.{Reachable}
use garam_agent_operator.History.Revisions.Invariant.{IsHistory-before, Reachable-Inv}
use garam_agent_operator.History.Requests.Applied.{organization_of_first, configure-new}
use garam_agent_operator.History.Requests.Repeats.{get_definition-revision}

module _ {S : Type 0} (same : S → S → Bool) where
  -- In every store that the service reaches, a configure request that is new to the store and that
  -- the service answers with a revision keeps the endpoint of the embedding that the agent's latest
  -- revision has.
  pub configure-same_endpoint :
      (v : Validation) (input : ConfigureInput) (m : Memory S) (n : ℕ) (d : Definition)
      (was : Embedding)
      → Reachable same m
      → get input.request m.requests ≡ none
      → (Configure.configure v input m).0 ≡ ok n
      → (get_definition input.agent m).0 ≡ ok d
      → d.config.model.embedding ≡ some was
      → same_endpoint input.config.model.embedding was ≡ true
  unfolding Configure.embedding_kept Configure.embedding_kept_from get_definition
  configure-same_endpoint v input m n d was r new h latest had =
      let a = configure-new v input m n new h in
      let numbered = get_definition-revision same m input.agent d r latest in
      let in_org : d.organization ≡ input.request.organization =
        elim (List-cases (revisions_of input.agent m)) [
          | inl e ↦ absurd (ground arith)
          | inr (x, xs, e) ↦
              let past =
                IsHistory-before m input.agent (Reachable-Inv same r)
                  (omega (arith, ap length e)) in
              organization_of_first input.request.organization past.org (revisions_of input.agent m)
                d past.in_org a.first (ground arith)
        ] in
      ground (arith, a.embedding, a.expected, eq_iff d.organization input.request.organization)
