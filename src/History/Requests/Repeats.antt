-- ===== src/History/Requests/Repeats.antt =====
-- The repeats of a configure request that the service applied.
use garam_agent_operator.Prelude.{
  ℕ, ◌≤◌, ◌<◌, ◌≡◌, String, Bool, false, none, some, List, [], ◌∷◌, ◌++◌, inl, Bool-cases,
  List-cases, inr, ◌∙◌, ap, string_eq, ℕ_eq, ◌==◌, arith, length, last?, last?_total, Numbered-last,
  length-append, beq_refl,
}
use text.Mathlib.TextEquality.{eq_iff}
use garam_agent_operator.Definition.Errors.{ok}
use garam_agent_operator.Definition.Types.{Definition, RequestOutcome, ConfigureInput}
use garam_agent_operator.Definition.Equalities.{request_key_eq, binding_eq}
use garam_agent_operator.Map.{Map, get, get_or}
use garam_agent_operator.Map.Laws.{get_or-put}
use garam_agent_operator.SecretRef.{Validation}
use garam_agent_operator.Repository.{Memory, new_memory}
use garam_agent_operator.Repository.Revisions
use garam_agent_operator.Repository.Revisions.{
  revisions_of, append_locked, configure_new, get_definition,
}
use garam_agent_operator.Repository.Calls.{step}
use garam_agent_operator.Service.Configure
use garam_agent_operator.History.Publishing.{get_profile-run}
use garam_agent_operator.History.Reach.{Reach, Reachable, here, next, Reach-run, Reach-trans}
use garam_agent_operator.History.Revisions.{step-cases}
use garam_agent_operator.History.Revisions.Invariant.{IsHistory-before, Reachable-Inv}
use garam_agent_operator.History.Operations.Console.{configure-Reachable}
use garam_agent_operator.History.Operations.Reads.{get_profile-state}
use garam_agent_operator.History.Requests.{run-request}
use garam_agent_operator.History.Requests.Applied.{configured, configure-new}

module _ {S : Type 0} (same : S → S → Bool) where
  -- An agent's revisions only grow.
  revisions-le :
      (from m : Memory S) (agent : String)
      → Reach same from m
      → length (revisions_of agent from) ≤ length (revisions_of agent m)
  revisions-le from m agent here = omega arith
  revisions-le from m agent (next {m = before} c r a) =
      let h = revisions-le from before agent r in
      elim (step-cases same before c a) [
        | inl (e, f) ↦
            omega
              (arith, h, ap (λ (x : Map String (List Definition)). length (get_or [] agent x)) e)
        | inr (d, n) ↦
            let grown = revisions_of d.agent before ++ d ∷ [] in
            let put_at =
              ap (λ (x : Map String (List Definition)). length (get_or [] agent x)) n.definitions
              ∙ ap length (get_or-put [] d.agent agent grown before.definitions) in
            elim (Bool-cases (d.agent == agent)) [
              | inl hit ↦
                  let is_agent : d.agent ≡ agent = (eq_iff d.agent agent).0 hit in
                  let written : length (revisions_of agent (step same before c)) ≡ length grown =
                    ground (arith, put_at) in
                  omega (
                    arith,
                    h,
                    written,
                    length-append (revisions_of d.agent before) (d ∷ []),
                    ap (λ (x : String). length (revisions_of x before)) is_agent,
                  )
              | inr miss ↦
                  let kept : length (revisions_of agent (step same before c))
                      ≡ length (revisions_of agent before) =
                    ground (arith, put_at) in
                  omega (arith, h, kept)
            ]
      ]

  -- The latest revision is numbered by how many there are.
  pub get_definition-revision :
      (m : Memory S) (agent : String) (d : Definition)
      → Reachable same m
      → (get_definition agent m).0 ≡ ok d
      → d.revision ≡ length (revisions_of agent m)
  unfolding get_definition
  get_definition-revision m agent d r h = elim (List-cases (revisions_of agent m)) [
    | inl e ↦ absurd (ground arith)
    | inr (x, xs, e) ↦
        let last : last? (revisions_of agent m) ≡ some d = ground arith in
        let past = IsHistory-before m agent (Reachable-Inv same r) (omega (arith, ap length e)) in
        omega (
          arith,
          Numbered-last (λ (y : Definition). y.revision) 1 (revisions_of agent m) d past.numbered
              last,
        )
  ]

  -- The embedding of a request that expects an earlier revision than the agent's latest is not
  -- checked.
  embedding_kept-past :
      (input : ConfigureInput) (m : Memory S)
      → Reachable same m
      → input.expected_revision < length (revisions_of input.agent m)
      → Configure.embedding_kept input m ≡ (ok tt, m)
  unfolding Configure.embedding_kept Configure.embedding_kept_from get_definition
  embedding_kept-past input m r h =
      let (d, last) = last?_total (revisions_of input.agent m) (omega arith) in
      let answered : get_definition input.agent m ≡ (ok d, m) = ground arith in
      let numbered = get_definition-revision m input.agent d r (ap (λ x. x.0) answered) in
      let past : (d.revision == input.expected_revision) ≡ false = ground arith in ground arith

  -- In every store that the service reaches, a configure request that is new to the store and that
  -- the service answers with a revision is answered with the same revision in every store that is
  -- reached from there, and changes nothing, whatever became of the agent in between.
  pub configure-repeat :
      (v : Validation) (input : ConfigureInput) (m later : Memory S) (n : ℕ)
      → Reachable same m
      → get input.request m.requests ≡ none
      → (Configure.configure v input m).0 ≡ ok n
      → Reach same (Configure.configure v input m).1 later
      → Configure.configure v input later ≡ (ok n, later)
  unfolding Configure.configure Configure.answer_of Revisions.configure
  configure-repeat v input m later n r new h since =
      let m' = (Configure.configure v input m).1 in
      let a = configure-new v input m n new h in
      let reachable = configure-Reachable same v input m r in
      let (cs, e) = Reach-run same m' later since in
      let at_key =
        run-request same m' cs input.request
          (record {
            key = input.request;
            binding = input.binding;
            agent = input.agent;
            outcome = some (RequestOutcome.applied n);
          })
          a.stored in
      let published =
        get_profile-run same m' cs input.request.organization input.profile a.profile a.published in
      let kept =
        embedding_kept-past input later (Reach-trans same new_memory m' later reachable since) (
          omega (
            arith,
            a.expected,
            ap length a.revisions,
            revisions-le m' later input.agent since,
            length-append (revisions_of input.agent m) (configured input n ∷ []),
          )) in
      ground (
        arith,
        a.checked,
        published,
        at_key,
        kept,
        get_profile-state input.request.organization input.profile later,
        beq_refl input.binding,
        beq_refl input.agent,
      )
