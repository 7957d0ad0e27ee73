-- ===== src/History/Requests/Applied.antt =====
-- A configure request that the service applies.
use garam_agent_operator.Prelude.{
  ℕ, ◌+◌, ◌≡◌, refl, String, none, some, List, [], ◌∷◌, ◌++◌, inl, List-cases, inr, ◌∙◌, ap,
  string_eq, ℕ_eq, arith, length, subst, sym, last?, All, All-last, last?-append,
}
use text.Mathlib.TextEquality.{eq_iff}
use garam_agent_operator.Exec.{lift}
use garam_agent_operator.Definition.Errors.{ok}
use garam_agent_operator.Definition.Types.{
  Profile, ProfileRef, Definition, Request, RequestOutcome, ConfigureInput,
}
use garam_agent_operator.Definition.Equalities.{request_key_eq, binding_eq}
use garam_agent_operator.Map.{get}
use garam_agent_operator.Map.Laws.{get-put_self}
use garam_agent_operator.SecretRef.{Validation}
use garam_agent_operator.Repository.{Memory}
use garam_agent_operator.Repository.Publishing.{get_profile}
use garam_agent_operator.Repository.Revisions
use garam_agent_operator.Repository.Revisions.{
  revisions_of, append_locked, configure_new, get_definition,
}
use garam_agent_operator.Service.Configure
use garam_agent_operator.Service.Checks.{check_config}
use garam_agent_operator.Exec.Steps.{bind_reads_ok, bind_ok}
use garam_agent_operator.History.Operations.Reads.{get_profile-state, embedding_kept-state}

-- The first revision is of the organization.
abbrev pub IsFirst : String → List Definition → Type 0
IsFirst org [] = ⊥
IsFirst org (d ∷ _) = d.organization ≡ org

pub organization_of_first :
    (org org' : String) (ds : List Definition) (d : Definition)
    → All (λ x. x.organization ≡ org') ds
    → IsFirst org ds
    → last? ds ≡ some d
    → d.organization ≡ org
organization_of_first org org' [] d h f e = absurd f
organization_of_first org org' (x ∷ xs) d h f e =
    All-last (λ y. y.organization ≡ org') (x ∷ xs) d h e ∙ sym h.0 ∙ f

-- The revision of a number that a configure request asks for: all of its content as the request has it,
-- recorded for the controller of the request's binding.
abbrev pub configured : ConfigureInput → ℕ → Definition
configured input n = record {
  agent = input.agent;
  organization = input.request.organization;
  revision = n;
  profile = input.profile;
  config = input.config;
  assignment = some input.binding.assignment;
}

module _ {S : Type 0} where
  -- What the service's answer to a new request says.
  pub record IsApplied (v : Validation) (input : ConfigureInput) (m : Memory S) (n : ℕ)
      : Type 0 where
    pub checked : check_config v input.config ≡ ok tt
    pub embedding : (Configure.embedding_kept input m).0 ≡ ok tt
    pub first : IsFirst input.request.organization (revisions_of input.agent m)
    pub profile : Profile S
    pub published :
        (get_profile input.request.organization input.profile (Configure.configure v input m).1).0
        ≡ ok profile
    pub expected : length (revisions_of input.agent m) ≡ input.expected_revision
    pub next : n ≡ input.expected_revision + 1
    pub latest :
        (get_definition input.agent (Configure.configure v input m).1).0 ≡ ok (configured input n)
    pub revisions :
        revisions_of input.agent (Configure.configure v input m).1
        ≡ revisions_of input.agent m ++ configured input n ∷ []
    pub stored :
        get input.request (Configure.configure v input m).1.requests
        ≡ some (record {
          key = input.request;
          binding = input.binding;
          agent = input.agent;
          outcome = some (RequestOutcome.applied n);
        })

  -- The store's answer to a new request that it applies.
  store_configure-new :
      (r : Request) (d : Definition) (stored : Request) (n : ℕ) (m : Memory S)
      → get r.key m.requests ≡ none
      → (Revisions.configure r d m).0 ≡ ok stored
      → Configure.answer_of stored ≡ ok n
      → let m' = (Revisions.configure r d m).1 in
        (n ≡ d.revision)
        × (d.revision ≡ length (revisions_of d.agent m) + 1)
        × (stored ≡ record r { outcome = some (RequestOutcome.applied n) })
        × (get r.key m'.requests ≡ some stored)
        × (revisions_of d.agent m' ≡ revisions_of d.agent m ++ d ∷ [])
        × IsFirst d.organization (revisions_of d.agent m)
  unfolding Configure.answer_of Revisions.configure configure_new append_locked
  store_configure-new r d stored n m new h k =
      let r' : Request = record r { outcome = some (RequestOutcome.applied d.revision) } in
      let at_n : (n ≡ d.revision) × (d.revision ≡ length (revisions_of d.agent m) + 1) =
        (ground arith, ground arith) in
      (
        at_n.0,
        at_n.1,
        ground (arith, at_n),
        ground (arith, at_n, get-put_self r.key r' m.requests),
        ground (arith, at_n, get-put_self d.agent (revisions_of d.agent m ++ d ∷ []) m.definitions),
        elim (List-cases (revisions_of d.agent m)) [
          | inl e ↦ absurd (ground arith)
          | inr (x, xs, e) ↦
              subst (IsFirst d.organization) (sym e)
                (ground (arith, eq_iff x.organization d.organization))
        ],
      )

  store_configure-profiles :
      (r : Request) (d : Definition) (m : Memory S)
      → (Revisions.configure r d m).1.profiles ≡ m.profiles
  unfolding Revisions.configure configure_new append_locked
  store_configure-profiles r d m = ground arith

  get_profile_of_profiles :
      (org : String) (ref : ProfileRef) (p : Profile S) (m m' : Memory S)
      → m'.profiles ≡ m.profiles
      → (get_profile org ref m).0 ≡ ok p
      → (get_profile org ref m').0 ≡ ok p
  unfolding get_profile
  get_profile_of_profiles org ref p m m' e h = ground (arith, e)

  get_definition_of_append :
      (agent : String) (ds : List Definition) (d : Definition) (m : Memory S)
      → revisions_of agent m ≡ ds ++ d ∷ []
      → (get_definition agent m).0 ≡ ok d
  unfolding get_definition
  get_definition_of_append agent ds d m h =
      let last : last? (revisions_of agent m) ≡ some d = ap last? h ∙ last?-append ds d in
      ground arith

  -- A configure request that is new to the store and that the service answers with a revision has
  -- become that revision: it is one past the agent's latest, which is the revision that the request
  -- expected, and the agent's latest is now the request's configuration and profile, recorded for
  -- the controller of the request's binding.
  pub configure-new :
      (v : Validation) (input : ConfigureInput) (m : Memory S) (n : ℕ)
      → get input.request m.requests ≡ none
      → (Configure.configure v input m).0 ≡ ok n
      → IsApplied v input m n
  unfolding Configure.configure
  configure-new v input m n new h =
      let d = Configure.next_definition input in
      let org = input.request.organization in
      let (u, checked, e) = bind_reads_ok (lift (check_config v input.config)) _ m n refl h in
      let (p, published, f) =
        bind_reads_ok (get_profile org input.profile) _ m n (get_profile-state org input.profile m)
          (sym (ap (λ x. x.0) e) ∙ h) in
      let (w, kept, g) =
        bind_reads_ok (Configure.embedding_kept input) _ m n (embedding_kept-state input m)
          (sym (ap (λ x. x.0) (e ∙ f)) ∙ h) in
      let (stored, answered, q) =
        bind_ok (Revisions.configure (Configure.request_of input) d) _ m n
          (sym (ap (λ x. x.0) (e ∙ f ∙ g)) ∙ h) in
      let m' = (Revisions.configure (Configure.request_of input) d m).1 in
      let whole = e ∙ f ∙ g ∙ q in
      let after : (Configure.configure v input m).1 ≡ m' = ground (arith, whole, h) in
      let answer : Configure.answer_of stored ≡ ok n = ground (arith, whole, h) in
      let (is_next, is_expected, outcome, at_key, appended, first) =
        store_configure-new (Configure.request_of input) d stored n m new answered answer in
      let listed : revisions_of input.agent (Configure.configure v input m).1
          ≡ revisions_of input.agent m ++ configured input n ∷ [] =
        ap (revisions_of input.agent) after
        ∙ appended
        ∙ ap (λ x. revisions_of input.agent m ++ configured input x ∷ []) (sym is_next) in
      record {
        checked = checked;
        embedding = kept;
        first = first;
        profile = p;
        published =
            get_profile_of_profiles org input.profile p m (Configure.configure v input m).1
              (ap (λ x. x.profiles) after
                ∙ store_configure-profiles (Configure.request_of input) d m)
              published;
        expected = ground arith;
        next = ground arith;
        latest =
            get_definition_of_append input.agent (revisions_of input.agent m) (configured input n)
              (Configure.configure v input m).1 listed;
        revisions = listed;
        stored = ap (λ x. get input.request x.requests) after ∙ at_key ∙ ap some outcome;
      }
