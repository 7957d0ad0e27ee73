-- ===== src/Console/Configured.antt =====
-- The route of the console that configures an agent: what it configures one under, and with what.
use garam_agent_operator.Prelude.{
  ℕ, ◌≡◌, ◌≢◌, ◌≤◌, ◌<◌, ◌∙◌, sym, length, Option, ◌⊎◌, String, true, false, none, some,
  Option-cases, Bool-cases, inl, inr, List, ◌==◌, ◌!=◌, string_eq, arith, ap, subst,
}
use Prim.Native.String.{◌++◌}
use text.Mathlib.TextEquality.{eq_iff}
use garam_agent_operator.Definition.Errors.{Result, ok, Result-cases}
use garam_agent_operator.Definition.Types.{Assignment, ConfigureInput}
use garam_agent_operator.Definition.Revision.{parse_revision}
use garam_agent_operator.Text.{cut_prefix}
use garam_agent_operator.SecretRef.{Validation}
use garam_agent_operator.Repository.{Memory}
use garam_agent_operator.Service.Configure
use garam_agent_operator.Handler.{done}
use garam_agent_operator.Handler.Steps.{bind_reads-Gives, read_or-Gives, service_done}
use garam_agent_operator.Console.{Bound, bound, Failure, ConfigureBody, Setting, Request}
use garam_agent_operator.Console.Routes.{
  authority_of, read_body, parse_configure, configure_input, no_assignment, want_agent, authorize,
  configure, is_assigned_operation,
}
use garam_agent_operator.Console.Authority.{IsAuthorized, authorize-IsAuthorized, authorize-state}

read_body-whole :
    (r : Request) (body : List ℕ)
    → read_body r ≡ some body
    → (body ≡ r.body) × (r.is_cut ≡ false) × (length r.body ≤ 1048576)
read_body-whole r body h = (ground arith, ground arith, ground arith)

authority_of-cut :
    (header authority : String)
    → authority_of header ≡ some authority
    → (cut_prefix "Garam-Operation " header ≡ some authority) × (authority ≢ "")
unfolding authority_of
authority_of-cut header authority h = elim (Option-cases (cut_prefix "Garam-Operation " header)) [
  | inl e ↦ absurd (ground arith)
  | inr (text, e) ↦ elim (Bool-cases (text == "")) [
    | inl empty ↦ absurd (ground arith)
    | inr full ↦ (ground arith, ground (arith, eq_iff authority ""))
  ]
]

parse_configure-read :
    (decoded : Option ConfigureBody) (input : ConfigureBody) (expected : ℕ)
    → parse_configure decoded ≡ some (input, expected)
    → (decoded ≡ some input)
      × (input.request_id ≢ "")
      × (parse_revision input.expected_revision ≡ ok expected)
unfolding parse_configure
parse_configure-read none input expected h = absurd (ground arith)
parse_configure-read (some b) input expected h = elim (Bool-cases (b.request_id == "")) [
  | inl empty ↦ absurd (ground arith)
  | inr full ↦ elim (Result-cases (parse_revision b.expected_revision)) [
    | inl (n, e) ↦
        let same : b ≡ input = ground arith in
        (
          ap some same,
          ground (arith, eq_iff input.request_id "", ap (λ (x : ConfigureBody). x.request_id) same),
          sym (ap (λ (x : ConfigureBody). parse_revision x.expected_revision) same) ∙ ground arith,
        )
    | inr (inl (x, e)) ↦ absurd (ground arith)
    | inr (inr e) ↦ absurd (ground arith)
  ]
]

-- What the service is asked to configure: the body's expected revision, profile and configuration, for
-- the route's agent, under what the authority binds.
abbrev pub configured_input : Request → Bound → Assignment → ConfigureBody → ℕ → ConfigureInput
configured_input r b assignment input expected = record {
  request = record { organization = r.org; request_id = b.request_id };
  binding = record {
    actor = b.actor;
    operation = b.operation;
    target = b.target;
    body_sha256 = b.body_sha256;
    operation_ref = b.operation_ref;
    assignment = assignment;
  };
  agent = r.agent;
  expected_revision = expected;
  profile = input.profile;
  config = input.configuration;
}

configured_input_of :
    (r : Request) (b : Bound) (assignment : Assignment) (input : ConfigureBody) (expected : ℕ)
    → b.assignment ≡ some assignment
    → configured_input r b assignment input expected ≡ configure_input r b input expected
configured_input_of r b assignment input expected e =
    ap
      (λ (o : Option Assignment).
        configured_input r b (elim o [ none ↦ no_assignment | some a ↦ a ]) input expected)
      (sym e)

module _ {S : Type 0} where
  pub record IsConfigured (v : Validation) (setting : Setting) (r : Request) (m : Memory S)
      (revision : ℕ) (m' : Memory S) : Type 0 where
    pub whole : (r.is_cut ≡ false) × (length r.body ≤ 1048576)
    pub authority : String
    pub presented : cut_prefix "Garam-Operation " r.authorization ≡ some authority
    pub named : authority ≢ ""
    pub b : Bound
    pub asked : r.introspect authority ≡ bound b
    pub lives : r.now < b.expires_at
    pub audience : b.audience ≡ setting.audience
    pub organization : b.org ≡ "grn:root:default:org:" ++ r.org
    pub operation : b.operation ≡ "agent:configure"
    pub target : (r.agent ≡ "") ⊎ (b.target ≡ r.agent)
    pub assignment : Assignment
    pub assigned : b.assignment ≡ some assignment
    pub digest : setting.sha256_hex r.body ≡ b.body_sha256
    pub input : ConfigureBody
    pub decoded : setting.decode_configure r.body ≡ some input
    pub request_named : input.request_id ≢ ""
    pub same_request : input.request_id ≡ b.request_id
    pub expected : ℕ
    pub parsed : parse_revision input.expected_revision ≡ ok expected
    pub applied :
        Configure.configure v (configured_input r b assignment input expected) m ≡ (ok revision, m')

  -- A configure request that is authorized, whose body is read, and which the service applies.
  configure_input-IsConfigured :
      (v : Validation) (setting : Setting) (r : Request) (body : List ℕ) (b : Bound)
      (input : ConfigureBody) (expected revision : ℕ) (m m' : Memory S)
      → read_body r ≡ some body
      → IsAuthorized setting r body (want_agent r) b
      → parse_configure (setting.decode_configure body) ≡ some (input, expected)
      → input.request_id ≡ b.request_id
      → Configure.configure v (configure_input r b input expected) m ≡ (ok revision, m')
      → IsConfigured v setting r m revision m'
  configure_input-IsConfigured v setting r body b input expected revision m m' sent a parsed id
        applied =
      let (same, uncut, short) = read_body-whole r body sent in
      let (presented, named) = authority_of-cut r.authorization a.authority a.presented in
      let (decoded, request_named, is_expected) =
        parse_configure-read (setting.decode_configure body) input expected parsed in
      elim a.assigned [
        | inl free ↦
            let no : true ≡ false = subst (λ o. is_assigned_operation o ≡ false) a.operation free in
            absurd (ground arith)
        | inr (assignment, assigned) ↦ record {
          whole = (uncut, short);
          authority = a.authority;
          presented = presented;
          named = named;
          b = b;
          asked = a.asked;
          lives = a.lives;
          audience = a.audience;
          organization = a.organization;
          operation = a.operation;
          target = a.target;
          assignment = assignment;
          assigned = assigned;
          digest = ap setting.sha256_hex (sym same) ∙ a.digest;
          input = input;
          decoded = ap setting.decode_configure (sym same) ∙ decoded;
          request_named = request_named;
          same_request = id;
          expected = expected;
          parsed = is_expected;
          applied =
              ap (λ i. Configure.configure v i m)
                (configured_input_of r b assignment input expected assigned)
              ∙ applied;
        }
      ]

  -- An agent is configured only where the whole body was read, and only under the authority of the
  -- header, which garam binds, and has not let expire, to this server, the route's organization, the
  -- operation `agent:configure`, the agent that the route names, an assignment, the body's request id and
  -- the digest of the body; and the store is then as the service leaves it for the body's expected
  -- revision, profile and configuration, under that authority's binding and assignment.
  pub configure-IsConfigured :
      (v : Validation) (setting : Setting) (r : Request) (m : Memory S) (revision : ℕ)
      → (configure v setting r m).0 ≡ done revision
      → IsConfigured v setting r m revision (configure v setting r m).1
  unfolding configure
  configure-IsConfigured v setting r m revision h =
      let R = IsConfigured v setting r m in
      read_or-Gives R Failure.invalid_body (read_body r) _ m
        (λ body e.
          bind_reads-Gives R (authorize setting r body (want_agent r)) _ m
            (authorize-state setting r body (want_agent r) m)
            (λ b f.
              read_or-Gives R Failure.invalid_body (parse_configure (setting.decode_configure body))
                _ m
                (λ (input, expected) g. elim (Bool-cases (input.request_id != b.request_id)) [
                  | inl other ↦ rw other (λ y k. absurd (ground arith))
                  | inr same ↦ rw same (λ y k.
                      let call = Configure.configure v (configure_input r b input expected) in
                      let stored = service_done Failure.service call m y k in
                      configure_input-IsConfigured v setting r body b input expected y m (call m).1
                        e (authorize-IsAuthorized setting r body (want_agent r) m b f) g
                        (ground (arith, same, eq_iff input.request_id b.request_id))
                        (ap (λ (o : Result ℕ). (o, (call m).1)) stored))
                ])))
        revision h
