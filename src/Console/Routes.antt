-- ===== src/Console/Routes.antt =====
-- internal/console: authorize.go, configure.go, create.go and stop.go.
use garam_agent_operator.Prelude.{
  ℕ, String, Bool, true, false, not, ◌&&◌, ◌||◌, Option, none, some, List, ◌==◌, ◌!=◌, string_eq,
  ltb, if◌then◌else◌, length,
}
use Prim.Native.String.{◌++◌}
use garam_agent_operator.Definition.Errors.{ok, err, panic}
use garam_agent_operator.Definition.Types.{
  Assignment, Binding, RequestKey, ConfigureInput, CreateInput, Creation, Outcome, Stop, StopInput,
}
use garam_agent_operator.Definition.Revision.{parse_revision}
use garam_agent_operator.SecretRef.{Validation}
use garam_agent_operator.Repository.{Memory}
use garam_agent_operator.Repository.Stops.{record_deactivation}
use garam_agent_operator.Service.Configure
use garam_agent_operator.Service.Create
use garam_agent_operator.Service.Stop.{stop as stop_agent, start as start_agent}
use garam_agent_operator.Text.{cut_prefix}
use garam_agent_operator.Exec.{Exec}
use garam_agent_operator.Handler.{
  Handler as HandlerOf, answer, fail, service as service_as, read_or, ◌>>=◌, ◌>>◌,
}
use garam_agent_operator.Console.{
  IntrospectError, Bound, bound, unbound, Field, deactivated, Failure, ConfigureBody, CreateBody,
  Setting, Request, Want,
}

abbrev pub Handler : Type 0 → Type 0 → Type 0
Handler State A = HandlerOf Failure State A

-- `authorizationScheme`, `orgGRNPrefix`, `OperationConfigure`, `OperationCreate`, `OperationExecutionRead`
-- and `OperationRecover`
abbrev pub authorization_scheme : String
authorization_scheme = "Garam-Operation "

abbrev pub org_grn_prefix : String
org_grn_prefix = "grn:root:default:org:"

abbrev pub operation_configure : String
operation_configure = "agent:configure"

abbrev pub operation_create : String
operation_create = "agent:create"

abbrev pub operation_execution_read : String
operation_execution_read = "agent:execution-read"

abbrev pub operation_recover : String
operation_recover = "agent:recover"

-- `maxBodyBytes`
abbrev pub max_body_bytes : ℕ
max_body_bytes = 1048576

-- `io.ReadAll` of `http.MaxBytesReader`.
abbrev pub read_body : Request → Option (List ℕ)
read_body r = if r.is_cut || ltb max_body_bytes (length r.body) then none else some r.body

-- The authority that the header carries.
unfoldable pub authority_of : String → Option String
authority_of header = elim (cut_prefix authorization_scheme header) [
  | none ↦ none
  | some authority ↦ if authority == "" then none else some authority
]

abbrev pub is_assigned_operation : String → Bool
is_assigned_operation o =
    o == operation_configure || o == operation_execution_read || o == operation_recover

-- The `switch` and the digest of `authorizeHeader`: why a binding is not the request's.
unfoldable pub refused_for : Setting → Request → List ℕ → Want → Bound → Option Failure
refused_for setting r body want b =
    if not (ltb r.now b.expires_at)
    then some (Failure.introspection IntrospectError.unknown)
    else if b.audience != setting.audience
    then some (Failure.mismatch Field.audience)
    else if b.org != org_grn_prefix ++ want.org
    then some (Failure.mismatch Field.organization)
    else if b.operation != want.operation
    then some (Failure.mismatch Field.operation)
    else if want.grn != "" && b.target != want.grn
    then some (Failure.mismatch Field.target)
    else if is_assigned_operation b.operation
        && (elim b.assignment [ none ↦ true | some a ↦ false ])
    then some (Failure.mismatch Field.assignment)
    else if want.request_target != "" && b.request_target != want.request_target
    then some (Failure.mismatch Field.request_target)
    else if setting.sha256_hex body != b.body_sha256
    then some Failure.digest_mismatch
    else none

abbrev pub no_assignment : Assignment
no_assignment = record { operator = ""; epoch = "" }

-- `bindingOf`, with the zero value where the authority binds no assignment; `authorize` refuses one
-- that binds none for `configure`.
abbrev pub binding_of : Bound → Binding
binding_of b = record {
  actor = b.actor;
  operation = b.operation;
  target = b.target;
  body_sha256 = b.body_sha256;
  operation_ref = b.operation_ref;
  assignment = elim b.assignment [ none ↦ no_assignment | some a ↦ a ];
}

abbrev pub key_of : Request → Bound → RequestKey
key_of r b = record { organization = r.org; request_id = b.request_id }

-- `parseConfigure`
unfoldable pub parse_configure : Option ConfigureBody → Option (ConfigureBody × ℕ)
parse_configure none = none
parse_configure (some b) =
    if b.request_id == "" then none else elim (parse_revision b.expected_revision) [
      | ok expected ↦ some (b, expected)
      | err e ↦ none
      | panic ↦ none
    ]

-- `parseCreate`
unfoldable pub parse_create : Option CreateBody → Option CreateBody
parse_create none = none
parse_create (some b) =
    if b.request_id == "" || b.controller == "" || b.template.name == "" || b.profile.name == ""
    then none
    else some b

abbrev pub configure_input : Request → Bound → ConfigureBody → ℕ → ConfigureInput
configure_input r b input expected = record {
  request = key_of r b;
  binding = binding_of b;
  agent = r.agent;
  expected_revision = expected;
  profile = input.profile;
  config = input.configuration;
}

abbrev pub create_input : Request → Bound → CreateBody → CreateInput
create_input r b input = record {
  request = key_of r b;
  binding = record (binding_of b) { assignment = no_assignment };
  controller = input.controller;
  template = input.template;
  profile = input.profile;
}

-- `createResponse`, with its status.
pub record CreateAnswer : Type 0 where
  pub status : ℕ
  pub agent : String
  pub epoch : String

abbrev pub want_agent : Request → Want
want_agent r = record {
  org = r.org;
  operation = operation_configure;
  grn = r.agent;
  request_target = "";
}

abbrev pub has_ended : Stop → Bool
has_ended s = elim s.start [ none ↦ false | some e ↦ true ]

module _ {S A : Type 0} where
  abbrev pub service : Exec (Memory S) A → Handler (Memory S) A
  service m = service_as Failure.service m

module _ {S : Type 0} where
  -- `authorize`
  unfoldable pub authorize : Setting → Request → List ℕ → Want → Handler (Memory S) Bound
  authorize setting r body want = do
    authority ← read_or Failure.no_authority (authority_of r.authorization)
    elim (r.introspect authority) [
      | unbound e ↦ fail (Failure.introspection e)
      | bound b ↦ elim (refused_for setting r body want b) [ some f ↦ fail f | none ↦ answer b ]
    ]

  -- `configure`: the revision applied.
  unfoldable pub configure : Validation → Setting → Request → Handler (Memory S) ℕ
  unfolding authorize
  configure v setting r = do
    body ← read_or Failure.invalid_body (read_body r)
    b ← authorize setting r body (want_agent r)
    (input, expected) ←
        read_or Failure.invalid_body (parse_configure (setting.decode_configure body))
    if input.request_id != b.request_id
        then fail (Failure.mismatch Field.request_id)
        else service (Configure.configure v (configure_input r b input expected))

  -- The `switch` on a creation's outcome.
  unfoldable pub created : Creation → Bool → Handler (Memory S) CreateAnswer
  created c first = elim c.outcome [
    | Outcome.registered x ↦
        answer (record { status = if first then 201 else 200; agent = x.agent; epoch = x.epoch })
    | Outcome.failed reason conflict ↦ fail (Failure.registration conflict)
    | Outcome.pending ↦ fail Failure.unexpected
  ]

  -- `create`
  unfoldable pub create :
      Validation → Create.Registrar → Setting → Request → Handler (Memory S) CreateAnswer
  unfolding authorize created
  create v registrar setting r = do
    body ← read_or Failure.invalid_body (read_body r)
    b ←
        authorize setting r body
          (record { org = r.org; operation = operation_create; grn = ""; request_target = "" })
    input ← read_or Failure.invalid_body (parse_create (setting.decode_create body))
    if input.request_id != b.request_id
        then fail (Failure.mismatch Field.request_id)
        else if input.controller != b.target
        then fail (Failure.mismatch Field.target)
        else (do
          (c, first) ← service (Create.create_agent v registrar (create_input r b input))
          created c first)

  -- `stopInput`
  unfoldable pub stop_input : Setting → Request → Handler (Memory S) StopInput
  unfolding authorize
  stop_input setting r = do
    body ← read_or Failure.invalid_body (read_body r)
    b ← authorize setting r body (want_agent r)
    id ← read_or Failure.invalid_body (setting.decode_stop body)
    if id == ""
        then fail Failure.invalid_body
        else if id != b.request_id
        then fail (Failure.mismatch Field.request_id)
        else answer (record { key = key_of r b; binding = binding_of b; agent = r.agent })

  -- Garam is asked to end the activation of a stop that holds, and the answer is recorded.
  unfoldable pub deactivate : Request → StopInput → Stop → Handler (Memory S) Stop
  deactivate r input s =
      if has_ended s || s.deactivated || s.activation_id == ""
      then answer s
      else elim (r.deactivate input.agent s.activation_id) [
        | deactivated ↦
            service (record_deactivation input.key) >> answer (record s { deactivated = true })
        | other ↦ fail (Failure.lifecycle other)
      ]

  -- `stop`
  unfoldable pub stop : Setting → Request → Handler (Memory S) Stop
  unfolding stop_input deactivate
  stop setting r = do
    input ← stop_input setting r
    (s, new) ← service (stop_agent input)
    deactivate r input s

  -- `start`
  unfoldable pub start : Setting → Request → Handler (Memory S) Stop
  unfolding stop_input
  start setting r = do input ← stop_input setting r; service (start_agent input)
