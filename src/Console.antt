-- ===== src/Console.antt =====
-- internal/console (console.go, introspector.go, lifecycle.go): the console's routes, and the authority
-- that each request presents.
pub mod Routes
pub mod Authority
pub mod Configured
use garam_agent_operator.Prelude.{ℕ, String, Bool, List, Option}
use garam_agent_operator.Definition.Errors.{Error}
use garam_agent_operator.Definition.Types.{Assignment, ProfileRef, TemplateRef, Configuration}

-- `Binding`
pub record Bound : Type 0 where
  pub operation_ref : String
  pub org : String
  pub actor : String
  pub audience : String
  pub operation : String
  pub target : String
  pub assignment : Option Assignment
  pub request_id : String
  pub body_sha256 : String
  pub request_target : String
  pub expires_at : ℕ

-- The errors of an introspection, by what `errors.Is` finds. `other` is the call's own.
pub data IntrospectError : Type 0 where
  unknown forbidden undecided contract_unsupported other : IntrospectError

pub data Introspected : Type 0 where
  bound : Bound → Introspected
  unbound : IntrospectError → Introspected

-- The field of a `MismatchError`.
pub data Field : Type 0 where
  audience organization operation target assignment request_target request_id : Field

-- What garam answers a deactivation: it is done, refused with a status and a kind, left undecided, or
-- the call failed.
pub data Deactivated : Type 0 where
  deactivated : Deactivated
  refused : ℕ → String → Deactivated
  undecided failed : Deactivated

-- Why a request fails. `registration` is whether a registration met a conflict.
pub data Failure : Type 0 where
  no_authority digest_mismatch invalid_body : Failure
  introspection : IntrospectError → Failure
  mismatch : Field → Failure
  service : Error → Failure
  registration : Bool → Failure
  unexpected : Failure
  lifecycle : Deactivated → Failure

-- The bodies as the JSON decoder reads them. A revision is its bytes.
pub record ConfigureBody : Type 0 where
  pub request_id : String
  pub expected_revision : List ℕ
  pub profile : ProfileRef
  pub configuration : Configuration

pub record CreateBody : Type 0 where
  pub request_id : String
  pub controller : String
  pub template : TemplateRef
  pub profile : ProfileRef

-- What the routes take from Go's packages: the SHA-256 of a body in hexadecimal, and the JSON decoder,
-- with `none` for an error, for a field it does not know and for a second value. `audience` is the
-- server's.
pub record Setting : Type 0 where
  pub audience : String
  pub sha256_hex : List ℕ → String
  pub decode_configure : List ℕ → Option ConfigureBody
  pub decode_create : List ℕ → Option CreateBody
  pub decode_stop : List ℕ → Option String

-- A request of a route: its path's organization and agent, its header, its body, the clock, and what
-- garam answers while it is handled. `is_cut` is that the body cannot be read to its end.
pub record Request : Type 0 where
  pub org : String
  pub agent : String
  pub authorization : String
  pub body : List ℕ
  pub is_cut : Bool
  pub now : ℕ
  pub introspect : String → Introspected
  pub deactivate : String → String → Deactivated

-- `target`, with no text where the request names none.
pub record Want : Type 0 where
  pub org : String
  pub operation : String
  pub grn : String
  pub request_target : String
