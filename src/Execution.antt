-- ===== src/Execution.antt =====
-- internal/execution (execution.go, garam.go): what the agent routes exchange with garam. Garam is a
-- service elsewhere: what it answers in one request is a parameter of the request.
pub mod Formats
pub mod Refusals
pub mod Activate
pub mod Report
pub mod Respond
pub mod Carried
pub mod Admission
pub mod Activations
pub mod Reports
pub mod Retries
pub mod Contracts
use garam_agent_operator.Prelude.{◌≡◌, refl, ◌⊎◌, inl, inr, ℕ, String, Bool, List, Option}
use garam_agent_operator.Definition.Errors.{Error}

pub record Introspection : Type 0 where
  pub grn : String
  pub org : String
  pub assignee : String
  pub epoch : String
  pub mode : String
  pub credential : String
  pub generation : String
  pub activation_id : String

pub record ActivationCall : Type 0 where
  pub request_id : String
  pub epoch : String
  pub generation : String
  pub replaces_activation_id : String
  pub operation_ref : String
  pub token : String

-- Garam's answer to an activation; `token_version` is never negative in the model.
pub record Answer : Type 0 where
  pub activation_id : String
  pub token : String
  pub token_version : ℕ
  pub grn : String
  pub epoch : String
  pub generation : String

-- The errors of a call of garam, by what `errors.Is` and `errors.As` find. `foreign` is a
-- `GaramContractError`: its call and its contract. `other` is the call's own error.
pub data GaramError : Type 0 where
  undecided not_authorized credential_refused activation_superseded : GaramError
  foreign : String → String → GaramError
  other : GaramError

pub data GaramResult (A : Type 0) : Type 0 where
  answered : A → GaramResult A
  failed : GaramError → GaramResult A

pub GaramResult-cases :
    {A : Type 0} (r : GaramResult A)
    → ((a : A) × (r ≡ answered a)) ⊎ ((e : GaramError) × (r ≡ failed e))
GaramResult-cases (answered a) = inl (a, refl)
GaramResult-cases (failed e) = inr (e, refl)

-- What garam answers in one request; the flag of `activate` is that it created the activation.
pub record Garam : Type 0 where
  pub introspect : String → String → String → GaramResult Introspection
  pub activate : String → ActivationCall → GaramResult (Answer × Bool)

-- An answer that agent-execution.v2 names: its status and its kind. The message is left out.
pub record Refusal : Type 0 where
  pub status : ℕ
  pub kind : String

-- Why a request fails.
pub data Failure : Type 0 where
  refused : Refusal → Failure
  garam : GaramError → Failure
  service : Error → Failure

-- The fields of an activation's body, as the JSON decoder reads them. The revision is its bytes.
pub record ActivationBody : Type 0 where
  pub request_id : String
  pub epoch : String
  pub generation : String
  pub config_revision : List ℕ

-- The fields of a report's body. A time is a number, with 0 for Go's zero time.
pub record StatusReport : Type 0 where
  pub activation_id : String
  pub grn : String
  pub epoch : String
  pub generation : String
  pub config_revision : List ℕ
  pub state : String
  pub started_at : ℕ
  pub observed_at : ℕ

-- What the routes take from Go's packages: SHA-256 in hexadecimal, and the JSON decoder, with `none`
-- for an error, for a field it does not know and for a second value.
pub record Codec : Type 0 where
  pub sha256_hex : String → String
  pub decode_activation : List ℕ → Option ActivationBody
  pub decode_status : List ℕ → Option StatusReport

-- A request of a route: its path's agent, its headers, its body, and what garam answers while it is
-- handled. `is_cut` is that the body cannot be read to its end.
pub record Request : Type 0 where
  pub agent : String
  pub contract : String
  pub authorization : String
  pub placement_token : String
  pub body : List ℕ
  pub is_cut : Bool
  pub garam : Garam
