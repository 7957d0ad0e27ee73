-- ===== src/Service/Checks.antt =====
-- internal/definition/definition.go: what a configuration and a set of settings are refused for.
-- `Quantity` is Kubernetes' type of amounts, with its tests as a parameter.
use garam_agent_operator.Prelude.{
  String, Bool, true, false, not, ◌&&◌, ◌||◌, Option, none, some, [], ◌∷◌, ◌==◌, ◌!=◌, string_eq,
  ℕ_eq, if◌then◌else◌,
}
use garam_agent_operator.Definition.Errors.{Error, Result, ok, err, panic}
use garam_agent_operator.SecretRef.{Validation}
use garam_agent_operator.SecretRef.{parse}
use garam_agent_operator.Map.{Map, get}
use garam_agent_operator.Definition.Types.{Embedding, Model, Configuration}

-- `mockProvider`
abbrev pub mock_provider : String
mock_provider = "mock"

-- `c.Model == (Model{})`
abbrev pub is_zero_model : Model → Bool
is_zero_model m =
    m.provider == ""
    && m.base_url == ""
    && m.name == ""
    && m.api_key == ""
    && (elim m.embedding [ none ↦ true | some _ ↦ false ])

-- `SecretRef.Parts`, by whether it returns an error.
abbrev pub check_ref : Validation → String → Result (Unit {0})
check_ref v ref = elim (parse v ref) [ ok _ ↦ ok tt | err e ↦ err e | panic ↦ panic ]

unfoldable pub check_embedding : Validation → String → Option Embedding → Result (Unit {0})
check_embedding v provider none =
    if provider != mock_provider then err Error.embedding_required else ok tt
check_embedding v provider (some e) =
    if e.base_url == "" || e.name == ""
    then err Error.embedding_required
    else if e.api_key != ""
    then check_ref v e.api_key
    else ok tt

-- `Configuration.check`
unfoldable pub check_config : Validation → Configuration → Result (Unit {0})
unfolding check_embedding
check_config v c = if is_zero_model c.model then ok tt else elim (check_ref v c.model.api_key) [
  | ok _ ↦ check_embedding v c.model.provider c.model.embedding
  | err e ↦ err e
  | panic ↦ panic
]

-- `(e *Embedding) sameEndpoint(was)`
unfoldable pub same_endpoint : Option Embedding → Embedding → Bool
same_endpoint none was = false
same_endpoint (some e) was = e.base_url == was.base_url && e.name == was.name

-- What the package takes from k8s.io/apimachinery's `resource.Quantity`, the type `Q` of amounts.
pub record Quantities (Q : Type 0) : Type 0 where
  -- `q.Sign() <= 0`
  pub is_not_positive : Q → Bool
  -- `q.Cmp(limit) > 0`
  pub exceeds : Q → Q → Bool

-- Requests and limits stand by the name of their resource.
pub record ExecutionSettings (Q : Type 0) : Type 0 where
  pub requests : Map String Q
  pub limits : Map String Q
  pub storage_size : Q
  pub storage_class_name : Option String
  pub workspace_storage_size : Option Q

module _ {Q : Type 0} (q : Quantities Q) where
  -- A request above its own limit.
  abbrev pub above_limit : Q → Option Q → Bool
  above_limit request none = false
  above_limit request (some limit) = q.exceeds request limit

  -- The loop over the requests.
  unfoldable pub check_requests : Map String Q → Map String Q → Result (Unit {0})
  check_requests [] limits = ok tt
  check_requests ((name, request) ∷ rest) limits =
      if above_limit request (get name limits)
      then err Error.invalid_profile
      else check_requests rest limits

  -- `ExecutionSettings.check`
  unfoldable pub check_settings : Validation → ExecutionSettings Q → Result (Unit {0})
  unfolding check_requests
  check_settings v s =
      if q.is_not_positive s.storage_size
      then err Error.invalid_profile
      else if (elim s.workspace_storage_size [ none ↦ false | some size ↦ q.is_not_positive size ])
      then err Error.invalid_profile
      else if (elim s.storage_class_name [ none ↦ false | some name ↦ not (v.is_subdomain name) ])
      then err Error.invalid_profile
      else check_requests s.requests s.limits
