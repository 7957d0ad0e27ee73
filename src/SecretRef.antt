-- ===== src/SecretRef.antt =====
-- internal/secretref/secretref.go: a reference to one data key of a Kubernetes Secret.
pub mod Exact
use Prim.Native.Char.{code}
use Prim.Native.String.{String}
use garam_agent_operator.Prelude.{Bool, true, false, nat_eq, if◌then◌else◌}
use garam_agent_operator.Definition.Errors.{Error, Result, ok, err}

-- What the package takes from k8s.io/apimachinery's validation: whether a list of problems is
-- empty.
pub record Validation : Type 0 where
  -- `IsDNS1123Subdomain`
  pub is_subdomain : String → Bool
  -- `IsConfigMapKey`
  pub is_config_map_key : String → Bool

-- `strings.Cut(ref, "/")`: what stands before and after the first slash, all of it before where
-- there is none.
unfoldable pub cut : String → String × String
cut String.[] = ("", "")
cut (String.◌∷◌ c s) =
    let (name, key) = cut s in if nat_eq (code c) b'/' then ("", s) else (String.◌∷◌ c name, key)

-- `Parse`
unfoldable pub parse : Validation → String → Result (String × String)
unfolding cut
parse v ref =
    let (name, key) = cut ref in
    if v.is_subdomain name
    then if v.is_config_map_key key then ok (name, key) else err Error.invalid_secret_ref
    else err Error.invalid_secret_ref
