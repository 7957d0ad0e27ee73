-- ===== src/Repository.antt =====
-- internal/definition/repository/memory.go: the state of `Memory`, the store held in process. Every
-- method holds the mutex `mu` from its first line to its return, so each is one step on the state
-- and the mutex is left out. A method returns a clone of what it read: values are immutable here, so
-- a clone is the value.
pub mod Publishing
pub mod Revisions
pub mod Creations
pub mod Placements
pub mod Activations
pub mod Statuses
pub mod Recoveries
pub mod Stops
pub mod Operators
pub mod Calls
use garam_agent_operator.Prelude.{
  zero, suc, ◌≡◌, ◌↔◌, true, none, get_elem?, arith, ℕ, String, Bool, ◌&&◌, List, Eq, ◌==◌,
  string_eq, [], Option,
}
use text.Mathlib.TextEquality.{eq_iff}
use garam_agent_operator.Map.{Map}
use garam_agent_operator.Definition.Types.{
  Profile, Template, Definition, Status, RequestKey, Creation, Request, Placement, Activation,
  RuntimeApplied, Publication, Recovery, Stop, Operator,
}

-- A profile's or a template's name within the organization that published it.
pub record Named : Type 0 where
  pub org : String
  pub name : String

pub record StoredOperator : Type 0 where
  pub org_grn : String
  pub operator : Operator

-- `S` is the type of the execution settings.
pub record Memory (S : Type 0) : Type 0 where
  pub profiles : Map Named (List (Profile S))
  pub templates : Map Named (List Template)
  pub definitions : Map String (List Definition)
  pub positions : Map String (List ℕ)
  pub position : ℕ
  pub statuses : Map String Status
  pub creations : Map RequestKey Creation
  pub requests : Map RequestKey Request
  pub placements : Map String (Map String Placement)
  pub activations : Map String (Map String Activation)
  pub latest : Map String String
  pub applied : Map String RuntimeApplied
  pub publications : Map RequestKey Publication
  pub recoveries : Map String (List Recovery)
  pub stops : Map RequestKey Stop
  pub stop_ends : Map RequestKey RequestKey
  pub operators : Map String StoredOperator

pub named_beq_iff : (a b : Named) → (a.org == b.org && a.name == b.name ≡ true) ↔ (a ≡ b)
named_beq_iff a b = ground (arith, eq_iff a.org b.org, eq_iff a.name b.name)

instance abbrev pub named_eq : Eq Named
named_eq = record { equal = λ a b. a.org == b.org && a.name == b.name; equal_iff = named_beq_iff }

-- `versions[version-1]`, where `none` is an index out of range.
abbrev pub version_at {ℓ} : {A : Type ℓ} → List A → ℕ → Option A
version_at versions zero = none
version_at versions (suc i) = get_elem? versions i

unfoldable pub new_memory : {S : Type 0} → Memory S
new_memory = record {
  profiles = [];
  templates = [];
  definitions = [];
  positions = [];
  position = 0;
  statuses = [];
  creations = [];
  requests = [];
  placements = [];
  activations = [];
  latest = [];
  applied = [];
  publications = [];
  recoveries = [];
  stops = [];
  stop_ends = [];
  operators = [];
}
