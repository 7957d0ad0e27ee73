-- ===== src/Distribution.antt =====
-- internal/distribution (distribution.go, prover.go, server.go, session.go, contact.go): the controller
-- routes and the proofs that they ask garam for.
pub mod Session
pub mod Requests
pub mod Feed
pub mod Respond
pub mod Proofs
pub mod Registrations
pub mod Releases
use garam_agent_operator.Prelude.{ℕ, String, Bool, List, Option, some, none}
use garam_agent_operator.Map.{Map}
use garam_agent_operator.Definition.Errors.{Error}
use garam_agent_operator.Definition.Types.{OperatorImage, PreviousPlacement}
use garam_agent_operator.Exec.{Exec}
use garam_agent_operator.Repository.{Memory}
use garam_agent_operator.Handler.{Handler as HandlerOf, service as service_as, read_or as read_as}

pub record ProvenAgent : Type 0 where
  pub grn : String
  pub epoch : String

pub record Proof : Type 0 where
  pub operator : String
  pub org : String
  pub agent : Option ProvenAgent

-- The errors of a proof, by what `errors.Is` finds. `other` is the call's own.
pub data ProofError : Type 0 where
  token_refused not_proved undecided contract_unsupported other : ProofError

pub data Proved : Type 0 where
  proof : Proof → Proved
  unproved : ProofError → Proved

-- Why a request fails.
pub data Failure : Type 0 where
  invalid_placement_body invalid_recovery_body invalid_images_body : Failure
  invalid_status_body invalid_query : Failure
  too_many_agents epoch_superseded not_placed no_token another_operator : Failure
  prover : ProofError → Failure
  service : Error → Failure

-- The bodies as the JSON decoder reads them. A revision is its bytes.
pub record PlacementBody : Type 0 where
  pub epoch : String
  pub pod_uid : String
  pub pvc_uid : String
  pub token_sha256 : String
  pub previous : Option PreviousPlacement

pub record RecoveryBody : Type 0 where
  pub request_id : String
  pub epoch : String

pub record StatusBody : Type 0 where
  pub observed_revision : List ℕ
  pub rendered_revision : List ℕ

-- The JSON decoder, with `none` for an error, for a field it does not know and for a second value.
pub record Codec : Type 0 where
  pub decode_placement : List ℕ → Option PlacementBody
  pub decode_recovery : List ℕ → Option RecoveryBody
  pub decode_status : List ℕ → Option StatusBody
  pub decode_images : List ℕ → Option (List OperatorImage)

-- A request of a route: its path's agent, its headers, its query and its body, what garam proves while it
-- is handled, of a controller, a token and an agent, and the clock. `is_cut` is that the body cannot be
-- read to its end.
pub record Request : Type 0 where
  pub agent : String
  pub authorization : String
  pub controller : String
  pub after : List ℕ
  pub wait_seconds : List ℕ
  pub body : List ℕ
  pub is_cut : Bool
  pub prove : String → String → String → Proved
  pub now : ℕ

-- `server` and `contacts`, with the store that the definitions are read from. `unrecorded` has the
-- controllers whose contact could not be written, the last logged first.
pub record Server (S : Type 0) : Type 0 where
  pub memory : Memory S
  pub written : Map String ℕ
  pub unrecorded : List String

-- `controller`
pub record Controller : Type 0 where
  pub grn : String
  pub token : String
  pub org_grn : String

abbrev pub Handler : Type 0 → Type 0 → Type 0
Handler S A = HandlerOf Failure (Server S) A

module _ {S A : Type 0} where
  -- A call of the definitions on the server's store.
  abbrev pub on_memory : Exec (Memory S) A → Exec (Server S) A
  on_memory m s = let (r, memory) = m s.memory in (r, record s { memory = memory })

  abbrev pub ask : Exec (Memory S) A → Handler S A
  ask m = service_as Failure.service (on_memory m)

  abbrev pub read_or : Failure → Option A → Handler S A
  read_or missing o = read_as missing o
