-- ===== src/Execution/Respond.antt =====
-- internal/execution/respond.go and server.go: what a request is answered with, and what is logged.
use garam_agent_operator.Prelude.{ℕ, String, List, [], ◌∷◌, ◌!=◌, string_eq, if◌then◌else◌}
use garam_agent_operator.Definition.Errors.{Error}
use garam_agent_operator.Repository.{Memory}
use garam_agent_operator.Service.Status.{contains}
use garam_agent_operator.Execution.Refusals.{
  invalid_request, not_authorized, placement_not_current, request_reused, undecided,
}
use garam_agent_operator.Execution.{GaramError, Refusal, Failure, Codec, Request}
use garam_agent_operator.Handler.{Outcome, done, fails, panics}
use garam_agent_operator.Execution.Activate.{ActivationResponse, activate}
use garam_agent_operator.Execution.Report.{report_status}

-- `Contract`
abbrev pub contract_value : String
contract_value = "agent-execution.v2"

-- A line of the log: a contract that garam answered under, with its call; a request that failed; a
-- handler that panicked.
pub data Line : Type 0 where
  foreign_contract : String → String → Line
  failed_request panicked : Line

pub data Body : Type 0 where
  nothing : Body
  activation : ActivationResponse → Body
  problem : String → Body

pub record Response : Type 0 where
  pub status : ℕ
  pub body : Body

-- `server`, with the store that its definitions are read from. `foreign_contracts` has the keys of
-- the map; the last line logged is first.
pub record Server (S : Type 0) : Type 0 where
  pub memory : Memory S
  pub foreign_contracts : List String
  pub logged : List Line

abbrev pub refusal_response : Refusal → Response
refusal_response r = record { status = r.status; body = Body.problem r.kind }

abbrev pub internal_response : Response
internal_response = record { status = 500; body = Body.problem "internal" }

pub data Route : Type 0 where
  activations runtime_status : Route

module _ {S : Type 0} where
  abbrev pub log : Line → Server S → Server S
  log line s = record s { logged = line ∷ s.logged }

  abbrev pub respond_internal : Server S → Response × Server S
  respond_internal s = (internal_response, log Line.failed_request s)

  -- `respondError`, for an error of the definition service.
  unfoldable pub respond_service : Error → Server S → Response × Server S
  respond_service Error.agent_stopped s = (refusal_response placement_not_current, s)
  respond_service Error.request_reused s = (refusal_response request_reused, s)
  respond_service Error.invalid_status s = (refusal_response invalid_request, s)
  respond_service Error.not_found s = (refusal_response not_authorized, s)
  respond_service _ s = respond_internal s

  -- `respondError`
  unfoldable pub respond_error : Failure → Server S → Response × Server S
  unfolding respond_service
  respond_error (Failure.garam (GaramError.foreign call contract)) s =
      if contains contract s.foreign_contracts then (refusal_response undecided, s) else (
        refusal_response undecided,
        log (Line.foreign_contract call contract)
            (record s { foreign_contracts = contract ∷ s.foreign_contracts }),
      )
  respond_error (Failure.refused r) s = (refusal_response r, s)
  respond_error (Failure.service e) s = respond_service e s
  respond_error (Failure.garam GaramError.undecided) s = (refusal_response undecided, s)
  respond_error (Failure.garam _) s = respond_internal s

  -- What follows a handler: its answer, `respondError`, or `recoverPanics`.
  unfoldable pub respond :
      {A : Type 0} → (A → Response) → Outcome Failure A → Server S → Response × Server S
  unfolding respond_error
  respond write (done a) s = (write a, s)
  respond write (fails e) s = respond_error e s
  respond write panics s = (internal_response, log Line.panicked s)

  -- `NewHandler`: a request of a route, under `underContract` and `recoverPanics`.
  unfoldable pub serve : Codec → Route → Request → Server S → Response × Server S
  unfolding respond
  serve codec Route.activations r s =
      if r.contract != contract_value
      then (refusal_response invalid_request, s)
      else (let (outcome, m) = activate codec r s.memory in
          respond (λ (status, body). record { status = status; body = Body.activation body })
            outcome (record s { memory = m }))
  serve codec Route.runtime_status r s =
      if r.contract != contract_value
      then (refusal_response invalid_request, s)
      else (let (outcome, m) = report_status codec r s.memory in
          respond (λ _. record { status = 204; body = Body.nothing }) outcome
            (record s { memory = m }))

  -- The requests in the order in which they are served.
  unfoldable pub serve_all : Codec → List (Route × Request) → Server S → Server S
  unfolding serve
  serve_all codec [] s = s
  serve_all codec ((route, r) ∷ rest) s = serve_all codec rest (serve codec route r s).1
