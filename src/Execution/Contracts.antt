-- ===== src/Execution/Contracts.antt =====
-- What the agent routes log of the contracts that garam answers under, and the requests that no
-- route reads.
use garam_agent_operator.Prelude.{
  ◌≡◌, String, false, Bool-cases, inl, inr, List, [], ◌∷◌, ◌!=◌, string_eq, arith,
}
use garam_agent_operator.Definition.Errors.{Error}
use garam_agent_operator.Service.Status.{contains}
use garam_agent_operator.Execution.{GaramError, Failure, Codec, Request}
use garam_agent_operator.Handler.{Outcome, done, fails, panics}
use garam_agent_operator.Execution.Activate.{activate}
use garam_agent_operator.Execution.Report.{report_status}
use garam_agent_operator.Execution.Respond.{
  Line, Response, Server, Route, respond_service, respond_error, respond, serve, serve_all,
  contract_value,
}

-- The contracts of the lines, the last first.
abbrev pub contracts : List Line → List String
contracts [] = []
contracts (Line.foreign_contract call contract ∷ lines) = contract ∷ contracts lines
contracts (Line.failed_request ∷ lines) = contracts lines
contracts (Line.panicked ∷ lines) = contracts lines

-- No text stands twice.
abbrev pub IsDistinct : List String → Type 0
IsDistinct [] = Unit {0}
IsDistinct (s ∷ rest) = (contains s rest ≡ false) × IsDistinct rest

module _ {S : Type 0} where
  -- The contracts logged are those remembered, each once.
  pub record IsOnce (s : Server S) : Type 0 where
    pub same : s.foreign_contracts ≡ contracts s.logged
    pub distinct : IsDistinct (contracts s.logged)

  respond_service-IsOnce : (e : Error) (s : Server S) → IsOnce s → IsOnce (respond_service e s).1
  unfolding respond_service
  respond_service-IsOnce Error.agent_stopped s h = h
  respond_service-IsOnce Error.request_reused s h = h
  respond_service-IsOnce Error.invalid_status s h = h
  respond_service-IsOnce Error.not_found s h = h
  respond_service-IsOnce e s h = record { same = h.same; distinct = h.distinct }

  respond_error-IsOnce : (f : Failure) (s : Server S) → IsOnce s → IsOnce (respond_error f s).1
  unfolding respond_error
  respond_error-IsOnce (Failure.garam (GaramError.foreign call contract)) s h =
      elim (Bool-cases (contains contract s.foreign_contracts)) [
        | inl seen ↦ rw seen h
        | inr new ↦ rw new (record {
          same = ground (arith, h.same);
          distinct = (ground (arith, h.same), h.distinct);
        })
      ]
  respond_error-IsOnce (Failure.refused r) s h = h
  respond_error-IsOnce (Failure.service e) s h = respond_service-IsOnce e s h
  respond_error-IsOnce (Failure.garam GaramError.undecided) s h = h
  respond_error-IsOnce (Failure.garam e) s h = record { same = h.same; distinct = h.distinct }

  respond-IsOnce :
      {A : Type 0} (write : A → Response) (o : Outcome Failure A) (s : Server S)
      → IsOnce s
      → IsOnce (respond write o s).1
  unfolding respond
  respond-IsOnce write (done a) s h = h
  respond-IsOnce write (fails e) s h = respond_error-IsOnce e s h
  respond-IsOnce write panics s h = record { same = h.same; distinct = h.distinct }

  serve-IsOnce :
      (codec : Codec) (route : Route) (r : Request) (s : Server S)
      → IsOnce s
      → IsOnce (serve codec route r s).1
  unfolding serve
  serve-IsOnce codec Route.activations r s h = elim (Bool-cases (r.contract != contract_value)) [
    | inl other ↦ rw other h
    | inr ours ↦ rw ours (
        respond-IsOnce _ (activate codec r s.memory).0
          (record s { memory = (activate codec r s.memory).1 })
          (record { same = h.same; distinct = h.distinct }))
  ]
  serve-IsOnce codec Route.runtime_status r s h = elim (Bool-cases (r.contract != contract_value)) [
    | inl other ↦ rw other h
    | inr ours ↦ rw ours (
        respond-IsOnce _ (report_status codec r s.memory).0
          (record s { memory = (report_status codec r s.memory).1 })
          (record { same = h.same; distinct = h.distinct }))
  ]

  -- Whatever requests are served, each contract that garam answered under and that the routes do not
  -- take is logged once at most, whatever the calls that it came in.
  pub serve_all-IsOnce :
      (codec : Codec) (requests : List (Route × Request)) (s : Server S)
      → IsOnce s
      → IsOnce (serve_all codec requests s)
  unfolding serve_all
  serve_all-IsOnce codec [] s h = h
  serve_all-IsOnce codec ((route, r) ∷ rest) s h =
      serve_all-IsOnce codec rest (serve codec route r s).1 (serve-IsOnce codec route r s h)
