-- ===== src/Distribution/Respond.antt =====
-- internal/distribution/respond.go: what a request that fails is answered with. The message is left out,
-- and so is the log of what the caller cannot act on.
use garam_agent_operator.Prelude.{ℕ, String}
use garam_agent_operator.Definition.Errors.{Error}
use garam_agent_operator.Distribution.{ProofError, Failure}

-- The status, and the kind or no text.
pub record Answer : Type 0 where
  pub status : ℕ
  pub kind : String

abbrev pub answered : ℕ → String → Answer
answered status kind = record { status = status; kind = kind }

-- The errors of the definitions. Those of a registrar and of the profiles reach no controller route.
unfoldable pub respond_service : Error → Answer
respond_service Error.placement_superseded = answered 409 "placement_superseded"
respond_service Error.previous_mismatch = answered 409 "previous_mismatch"
respond_service Error.evidence_missing = answered 409 "evidence_missing"
respond_service Error.placement_conflict = answered 409 "placement_conflict"
respond_service Error.recovery_epoch = answered 409 "epoch_superseded"
respond_service Error.request_reused = answered 409 "request_reused"
respond_service Error.recovery_stage = answered 409 "recovery_stage"
respond_service Error.invalid_status = answered 400 ""
respond_service Error.invalid_images = answered 400 ""
respond_service Error.not_found = answered 404 ""
respond_service _ = answered 500 ""

unfoldable pub respond_proof : ProofError → Answer
respond_proof ProofError.token_refused = answered 401 ""
respond_proof ProofError.not_proved = answered 403 ""
respond_proof ProofError.undecided = answered 503 ""
respond_proof ProofError.contract_unsupported = answered 503 "garam_contract_unsupported"
respond_proof ProofError.other = answered 500 ""

-- `respondError`
unfoldable pub respond_error : Failure → Answer
unfolding respond_service respond_proof
respond_error Failure.invalid_placement_body = answered 400 "invalid_request"
respond_error Failure.epoch_superseded = answered 409 "epoch_superseded"
respond_error Failure.no_token = answered 401 ""
respond_error Failure.another_operator = answered 403 ""
respond_error Failure.not_placed = answered 403 ""
respond_error Failure.invalid_query = answered 400 ""
respond_error Failure.invalid_status_body = answered 400 ""
respond_error Failure.invalid_recovery_body = answered 400 ""
respond_error Failure.invalid_images_body = answered 400 ""
respond_error Failure.too_many_agents = answered 422 "too_many_agents"
respond_error (Failure.prover e) = respond_proof e
respond_error (Failure.service e) = respond_service e
