-- ===== src/Execution/Refusals.antt =====
-- internal/execution/respond.go: the refusals that agent-execution.v2 names, and `refusalOf` of
-- activation.go.
use garam_agent_operator.Prelude.{Option}
use garam_agent_operator.Exec.{Exec}
use garam_agent_operator.Handler.{
  Handler as HandlerOf, fail, service as service_as, find_or as find_as, read_or as read_as,
}
use garam_agent_operator.Execution.{GaramError, Refusal, Failure}

abbrev pub invalid_request : Refusal
invalid_request = record { status = 400; kind = "invalid_request" }

abbrev pub unauthenticated : Refusal
unauthenticated = record { status = 401; kind = "unauthenticated" }

abbrev pub not_authorized : Refusal
not_authorized = record { status = 403; kind = "not_authorized" }

abbrev pub placement_not_current : Refusal
placement_not_current = record { status = 403; kind = "placement_not_current" }

abbrev pub credential_fenced : Refusal
credential_fenced = record { status = 403; kind = "credential_fenced" }

-- `errTokenRefused`: the kind is the fence's, the message another.
abbrev pub token_refused : Refusal
token_refused = record { status = 403; kind = "credential_fenced" }

abbrev pub request_reused : Refusal
request_reused = record { status = 409; kind = "request_reused" }

abbrev pub epoch_superseded : Refusal
epoch_superseded = record { status = 409; kind = "epoch_superseded" }

abbrev pub activation_superseded : Refusal
activation_superseded = record { status = 409; kind = "activation_superseded" }

abbrev pub generation_not_current : Refusal
generation_not_current = record { status = 409; kind = "generation_not_current" }

abbrev pub undecided : Refusal
undecided = record { status = 503; kind = "undecided" }

-- `refusalOf`
unfoldable pub refusal_of : GaramError → Refusal → Failure
refusal_of GaramError.undecided forbidden = Failure.refused undecided
refusal_of GaramError.not_authorized forbidden = Failure.refused forbidden
refusal_of GaramError.credential_refused forbidden = Failure.refused token_refused
refusal_of GaramError.activation_superseded forbidden = Failure.refused activation_superseded
refusal_of (GaramError.foreign call contract) forbidden =
    Failure.garam (GaramError.foreign call contract)
refusal_of GaramError.other forbidden = Failure.garam GaramError.other

abbrev pub Handler : Type 0 → Type 0 → Type 0
Handler State A = HandlerOf Failure State A

module _ {State A : Type 0} where
  abbrev pub refuse : Refusal → Handler State A
  refuse r = fail (Failure.refused r)

  abbrev pub service : Exec State A → Handler State A
  service m = service_as Failure.service m

  abbrev pub find_or : Refusal → Exec State A → Handler State A
  find_or missing m = find_as Failure.service (Failure.refused missing) m

  abbrev pub read_or : Refusal → Option A → Handler State A
  read_or missing o = read_as (Failure.refused missing) o
