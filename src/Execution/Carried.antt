-- ===== src/Execution/Carried.antt =====
-- internal/execution (activation.go): the token and the body that a request of the agent routes carries.
use garam_agent_operator.Prelude.{
  ◌≡◌, ◌≢◌, String, true, Option, none, some, Option-cases, inl, inr, string_eq, ℕ_eq, arith,
  length,
}
use text.Mathlib.TextEquality.{eq_iff}
use garam_agent_operator.Text.{codes, every, is_hex, cut_prefix}
use garam_agent_operator.Definition.Errors.{ok, Result-cases}
use garam_agent_operator.Definition.Types.{ActivationRequest}
use garam_agent_operator.Definition.Revision.{parse_revision}
use garam_agent_operator.Execution.{ActivationBody, Request}
use garam_agent_operator.Execution.Formats.{is_agent_token}
use garam_agent_operator.Execution.Activate.{agent_token, parse_activation}

-- The header is the scheme and a token, which is `garam_at_` and 64 hexadecimal digits.
pub record IsCarried (header token : String) : Type 0 where
  pub after_scheme : cut_prefix "Garam-Token " header ≡ some token
  pub digits : String
  pub form : cut_prefix "garam_at_" token ≡ some digits
  pub count : length (codes digits) ≡ 64
  pub hex : every is_hex (codes digits) ≡ true

pub agent_token-IsCarried :
    (r : Request) (token : String) → agent_token r ≡ some token → IsCarried r.authorization token
unfolding agent_token is_agent_token
agent_token-IsCarried r token h = elim (Option-cases (cut_prefix "Garam-Token " r.authorization)) [
  | inl e ↦ absurd (ground arith)
  | inr (found, e) ↦ elim (Option-cases (cut_prefix "garam_at_" found)) [
    | inl f ↦ absurd (ground arith)
    | inr (digits, f) ↦ record {
      after_scheme = ground arith;
      digits = digits;
      form = ground arith;
      count = ground arith;
      hex = ground arith;
    }
  ]
]

-- What an activation asks for is what the body says.
pub record IsOfBody (decoded : Option ActivationBody) (req : ActivationRequest) : Type 0 where
  pub body : ActivationBody
  pub is_decoded : decoded ≡ some body
  pub request_id : req.request_id ≡ body.request_id
  pub epoch : req.epoch ≡ body.epoch
  pub has_epoch : req.epoch ≢ ""
  pub generation : req.generation ≡ body.generation
  pub revision : parse_revision body.config_revision ≡ ok req.config_revision

pub parse_activation-IsOfBody :
    (decoded : Option ActivationBody) (req : ActivationRequest)
    → parse_activation decoded ≡ some req
    → IsOfBody decoded req
unfolding parse_activation
parse_activation-IsOfBody none req h = absurd (ground arith)
parse_activation-IsOfBody (some b) req h = elim (Result-cases (parse_revision b.config_revision)) [
  | inr (inl (x, e)) ↦ absurd (ground arith)
  | inr (inr e) ↦ absurd (ground arith)
  | inl (n, e) ↦ record {
    body = b;
    is_decoded = ground arith;
    request_id = ground arith;
    epoch = ground arith;
    has_epoch = ground (arith, eq_iff b.epoch "");
    generation = ground arith;
    revision = ground arith;
  }
]
