-- ===== src/Execution/Formats.antt =====
-- The patterns and the headers of internal/execution (activation.go, session.go).
use garam_agent_operator.Prelude.{
  ℕ, String, Bool, false, ◌&&◌, ◌||◌, Option, none, some, List, ◌==◌, ℕ_eq, leb, ltb, if◌then◌else◌,
  length,
}
use garam_agent_operator.Text.{codes, every, is_hex, cut_prefix}
use garam_agent_operator.Execution.{Request}

-- [A-Za-z0-9._~-]
abbrev pub is_id_byte : ℕ → Bool
is_id_byte c =
    (leb b'A' c && leb c b'Z')
    || (leb b'a' c && leb c b'z')
    || (leb b'0' c && leb c b'9')
    || c == b'.'
    || c == b'_'
    || c == b'~'
    || c == b'-'

-- `requestIDPattern`: ^[A-Za-z0-9._~-]{1,128}$
unfoldable pub is_request_id : String → Bool
is_request_id s =
    leb 1 (length (codes s)) && leb (length (codes s)) 128 && every is_id_byte (codes s)

-- `generationPattern`: ^[0-9a-f]{32}$
unfoldable pub is_generation : String → Bool
is_generation s = length (codes s) == 32 && every is_hex (codes s)

-- `agentTokenPattern`: ^garam_at_[0-9a-f]{64}$
unfoldable pub is_agent_token : String → Bool
is_agent_token s = elim (cut_prefix "garam_at_" s) [
  | none ↦ false
  | some digits ↦ length (codes digits) == 64 && every is_hex (codes digits)
]

-- `tokenScheme`
abbrev pub token_scheme : String
token_scheme = "Garam-Token "

-- `maxRequestBytes`
abbrev pub max_request_bytes : ℕ
max_request_bytes = 4096

-- `io.ReadAll` of `http.MaxBytesReader`.
unfoldable pub read_body : Request → Option (List ℕ)
read_body r = if r.is_cut || ltb max_request_bytes (length r.body) then none else some r.body
