-- ===== src/MachineToken/Exchange.antt =====
-- `send` and `retryAfter` of internal/machinetoken/source.go: what one exchange brings. The signature,
-- the HTTP client and the JSON decoder are Go's and garam's: an attempt has what they answer.
use garam_agent_operator.Prelude.{
  ℕ, ◌*◌, ◌≤◌, ◌≡◌, ◌≢◌, String, Bool, true, not, ◌||◌, Option, none, some, ◌==◌, ◌!=◌, string_eq,
  ℕ_eq, List, leb, if◌then◌else◌, Option-cases, inl, inr, arith,
}
use text.Mathlib.TextEquality.{eq_iff}
use garam_agent_operator.Text.{atoi, trim_left, trim_right, is_bearer}
use garam_agent_operator.MachineToken.{second, to_duration, Reason, Sent, answered, failure}

-- `oauthToken`. A lifetime that is not positive is 0.
pub record TokenAnswer : Type 0 where
  pub access_token : String
  pub token_type : String
  pub expires_in : ℕ

-- The answer to an exchange: its status and headers, whether its body can be read, and the body as a
-- token and as an error.
pub record HttpAnswer : Type 0 where
  pub status : ℕ
  pub contract : String
  pub retry_after : List ℕ
  pub is_read : Bool
  pub token : Option TokenAnswer
  pub error : String

-- What an exchange meets: the client id that `readIdentity` answers, whether the assertion is signed and
-- the request built, and garam's answer, where there is one.
pub record Attempt : Type 0 where
  pub client_id : Option String
  pub is_signed : Bool
  pub is_built : Bool
  pub answer : Option HttpAnswer

-- `assertionContract`
abbrev pub assertion_contract : String
assertion_contract = "machine-token.v2"

-- `retryAfter`
unfoldable pub retry_after_of : List ℕ → ℕ
unfolding atoi to_duration
retry_after_of value = elim (atoi (trim_left (trim_right value))) [
  | none ↦ 0
  | some n ↦ to_duration (n * second)
]

unfoldable pub send_token : String → HttpAnswer → Sent
unfolding to_duration is_bearer
send_token client_id a =
    if a.contract != assertion_contract then failure Reason.unavailable 0 else elim a.token [
      | none ↦ failure Reason.unavailable 0
      | some t ↦
          if t.access_token == "" || not (is_bearer t.token_type) || t.expires_in == 0
          then failure Reason.unavailable 0
          else answered t.access_token client_id (to_duration (t.expires_in * second))
    ]

unfoldable pub send_answer : String → HttpAnswer → Sent
unfolding send_token retry_after_of
send_answer client_id a =
    if not a.is_read
    then failure Reason.unavailable 0
    else if a.status == 200
    then send_token client_id a
    else if a.status == 429
    then failure Reason.throttled (retry_after_of a.retry_after)
    else if leb 500 a.status
    then failure Reason.unavailable 0
    else if a.error == "invalid_client"
    then failure Reason.invalid_client 0
    else failure Reason.refused 0

unfoldable pub send : Attempt → Sent
unfolding send_answer
send a = elim a.client_id [
  | none ↦ failure Reason.key 0
  | some client_id ↦
      if not a.is_signed
      then failure Reason.key 0
      else if not a.is_built
      then failure Reason.unavailable 0
      else elim a.answer [ none ↦ failure Reason.unavailable 0 | some h ↦ send_answer client_id h ]
]

-- Garam answered a token that lasts.
pub record IsGranted (a : Attempt) (token client_id : String) (lifetime : ℕ) : Type 0 where
  pub http : HttpAnswer
  pub answer : a.answer ≡ some http
  pub status : http.status ≡ 200
  pub contract : http.contract ≡ assertion_contract
  pub grant : TokenAnswer
  pub decoded : http.token ≡ some grant
  pub access_token : grant.access_token ≡ token
  pub bearer : is_bearer grant.token_type ≡ true
  pub named : token ≢ ""
  pub identity : a.client_id ≡ some client_id
  pub expires : 1 ≤ grant.expires_in
  pub lifetime_of : lifetime ≡ to_duration (grant.expires_in * second)

send_token_answered :
    (own : String) (h : HttpAnswer) (token client_id : String) (lifetime : ℕ)
    → send_token own h ≡ answered token client_id lifetime
    → (h.contract ≡ assertion_contract)
      × (client_id ≡ own)
      × ((t : TokenAnswer) × (h.token ≡ some t)
          × (t.access_token ≡ token)
          × (is_bearer t.token_type ≡ true)
          × (token ≢ "")
          × (1 ≤ t.expires_in)
          × (lifetime ≡ to_duration (t.expires_in * second)))
unfolding send_token
send_token_answered own h token client_id lifetime e = elim (Option-cases h.token) [
  | inl q ↦ absurd (ground arith)
  | inr (t, q) ↦ (
    ground (arith, eq_iff h.contract assertion_contract),
    ground arith,
    (
      t,
      q,
      ground arith,
      ground arith,
      ground (arith, eq_iff t.access_token ""),
      ground arith,
      ground arith,
    ),
  )
]

-- An exchange brings a token only from an answer 200 under the contract that names a bearer token and a
-- lifetime, and then under the client id of the identity that was read; the lifetime is its seconds, as
-- an `int64` of nanoseconds holds them.
pub send-IsGranted :
    (a : Attempt) (token client_id : String) (lifetime : ℕ)
    → send a ≡ answered token client_id lifetime
    → IsGranted a token client_id lifetime
unfolding send send_answer
send-IsGranted a token client_id lifetime e = elim (Option-cases a.client_id) [
  | inl q ↦ absurd (ground arith)
  | inr (own, q) ↦ elim (Option-cases a.answer) [
    | inl k ↦ absurd (ground arith)
    | inr (h, k) ↦
        let sent : send_token own h ≡ answered token client_id lifetime = ground arith in
        let (contract, same, (t, decoded, access_token, bearer, named, expires, lifetime_of)) =
          send_token_answered own h token client_id lifetime sent in
        record {
          http = h;
          answer = k;
          status = ground arith;
          contract = contract;
          grant = t;
          decoded = decoded;
          access_token = access_token;
          bearer = bearer;
          named = named;
          identity = ground (arith, same);
          expires = expires;
          lifetime_of = lifetime_of;
        }
  ]
]

-- The seconds that an `int64` of nanoseconds holds.
pub to_duration_seconds : (n : ℕ) → n ≤ 9223372036 → to_duration (n * second) ≡ n * second
unfolding to_duration
to_duration_seconds n h = ground arith
