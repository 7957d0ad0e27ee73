-- ===== src/MachineToken/Transport.antt =====
-- internal/machinetoken/transport.go: the calls that present the token.
use garam_agent_operator.Prelude.{
  ℕ, String, Bool, not, ◌&&◌, Option, none, some, ◌==◌, string_eq, ℕ_eq, option_eq, List, [], ◌∷◌,
  if◌then◌else◌,
}
use garam_agent_operator.MachineToken.{
  Failure, Source, Sent, held, no_token, credential, invalidate, observe,
}

-- A request, and what it meets: whether it has a body and one that can be sent again, whether that
-- body is read again, and what the base answers to a token and its client id at the first sending and
-- at the second; `none` is a transport's error.
pub record Call : Type 0 where
  pub has_body : Bool
  pub has_get_body : Bool
  pub is_read_again : Bool
  pub first : String → String → Option ℕ
  pub second : String → String → Option ℕ

-- The clock at each of its readings, and what an exchange would bring at each.
pub record Clock : Type 0 where
  pub first : ℕ
  pub second : ℕ
  pub observed : ℕ
  pub first_sent : Sent
  pub second_sent : Sent

pub data Result : Type 0 where
  no_credential : Option Failure → Result
  status : Option ℕ → Result

-- What is answered, and the tokens that the base was sent, in order.
pub record Trip : Type 0 where
  pub result : Result
  pub presented : List String

-- After a 401 under a token.
unfoldable pub trip_again : Call → Clock → String → Source → Trip × Source
trip_again call clock token s =
    let refused : Trip = record { result = status (some 401); presented = token ∷ [] } in
    if call.has_body && not call.has_get_body
    then (refused, s)
    else (let (c, s') = credential clock.second clock.second_sent (invalidate token s) in
        elim c [
          | no_token e ↦ (refused, s')
          | held fresh client_id ↦
              if fresh == token
              then (refused, s')
              else if call.has_get_body && not call.is_read_again
              then (refused, s')
              else (
                record {
                  result = status (call.second fresh client_id);
                  presented = token ∷ fresh ∷ [];
                },
                s',
              )
        ])

-- `roundTrip`
unfoldable pub trip : Call → Clock → Source → Trip × Source
unfolding trip_again
trip call clock s =
    let (c, s') = credential clock.first clock.first_sent s in
    elim c [
      | no_token e ↦ (record { result = no_credential e; presented = [] }, s')
      | held token client_id ↦
          let answer = call.first token client_id in
          if answer == some 401
          then trip_again call clock token s'
          else (record { result = status answer; presented = token ∷ [] }, s')
    ]

abbrev pub observed : Result → Option ℕ
observed (no_credential e) = none
observed (status code) = code

-- `RoundTrip`
unfoldable pub round_trip : Call → Clock → Source → Trip × Source
unfolding trip
round_trip call clock s =
    let (t, s') = trip call clock s in (t, observe clock.observed (observed t.result) s')
