-- ===== src/MachineToken.antt =====
-- internal/machinetoken/source.go, health.go and transport.go: the token that a process presents to
-- garam, and what is known of its failures. A time is a number of nanoseconds after Go's zero time,
-- which is 0; a duration that is negative reads as 0, since it is only compared with what is later.
pub mod Exchange
pub mod Transport
pub mod Bounds
pub mod Waits
pub mod Health
pub mod Trips
use garam_agent_operator.Prelude.{
  ℕ, ◌+◌, ◌-◌, ◌*◌, ◌/◌, ◌%◌, ◌^◌, String, Bool, true, false, not, ◌&&◌, ◌||◌, Option, none, some,
  ◌==◌, ◌!=◌, string_eq, ℕ_eq, List, [], ◌∷◌, ltb, leb, max_nat, if◌then◌else◌,
}

abbrev pub second : ℕ
second = 1000000000

-- A product of an `int64` that is not negative, which wraps; a negative one reads as 0.
unfoldable pub to_duration : ℕ → ℕ
to_duration n = if ltb (n % 2 ^ 64) (2 ^ 63) then n % 2 ^ 64 else 0

-- `Reason`
pub data Reason : Type 0 where
  key unavailable throttled invalid_client refused : Reason

-- `Error`, and an error of a call.
pub data Failure : Type 0 where
  exchange : Reason → ℕ → Failure
  call_refused : Failure

-- `cause`, with 0 where no run of failures is open.
abbrev pub cause_exchange : ℕ
cause_exchange = 1

abbrev pub cause_call : ℕ
cause_call = 2

pub record Streak : Type 0 where
  pub since : ℕ
  pub cause : ℕ
  pub last : Option Failure

pub record Source : Type 0 where
  pub token : String
  pub client_id : String
  pub refresh : ℕ
  pub expiry : ℕ
  pub failures : ℕ
  pub until : ℕ
  pub failed : Option Failure
  pub streak : Streak

-- What an exchange brought: a token with its client id and its lifetime, or a reason with the wait that
-- garam asked for, 0 for none.
pub data Sent : Type 0 where
  answered : String → String → ℕ → Sent
  failure : Reason → ℕ → Sent

abbrev pub no_streak : Streak
no_streak = record { since = 0; cause = 0; last = none }

-- `NewSource`
abbrev pub new_source : Source
new_source = record {
  token = "";
  client_id = "";
  refresh = 0;
  expiry = 0;
  failures = 0;
  until = 0;
  failed = none;
  streak = no_streak;
}

-- `streak.fail` and `streak.end`
unfoldable pub streak_fail : ℕ → ℕ → Failure → Streak → Streak
streak_fail now cause e s = record {
  since = if s.since == 0 then now else s.since;
  cause = max_nat s.cause cause;
  last = some e;
}

unfoldable pub streak_end : ℕ → Streak → Streak
streak_end cause s = if leb s.cause cause then no_streak else s

abbrev pub first_backoff : ℕ
first_backoff = second

abbrev pub last_backoff : ℕ
last_backoff = 300 * second

abbrev pub min_nat : ℕ → ℕ → ℕ
min_nat a b = if ltb b a then b else a

-- The wait after a number of failures in a row, where garam asked for `retry_after`.
unfoldable pub wait_after : ℕ → ℕ → ℕ
wait_after failures retry_after =
    if retry_after == 0
    then min_nat (first_backoff * 2 ^ min_nat (failures - 1) 16) last_backoff
    else retry_after

-- `exchange`, after `send`.
unfoldable pub exchange_failed : ℕ → Reason → ℕ → Source → Source
unfolding wait_after streak_fail
exchange_failed now reason retry_after s =
    let failures = s.failures + 1 in
    let until = now + wait_after failures retry_after in
    let e = Failure.exchange reason until in
    record s {
      failures = failures;
      until = until;
      failed = some e;
      streak = streak_fail now cause_exchange e s.streak;
    }

unfoldable pub exchange_answered : ℕ → String → String → ℕ → Source → Source
unfolding to_duration streak_end
exchange_answered now token client_id lifetime s = record {
  token = token;
  client_id = client_id;
  refresh = now + to_duration (lifetime * 2) / 3;
  expiry = now + lifetime;
  failures = 0;
  until = 0;
  failed = none;
  streak = streak_end cause_exchange s.streak;
}

-- A token with its client id, or the last failure: `none` for the error that names none.
pub data Credential : Type 0 where
  held : String → String → Credential
  no_token : Option Failure → Credential

-- `held`
unfoldable pub held_at : ℕ → Source → Credential
held_at now s =
    if s.token != "" && ltb now s.expiry
    then Credential.held s.token s.client_id
    else no_token s.failed

abbrev pub exchanged : ℕ → Sent → Source → Credential × Source
exchanged now (failure reason retry_after) s =
    let s' = exchange_failed now reason retry_after s in (held_at now s', s')
exchanged now (answered token client_id lifetime) s =
    (Credential.held token client_id, exchange_answered now token client_id lifetime s)

-- `credential`: what an exchange would bring is `sent`.
unfoldable pub credential : ℕ → Sent → Source → Credential × Source
unfolding held_at exchange_failed exchange_answered
credential now sent s =
    if s.token != "" && ltb now s.refresh
    then (Credential.held s.token s.client_id, s)
    else if ltb now s.until
    then (held_at now s, s)
    else exchanged now sent s

-- `Invalidate`
unfoldable pub invalidate : String → Source → Source
invalidate token s = if s.token == token then record s { token = "" } else s

-- `observe`, of a call's status, with `none` for a call that had no answer.
unfoldable pub observe : ℕ → Option ℕ → Source → Source
unfolding streak_fail streak_end
observe now none s = s
observe now (some status) s =
    if leb 500 status
    then s
    else if status == 401
    then record s { streak = streak_fail now cause_call Failure.call_refused s.streak }
    else record s { streak = streak_end cause_call s.streak }

-- `SustainedFailure`
abbrev pub sustained_failure : ℕ
sustained_failure = 3600 * second

-- `Check`: the last failure and since when, where it is an error.
unfoldable pub check : ℕ → Source → Option (ℕ × Option Failure)
check now s =
    if s.streak.since == 0 || leb (now - s.streak.since) sustained_failure
    then none
    else some (s.streak.since, s.streak.last)

-- A call of the source, with the time that it reads. Each holds the source's mutex, or the streak's.
pub data Event : Type 0 where
  ask : ℕ → Sent → Event
  drop : String → Event
  outcome : ℕ → Option ℕ → Event

unfoldable pub step : Source → Event → Source
unfolding credential invalidate observe
step s (ask now sent) = (credential now sent s).1
step s (drop token) = invalidate token s
step s (outcome now status) = observe now status s

unfoldable pub run : Source → List Event → Source
unfolding step
run s [] = s
run s (e ∷ es) = run (step s e) es
