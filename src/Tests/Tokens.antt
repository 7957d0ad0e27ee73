-- ===== src/Tests/Tokens.antt =====
-- Runs of the source of machine tokens.
use garam_agent_operator.Prelude.{
  ℕ, inl, ◌+◌, ◌≡◌, ◌≤◌, ◌≢◌, refl, String, Option, none, some, List, [], ◌∷◌, string_eq, arith,
  false,
}
use text.Mathlib.TextEquality.{eq_iff}
use garam_agent_operator.MachineToken.{
  second, Reason, Failure, Source, failure, answered, new_source, exchange_failed, wait_after,
  sustained_failure, Event, run, observe, check,
}
use garam_agent_operator.MachineToken.Transport.{Call, Clock, trip}
use garam_agent_operator.MachineToken.Trips.{trip-IsPresented, IsPresented}
use garam_agent_operator.MachineToken.Waits.{run-waits}
use garam_agent_operator.MachineToken.Health.{check-run_refused}

unfoldable opened_source : Unit {0}
unfolding exchange_failed wait_after run
opened_source = tt

-- A source after its first exchange failed, at a second: it waits for one more.
abbrev waiting : Source
waiting = exchange_failed second Reason.unavailable 0 new_source

abbrev asked_twice : List Event
asked_twice =
    Event.ask 1500000000 (answered "token" "client" second)
    ∷ Event.drop "token"
    ∷ Event.ask 1999999999 (failure Reason.refused 0)
    ∷ []

run-waits_example :
    ((run waiting asked_twice).until ≡ 2000000000)
    × ((run waiting asked_twice).failures ≡ waiting.failures)
    × ((run waiting asked_twice).failed ≡ waiting.failed)
unfolding opened_source
run-waits_example =
    run-waits 2000000000 waiting asked_twice refl (omega arith, (tt, (omega arith, tt)))

abbrev answers : List Event
answers = Event.ask second (answered "token" "client" second) ∷ []

abbrev failing : List Event
failing = Event.outcome 7 (some 503) ∷ Event.ask 9 (answered "other" "client" second) ∷ []

abbrev much_later : ℕ
much_later = second + sustained_failure + 1

check-run_refused_example :
    (since : ℕ) × (last : Option Failure) × (last ≢ none)
    × (since ≤ second)
    × (check much_later (run (observe second (some 401) (run new_source answers)) failing)
        ≡ some (since, last))
check-run_refused_example =
    check-run_refused answers failing second much_later (omega arith) (omega arith, tt)
      (inl (omega arith), (tt, tt)) (omega arith)

abbrev refused_once : Call
refused_once = record {
  has_body = false;
  has_get_body = false;
  is_read_again = false;
  first = λ token client. some 401;
  second = λ token client. some 200;
}

abbrev clock : Clock
clock = record {
  first = second;
  second = second + 1;
  observed = second + 2;
  first_sent = answered "old" "client" second;
  second_sent = answered "new" "client" second;
}

old_named : ◌≢◌ {A = String} "old" ""
old_named e = absurd (ground (arith, eq_iff "old" ""))

new_named : ◌≢◌ {A = String} "new" ""
new_named e = absurd (ground (arith, eq_iff "new" ""))

trip-IsPresented_example :
    IsPresented refused_once clock new_source (trip refused_once clock new_source).0
trip-IsPresented_example =
    trip-IsPresented refused_once clock new_source (omega arith) (old_named, omega arith)
      (new_named, omega arith)
