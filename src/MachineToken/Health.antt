-- ===== src/MachineToken/Health.antt =====
-- What `Check` says of the failures that a source met.
use garam_agent_operator.Prelude.{
  ℕ, ◌+◌, ◌<◌, ◌≤◌, ◌≡◌, ◌≢◌, ◌⊎◌, refl, Option, none, some, Bool-cases, inl, inr, List, [], ◌∷◌,
  All, arith, string_eq, ℕ_eq, ◌==◌, ◌!=◌, ◌&&◌, leb, ltb, nat_eq_iff,
}
use garam_agent_operator.MachineToken.{
  Source, Sent, answered, failure, wait_after, Failure, Streak, streak_fail, streak_end,
  exchange_failed, exchange_answered, credential, new_source, invalidate, observe, check, exchanged,
  cause_exchange, sustained_failure, Event, step, run, cause_call,
}

-- The time that a call reads is as said.
abbrev pub IsTimed : (ℕ → Type 0) → Event → Type 0
IsTimed P (Event.ask now sent) = P now
IsTimed P (Event.drop token) = Unit {0}
IsTimed P (Event.outcome now status) = P now

-- No run of failures is open that did not begin at a time as said.
abbrev pub IsOpened : (ℕ → Type 0) → Streak → Type 0
IsOpened P s = (s.since ≡ 0) ⊎ P s.since

module _ (P : ℕ → Type 0) where
  streak_fail-IsOpened :
      (now cause : ℕ) (e : Failure) (s : Streak)
      → P now
      → IsOpened P s
      → IsOpened P (streak_fail now cause e s)
  unfolding streak_fail
  streak_fail-IsOpened now cause e s h k = elim (Bool-cases (s.since == 0)) [
    | inl new ↦ inr (rw new h)
    | inr opened ↦ rw opened k
  ]

  streak_end-IsOpened : (cause : ℕ) (s : Streak) → IsOpened P s → IsOpened P (streak_end cause s)
  unfolding streak_end
  streak_end-IsOpened cause s k = elim (Bool-cases (leb s.cause cause)) [
    | inl ends ↦ rw ends (inl refl)
    | inr stays ↦ rw stays k
  ]

  exchanged-IsOpened :
      (now : ℕ) (sent : Sent) (s : Source)
      → P now
      → IsOpened P s.streak
      → IsOpened P (exchanged now sent s).1.streak
  unfolding exchange_failed exchange_answered
  exchanged-IsOpened now (answered token client_id lifetime) s h k =
      streak_end-IsOpened cause_exchange s.streak k
  exchanged-IsOpened now (failure reason wait) s h k =
      (streak_fail-IsOpened now cause_exchange
        (Failure.exchange reason (now + wait_after (s.failures + 1) wait)) s.streak h k)

  credential-IsOpened :
      (now : ℕ) (sent : Sent) (s : Source)
      → P now
      → IsOpened P s.streak
      → IsOpened P (credential now sent s).1.streak
  unfolding credential
  credential-IsOpened now sent s h k = elim (Bool-cases (s.token != "" && ltb now s.refresh)) [
    | inl fresh ↦ rw fresh k
    | inr stale ↦ rw stale (elim (Bool-cases (ltb now s.until)) [
      | inl waits ↦ rw waits k
      | inr due ↦ rw due (exchanged-IsOpened now sent s h k)
    ])
  ]

  observe-IsOpened :
      (now status : ℕ) (s : Source)
      → P now
      → IsOpened P s.streak
      → IsOpened P (observe now (some status) s).streak
  unfolding observe
  observe-IsOpened now status s h k = elim (Bool-cases (leb 500 status)) [
    | inl broken ↦ rw broken k
    | inr told ↦ rw told (elim (Bool-cases (status == 401)) [
      | inl refused ↦
          rw refused ((streak_fail-IsOpened now cause_call Failure.call_refused s.streak h k))
      | inr taken ↦ rw taken (streak_end-IsOpened cause_call s.streak k)
    ])
  ]

  step-IsOpened :
      (s : Source) (e : Event) → IsTimed P e → IsOpened P s.streak → IsOpened P (step s e).streak
  unfolding step invalidate observe
  step-IsOpened s (Event.ask now sent) h k = credential-IsOpened now sent s h k
  step-IsOpened s (Event.drop token) h k = elim (Bool-cases (s.token == token)) [
    | inl same ↦ rw same k
    | inr other ↦ rw other k
  ]
  step-IsOpened s (Event.outcome now none) h k = k
  step-IsOpened s (Event.outcome now (some status)) h k = observe-IsOpened now status s h k

  pub run-IsOpened :
      (s : Source) (es : List Event)
      → All (IsTimed P) es
      → IsOpened P s.streak
      → IsOpened P (run s es).streak
  unfolding run
  run-IsOpened s [] h k = k
  run-IsOpened s (e ∷ es) h k = run-IsOpened (step s e) es h.1 (step-IsOpened s e h.0 k)

-- A call that garam answered with anything but 401 or a 5xx.
abbrev pub IsTaken : ℕ → Type 0
IsTaken status = (status < 500) × (status ≢ 401)

-- No run of failures has a cause other than the two.
abbrev pub IsCaused : Source → Type 0
IsCaused s = s.streak.cause ≤ cause_call

step-IsCaused : (s : Source) (e : Event) → IsCaused s → IsCaused (step s e)
unfolding step credential exchange_failed exchange_answered invalidate observe streak_fail
    streak_end
step-IsCaused s (Event.ask now (answered token client_id lifetime)) h = ground arith
step-IsCaused s (Event.ask now (failure reason wait)) h = ground arith
step-IsCaused s (Event.drop token) h = ground arith
step-IsCaused s (Event.outcome now none) h = h
step-IsCaused s (Event.outcome now (some status)) h = ground arith

pub run-IsCaused : (s : Source) (es : List Event) → IsCaused s → IsCaused (run s es)
unfolding run
run-IsCaused s [] h = h
run-IsCaused s (e ∷ es) h = run-IsCaused (step s e) es (step-IsCaused s e h)

observe_taken :
    (now status : ℕ) (s : Source)
    → IsTaken status
    → IsCaused s
    → (observe now (some status) s).streak.since ≡ 0
unfolding observe streak_end
observe_taken now status s h c = ground (arith, nat_eq_iff status 401)

-- For an hour after a call was answered with anything but 401 or a 5xx, whatever calls and exchanges
-- fail since, the check of a source reports nothing.
pub check-run_taken :
    (before after : List Event) (t now status : ℕ)
    → IsTaken status
    → All (IsTimed (λ x. t ≤ x)) after
    → now ≤ t + sustained_failure
    → check now (run (observe t (some status) (run new_source before)) after) ≡ none
unfolding check
check-run_taken before after t now status h from le =
    let s = run new_source before in
    let begun : IsOpened (λ x. t ≤ x) (run (observe t (some status) s) after).streak =
      run-IsOpened (λ x. t ≤ x) (observe t (some status) s) after from
        (inl (observe_taken t status s h (run-IsCaused new_source before (omega arith)))) in
    elim begun [ inl none_open ↦ ground arith | inr later ↦ ground arith ]

-- Not a call that garam answered with anything but 401 or a 5xx.
abbrev pub IsNotTaken : Event → Type 0
IsNotTaken (Event.ask now sent) = Unit {0}
IsNotTaken (Event.drop token) = Unit {0}
IsNotTaken (Event.outcome now none) = Unit {0}
IsNotTaken (Event.outcome now (some status)) = (500 ≤ status) ⊎ (status ≡ 401)

-- A call refused is what the run of failures began with, or what came since.
record IsRefused (since : ℕ) (s : Source) : Type 0 where
  pub began : s.streak.since ≡ since
  pub by_call : s.streak.cause ≡ cause_call
  pub named : s.streak.last ≢ none

step-IsRefused :
    (since : ℕ) (s : Source) (e : Event)
    → 1 ≤ since
    → IsNotTaken e
    → IsRefused since s
    → IsRefused since (step s e)
unfolding step credential exchange_failed exchange_answered invalidate observe streak_fail
    streak_end
step-IsRefused since s (Event.ask now (answered token client_id lifetime)) p q h = record {
  began = ground (arith, h.began, h.by_call);
  by_call = ground (arith, h.by_call);
  named = ground (arith, h.named, h.by_call);
}
step-IsRefused since s (Event.ask now (failure reason wait)) p q h = record {
  began = ground (arith, h.began);
  by_call = ground (arith, h.by_call);
  named = ground (arith, h.named);
}
step-IsRefused since s (Event.drop token) p q h = record {
  began = ground (arith, h.began);
  by_call = ground (arith, h.by_call);
  named = ground (arith, h.named);
}
step-IsRefused since s (Event.outcome now none) p q h = h
step-IsRefused since s (Event.outcome now (some status)) p (inl broken) h = record {
  began = ground (arith, h.began);
  by_call = ground (arith, h.by_call);
  named = ground (arith, h.named);
}
step-IsRefused since s (Event.outcome now (some status)) p (inr refused) h = rw refused (record {
  began = ground (arith, h.began);
  by_call = ground (arith, h.by_call);
  named = ground arith;
})

run-IsRefused :
    (since : ℕ) (s : Source) (es : List Event)
    → 1 ≤ since
    → All IsNotTaken es
    → IsRefused since s
    → IsRefused since (run s es)
unfolding run
run-IsRefused since s [] p q h = h
run-IsRefused since s (e ∷ es) p q h =
    run-IsRefused since (step s e) es p q.1 (step-IsRefused since s e p q.0 h)

-- A time after the zero time and no later than `t`.
abbrev pub IsUpTo : ℕ → ℕ → Type 0
IsUpTo t x = (1 ≤ x) × (x ≤ t)

observe-IsRefused :
    (t : ℕ) (s : Source)
    → 1 ≤ t
    → IsCaused s
    → IsOpened (IsUpTo t) s.streak
    → let s' = observe t (some 401) s in IsRefused s'.streak.since s' × IsUpTo t s'.streak.since
unfolding observe streak_fail
observe-IsRefused t s p c (inl none_open) = (
  record { began = refl; by_call = ground arith; named = ground arith },
  (ground arith, ground arith),
)
observe-IsRefused t s p c (inr opened) = (
  record { began = refl; by_call = ground arith; named = ground arith },
  (ground arith, ground arith),
)

-- Once a call was refused with 401, and no call since was answered with anything but 401 or a 5xx, the
-- check reports a failure from an hour after the refusal on, however many exchanges answered tokens.
pub check-run_refused :
    (before after : List Event) (t now : ℕ)
    → 1 ≤ t
    → All (IsTimed (IsUpTo t)) before
    → All IsNotTaken after
    → t + sustained_failure < now
    → (since : ℕ) × (last : Option Failure) × (last ≢ none)
      × (since ≤ t)
      × (check now (run (observe t (some 401) (run new_source before)) after) ≡ some (since, last))
unfolding check
check-run_refused before after t now p from q lt =
    let s = run new_source before in
    let s' = observe t (some 401) s in
    let (begun, (low, high)) =
      observe-IsRefused t s p (run-IsCaused new_source before (omega arith))
        (run-IsOpened (IsUpTo t) new_source before from (inl refl)) in
    let h = run-IsRefused s'.streak.since s' after low q begun in
    (s'.streak.since, (run s' after).streak.last, h.named, high, ground (arith, h.began))
