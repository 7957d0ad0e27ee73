-- ===== src/MachineToken/Waits.antt =====
-- While a source waits after a failed exchange, it sends none.
use garam_agent_operator.Prelude.{ℕ, ◌<◌, ◌≤◌, ◌≡◌, refl, List, [], ◌∷◌, All, ◌∙◌, string_eq, arith}
use garam_agent_operator.MachineToken.{
  Source, Sent, held_at, credential, invalidate, observe, Event, step, run,
}

-- Before the time, where the call may exchange.
abbrev pub AsksBefore : ℕ → Event → Type 0
AsksBefore until (Event.ask now sent) = now < until
AsksBefore until (Event.drop token) = Unit {0}
AsksBefore until (Event.outcome now status) = Unit {0}

-- Before the wait ends, a call is answered without an exchange: whatever one would bring, the answer
-- is what is held or the last failure, and nothing changes.
pub credential-waits :
    (now : ℕ) (sent : Sent) (s : Source)
    → s.refresh ≤ s.expiry
    → now < s.until
    → credential now sent s ≡ (held_at now s, s)
unfolding credential held_at
credential-waits now sent s sound h = ground arith

step-waits :
    (s : Source) (e : Event)
    → AsksBefore s.until e
    → ((step s e).until ≡ s.until)
      × ((step s e).failures ≡ s.failures)
      × ((step s e).failed ≡ s.failed)
unfolding step credential invalidate observe
step-waits s (Event.ask now sent) h = (ground arith, ground arith, ground arith)
step-waits s (Event.drop token) h = (ground arith, ground arith, ground arith)
step-waits s (Event.outcome now status) h = (ground arith, ground arith, ground arith)

-- After a failed exchange, whatever calls come before its wait ends, no exchange is counted as failed
-- or answered: the wait, the count and the failure stay.
pub run-waits :
    (until : ℕ) (s : Source) (es : List Event)
    → s.until ≡ until
    → All (AsksBefore until) es
    → ((run s es).until ≡ until)
      × ((run s es).failures ≡ s.failures)
      × ((run s es).failed ≡ s.failed)
unfolding run
run-waits until s [] e h = (e, refl, refl)
run-waits until s (x ∷ es) e h =
    let (u, f, g) = step-waits s x (rw e h.0) in
    let (u', f', g') = run-waits until (step s x) es (u ∙ e) h.1 in (u', f' ∙ f, g' ∙ g)
