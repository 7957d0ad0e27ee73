-- ===== src/MachineToken/Bounds.antt =====
-- When a token is presented, and how long a source waits after a failed exchange.
use garam_agent_operator.Prelude.{
  ℕ, zero, suc, ◌+◌, ◌-◌, ◌*◌, ◌^◌, ◌≤◌, ◌<◌, ◌≡◌, ◌≢◌, String, string_eq, ℕ_eq, arith,
}
use text.Mathlib.TextEquality.{eq_iff}
use garam_agent_operator.MachineToken.{
  second, to_duration, Reason, Source, Sent, answered, failure, Credential, min_nat, wait_after,
  exchange_failed, exchange_answered, held_at, credential, last_backoff,
}

pow_suc : (k : ℕ) → 2 ^ suc k ≡ 2 * 2 ^ k
pow_suc k = omega arith

pow_pos : (k : ℕ) → 1 ≤ 2 ^ k
pow_pos zero = omega arith
pow_pos (suc k) = omega (arith, pow_pos k, pow_suc k)

wait_after_bounds :
    (failures : ℕ) → (second ≤ wait_after failures 0) × (wait_after failures 0 ≤ 300 * second)
unfolding wait_after
wait_after_bounds failures = let p = pow_pos (min_nat (failures - 1) 16) in ground arith

wait_after_asked :
    (failures retry_after : ℕ) → 1 ≤ retry_after → wait_after failures retry_after ≡ retry_after
unfolding wait_after
wait_after_asked failures retry_after h = ground arith

-- The wait doubles from a second on, to five minutes.
wait_after_doubles :
    (failures : ℕ)
    → 1 ≤ failures
    → failures ≤ 16
    → wait_after (failures + 1) 0 ≡ min_nat (2 * wait_after failures 0) last_backoff
unfolding wait_after
wait_after_doubles failures h k =
    let e : failures ≡ suc (failures - 1) = omega arith in
    let p = pow_suc (failures - 1) in ground arith

to_duration-le : (n : ℕ) → to_duration n ≤ n
unfolding to_duration
to_duration-le n = ground arith

-- The token held is refreshed before it expires.
abbrev pub IsSound : Source → Type 0
IsSound s = s.refresh ≤ s.expiry

-- What an exchange brings has a token and lasts.
abbrev pub IsLasting : Sent → Type 0
IsLasting (answered token client_id lifetime) = (token ≢ "") × (1 ≤ lifetime)
IsLasting (failure reason wait) = Unit

pub credential-IsSound :
    (now : ℕ) (sent : Sent) (s : Source) → IsSound s → IsSound (credential now sent s).1
unfolding credential exchange_failed exchange_answered
credential-IsSound now (answered token client_id lifetime) s h =
    ground (arith, to_duration-le (lifetime * 2))
credential-IsSound now (failure reason wait) s h = ground arith

-- A source answers the token that it holds, and only while the token lives; where it answers none, the
-- error is of the last exchange.
pub credential-held :
    (now : ℕ) (sent : Sent) (s : Source) (token client_id : String)
    → IsSound s
    → IsLasting sent
    → (credential now sent s).0 ≡ Credential.held token client_id
    → let s' = (credential now sent s).1 in
      (token ≢ "") × (s'.token ≡ token) × (s'.client_id ≡ client_id) × (now < s'.expiry)
unfolding credential exchange_failed exchange_answered held_at
credential-held now (answered t c lifetime) s token client_id h l e =
    (ground (arith, eq_iff s.token "", l), ground (arith, l), ground (arith, l), ground (arith, l))
credential-held now (failure reason wait) s token client_id h l e =
    (ground (arith, eq_iff s.token ""), ground arith, ground arith, ground arith)

-- After an exchange fails, the next may be sent no sooner than the wait that garam asked for, where it
-- asked for one, and otherwise after at least a second and at most five minutes.
pub exchange_failed-until :
    (now : ℕ) (reason : Reason) (retry_after : ℕ) (s : Source)
    → let s' = exchange_failed now reason retry_after s in
      (1 ≤ retry_after → s'.until ≡ now + retry_after)
      × (retry_after ≡ 0 → (now + second ≤ s'.until) × (s'.until ≤ now + 300 * second))
unfolding exchange_failed
exchange_failed-until now reason retry_after s =
    let (low, high) = wait_after_bounds (s.failures + 1) in
    (
      λ h. ground (arith, wait_after_asked (s.failures + 1) retry_after h),
      λ h. rw h (omega arith, omega arith),
    )
