-- ===== src/Distribution/Feed.antt =====
-- internal/distribution/desired.go: the desired feed of a controller.
use garam_agent_operator.Prelude.{
  ℕ, ◌+◌, ◌*◌, String, Bool, not, ◌||◌, Option, none, some, List, [], ◌∷◌, string_eq, ℕ_eq, ltb,
  if◌then◌else◌, length,
}
use garam_agent_operator.Definition.Types.{DesiredRevision, Configuration, ProfileRef, OpenRecovery}
use garam_agent_operator.Definition.Revision.{revision_string}
use garam_agent_operator.Repository.{Memory}
use garam_agent_operator.Repository.Revisions.{desired}
use garam_agent_operator.MachineToken.{second, to_duration}
use garam_agent_operator.Text.{digits_value, atoi, same_bytes}
use garam_agent_operator.Handler.{answer, fail, panics, ◌>>=◌, ◌>>◌}
use garam_agent_operator.Distribution.{Failure, Request, Controller, Handler, ask, read_or}
use garam_agent_operator.Distribution.Session.{authenticate, placed}

-- `maxWait`
abbrev pub max_wait : ℕ
max_wait = 30 * second

-- A position in the form that the feed writes it; `strconv.ParseInt` also takes a sign and zeros in
-- front, which the comparison with the text refuses.
unfoldable pub parse_position : List ℕ → Option ℕ
parse_position v = elim (digits_value v) [
  | none ↦ none
  | some n ↦ if same_bytes (revision_string n) v then some n else none
]

-- The wait of `parseFeedQuery`. The product is an `int64` that wraps; a negative one reads as 0.
unfoldable pub parse_wait : List ℕ → Option ℕ
unfolding to_duration
parse_wait v = elim (atoi v) [
  | none ↦ none
  | some seconds ↦
      if ltb max_wait (to_duration (seconds * second))
      then none
      else some (to_duration (seconds * second))
]

-- `parseFeedQuery`
unfoldable pub parse_query : List ℕ → List ℕ → Option (Option ℕ × ℕ)
unfolding parse_position parse_wait
parse_query after wait = elim after [
  | [] ↦ elim wait [
    | [] ↦ some (none, 0)
    | c ∷ s ↦ elim (parse_wait (c ∷ s)) [ none ↦ none | some w ↦ some (none, w) ]
  ]
  | d ∷ t ↦ elim (parse_position (d ∷ t)) [
    | none ↦ none
    | some p ↦ elim wait [
      | [] ↦ some (some p, 0)
      | c ∷ s ↦ elim (parse_wait (c ∷ s)) [ none ↦ none | some w ↦ some (some p, w) ]
    ]
  ]
]

-- A wake of the loop: the store as others left it, the clock, and whether the context was done.
pub record Wake (S : Type 0) : Type 0 where
  pub memory : Memory S
  pub now : ℕ
  pub is_done : Bool

-- `desiredAgent`, with the revision as its number and the profile's settings as they are stored.
pub record DesiredAgent (S : Type 0) : Type 0 where
  pub agent : String
  pub revision : ℕ
  pub epoch : String
  pub profile : ProfileRef
  pub settings : S
  pub configuration : Configuration
  pub stopped : Bool
  pub recovery : Option OpenRecovery

pub record DesiredResponse (S : Type 0) : Type 0 where
  pub cursor : ℕ
  pub agents : List (DesiredAgent S)

module _ {S : Type 0} where
  -- `desiredAgentOf`, of a revision recorded under an epoch.
  abbrev pub desired_agent_of : DesiredRevision S → String → DesiredAgent S
  desired_agent_of d epoch = record {
    agent = d.definition.agent;
    revision = d.definition.revision;
    epoch = epoch;
    profile = d.definition.profile;
    settings = d.settings;
    configuration = d.definition.config;
    stopped = d.stopped;
    recovery = d.recovery;
  }

  -- The loop of `waitPast`, with the wakes that it is given; past the last the context is done.
  unfoldable pub wait_loop : ℕ → ℕ → ℕ → List (Wake S) → Handler S (Unit {0})
  wait_loop after deadline now [] s =
      if ltb s.memory.position after then fail Failure.invalid_query s else answer tt s
  wait_loop after deadline now (wake ∷ rest) s =
      let later =
        if wake.is_done
        then answer tt (record s { memory = wake.memory })
        else wait_loop after deadline wake.now rest (record s { memory = wake.memory }) in
      if ltb s.memory.position after
      then fail Failure.invalid_query s
      else if ltb after s.memory.position || not (ltb now deadline)
      then answer tt s
      else later

  -- `waitPast`
  unfoldable pub wait_past : Option ℕ → ℕ → ℕ → List (Wake S) → Handler S (Unit {0})
  unfolding wait_loop
  wait_past none wait now wakes = answer tt
  wait_past (some after) wait now wakes = wait_loop after (now + wait) now wakes

  -- A round of the loop over the page, with the rounds after it.
  unfoldable pub release_next :
      Request
      → Controller
      → DesiredRevision S
      → String
      → Handler S (List (DesiredAgent S))
      → Handler S (List (DesiredAgent S))
  release_next r c d epoch more = do
    released ← placed r c d.definition.agent epoch
    out ← more
    answer (if released then desired_agent_of d epoch ∷ out else out)

  -- The loop: a revision with no assignment is a nil pointer.
  unfoldable pub release :
      Request → Controller → List (DesiredRevision S) → Handler S (List (DesiredAgent S))
  unfolding release_next
  release r c [] = answer []
  release r c (d ∷ rest) =
      let more = release r c rest in
      elim d.definition.assignment [
        | none ↦ λ s. (panics, s)
        | some a ↦ release_next r c d a.epoch more
      ]

  -- `desired`
  unfoldable pub desired_feed : ℕ → Request → List (Wake S) → Handler S (DesiredResponse S)
  unfolding wait_past release
  desired_feed max_agents r wakes = do
    (after, wait) ← read_or Failure.invalid_query (parse_query r.after r.wait_seconds)
    c ← authenticate r
    wait_past after wait r.now wakes
    page ← ask (desired c.grn (max_agents + 1))
    if ltb max_agents (length page.revisions) then fail Failure.too_many_agents else (do
      agents ← release r c page.revisions
      answer (record { cursor = page.position; agents = agents }))
