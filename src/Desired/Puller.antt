-- ===== src/Desired/Puller.antt =====
-- internal/desired/puller.go: the controller's desired set as it is pulled, rendered and reported. The
-- profile and the configuration of an agent are of the type `D`, which the renderer alone reads.
pub mod Rendered
use garam_agent_operator.Prelude.{
  ℕ, ◌+◌, ◌*◌, String, Bool, true, false, Option, none, some, List, [], ◌∷◌, ◌==◌, string_eq, ltb,
  if◌then◌else◌,
}
use Prim.Native.String.{◌++◌}
use garam_agent_operator.Map.{Map, put, get_or}
use garam_agent_operator.Desired.{
  second, Reply, replied, refused, silent, transient_first, transient_last, refused_wait,
  is_refused_as,
}

pub record OpenRecovery : Type 0 where
  pub request_id : String
  pub epoch : String

pub record Agent (D : Type 0) : Type 0 where
  pub grn : String
  pub revision : String
  pub stopped : Bool
  pub recovery : Option OpenRecovery
  pub content : D

pub record Answer (D : Type 0) : Type 0 where
  pub cursor : String
  pub agents : List (Agent D)

-- What `Render` returns, by the error that `errors.Is` finds.
pub data RenderOutcome : Type 0 where
  done not_control_source malformed fails : RenderOutcome

-- What a round of `Start` meets: the feed's reply, and what rendering an agent and reporting it bring.
pub record Round (D : Type 0) : Type 0 where
  pub feed : Reply (Answer D)
  pub render : Agent D → RenderOutcome
  pub report : Agent D → Reply (Unit {0})

-- A call of the puller: of the feed with a cursor and a wait, of the renderer with what it returned, of
-- the status route with what it replied.
pub data Call (D : Type 0) : Type 0 where
  ask : String → ℕ → Call D
  render : Agent D → RenderOutcome → Call D
  report : String → String → Reply (Unit {0}) → Call D

-- The puller, with the variables of its loop, what it offered last, and its calls, the last first.
-- `is_feed_refused` is the gauge.
pub record Puller (D : Type 0) : Type 0 where
  pub rendered : Map String String
  pub cursor : String
  pub backoff : ℕ
  pub refused_as : Option (ℕ × String)
  pub offered : Map String OpenRecovery
  pub is_feed_refused : Bool
  pub calls : List (Call D)

-- `longPoll`
abbrev pub long_poll : ℕ
long_poll = 30 * second

module _ {D : Type 0} where
  -- `NewPuller`, as `Start` begins.
  abbrev pub new_puller : Puller D
  new_puller = record {
    rendered = [];
    cursor = "";
    backoff = transient_first;
    refused_as = none;
    offered = [];
    is_feed_refused = false;
    calls = [];
  }

  -- `renderedKey`
  unfoldable pub rendered_key : Agent D → String
  rendered_key a = if a.stopped then a.revision ++ "/stopped" else a.revision

  -- `offerRecoveries`
  unfoldable pub open_of : List (Agent D) → Map String OpenRecovery → Map String OpenRecovery
  open_of [] found = found
  open_of (a ∷ rest) found =
      open_of rest (elim a.recovery [ none ↦ found | some r ↦ put a.grn r found ])

  -- `apply`, where the revision was not rendered last.
  unfoldable pub render_new : Round D → Agent D → Puller D → Puller D
  unfolding rendered_key
  render_new round a p =
      let p' : Puller D = record p { calls = render a (round.render a) ∷ p.calls } in
      elim (round.render a) [
        | done ↦
            let p'' : Puller D = record p' {
              calls = report a.grn a.revision (round.report a) ∷ p'.calls;
            } in
            elim (round.report a) [
              | replied u ↦ record p'' { rendered = put a.grn (rendered_key a) p''.rendered }
              | refused status kind ↦ p''
              | silent ↦ p''
            ]
        | not_control_source ↦ p'
        | malformed ↦ p'
        | fails ↦ p'
      ]

  -- `apply`
  unfoldable pub apply : Round D → Agent D → Puller D → Puller D
  unfolding render_new
  apply round a p = if get_or "" a.grn p.rendered == rendered_key a then p else render_new round a p

  unfoldable pub apply_each : Round D → List (Agent D) → Puller D → Puller D
  unfolding apply
  apply_each round [] p = p
  apply_each round (a ∷ rest) p = apply_each round rest (apply round a p)

  -- A round of `Start`: the puller after it, and how long it pauses.
  unfoldable pub pull : Round D → Puller D → Puller D × ℕ
  unfolding apply_each open_of
  pull round p =
      let asked : Puller D = record p {
        calls = ask p.cursor (if p.cursor == "" then 0 else long_poll) ∷ p.calls;
      } in
      elim round.feed [
        | refused status kind ↦ (
          record asked { is_feed_refused = true; refused_as = some (status, kind) },
          refused_wait,
        )
        | silent ↦ (
          record asked {
            backoff = if ltb transient_last (2 * p.backoff) then transient_last else 2 * p.backoff;
          },
          p.backoff,
        )
        | replied answer ↦
            let p' = apply_each round answer.agents (record asked {
              is_feed_refused = false;
              refused_as = none;
              backoff = transient_first;
              offered = open_of answer.agents [];
            }) in
            (record p' { cursor = answer.cursor }, 0)
      ]

  -- The rounds, the first in front.
  unfoldable pub run : List (Round D) → Puller D → Puller D
  unfolding pull
  run [] p = p
  run (round ∷ rest) p = run rest (pull round p).0
