-- ===== src/Desired/Images.antt =====
-- internal/desired/images.go: the images that the controller reports.
pub mod Reports
use garam_agent_operator.Prelude.{
  ℕ, String, Bool, true, false, Option, none, some, List, [], ◌∷◌, ◌++◌, ◌==◌, ◌!=◌, string_eq,
  ℕ_eq, if◌then◌else◌,
}
use Prim.Native.Char.{code}
use garam_agent_operator.Text.{codes}
use garam_agent_operator.Service.Status.{is_image_digest}
use garam_agent_operator.Definition.Types.{OperatorImage}
use garam_agent_operator.Desired.{Reply, replied, refused, silent, next_backoff, refused_wait}

-- What follows the first `@` of a text, and what follows the last; `none` where there is none.
abbrev pub after_first : String → Option String
after_first String.[] = none
after_first (String.◌∷◌ c s) = if code c == b'@' then some s else after_first s

abbrev pub after_last : String → Option String
after_last String.[] = none
after_last (String.◌∷◌ c s) = elim (after_last s) [
  | some rest ↦ some rest
  | none ↦ if code c == b'@' then some s else none
]

abbrev pub digest_or_none : String → Option String
digest_or_none s = if is_image_digest (codes s) then some s else none

-- `configuredImage`
unfoldable pub configured_image : String → String → OperatorImage
configured_image name ref = record {
  name = name;
  ref = ref;
  digest = elim (after_first ref) [ none ↦ none | some pinned ↦ digest_or_none pinned ];
}

abbrev pub named_images : List (String × String) → List OperatorImage
named_images [] = []
named_images ((name, ref) ∷ rest) =
    if ref != "" then configured_image name ref ∷ named_images rest else named_images rest

-- `ConfiguredImages`
unfoldable pub configured_images : String → String → String → String → List OperatorImage
unfolding configured_image
configured_images agent adapter copy workspace =
    named_images
      (("agent", agent) ∷ ("adapter", adapter) ∷ ("copy", copy) ∷ ("workspace", workspace) ∷ [])

-- `DigestOf`
unfoldable pub digest_of : String → Option String
digest_of image_id = elim (after_last image_id) [
  | some digest ↦ digest_or_none digest
  | none ↦ digest_or_none image_id
]

-- A round of the report: the manager's own image, where it can be read, and the service's reply.
pub record Round : Type 0 where
  pub own : Option OperatorImage
  pub reply : Reply (Unit {0})

-- How the rounds of a report end: nothing is left to send, a report is accepted, or the rounds given end
-- with no report accepted.
pub data End : Type 0 where
  nothing accepted cancelled : End

-- The pauses between the reports, the first in front, with each report that was sent.
pub record Sent : Type 0 where
  pub images : List OperatorImage
  pub pause : ℕ

abbrev pub images_of : List OperatorImage → Option OperatorImage → List OperatorImage
images_of configured none = configured
images_of configured (some own) = own ∷ configured

-- `ImageReporter.Start`, until the context is cancelled after the rounds.
unfoldable pub report : List OperatorImage → ℕ → List Round → List Sent × End
report configured backoff [] = ([], cancelled)
report configured backoff (round ∷ rest) = elim (images_of configured round.own) [
  | [] ↦ ([], nothing)
  | image ∷ more ↦ elim round.reply [
    | replied u ↦ (record { images = image ∷ more; pause = 0 } ∷ [], accepted)
    | refused status kind ↦
        let (sent, end) = report configured 0 rest in
        (record { images = image ∷ more; pause = refused_wait } ∷ sent, end)
    | silent ↦
        let wait = next_backoff backoff in
        let (sent, end) = report configured wait rest in
        (record { images = image ∷ more; pause = wait } ∷ sent, end)
  ]
]
