-- ===== src/Tests/Decisions.antt =====
-- Runs of the functions that keep no state.
use garam_agent_operator.Prelude.{
  String, Option, ◌≡◌, ◌≤◌, ◌↔◌, refl, true, false, none, some, arith, max_int64,
}
use garam_agent_operator.Definition.Errors.{ok}
use garam_agent_operator.Definition.Types.{Placement}
use garam_agent_operator.Definition.Placement.{decide_placement, register}
use garam_agent_operator.Definition.Placement.Decisions.{
  MayReplace, decide_placement-eq-register_iff,
}
use garam_agent_operator.Definition.Revision.{parse_revision, revision_string}
use garam_agent_operator.Definition.Revision.RoundTrip.{
  parse_revision-revision_string, revision_string-parse_revision,
}
use garam_agent_operator.SecretRef.{parse}
use garam_agent_operator.SecretRef.Exact.{parse-eq-ok_iff, joined, has_slash}
use garam_agent_operator.Text.{codes}
use garam_agent_operator.Tests.Data.{opened, validation, placement, replacement, placed}

parse_revision-revision_string_example : parse_revision (revision_string 120) ≡ ok 120
parse_revision-revision_string_example =
    parse_revision-revision_string 120 (omega arith) (omega arith)

revision_string-parse_revision_example :
    (revision_string 12 ≡ codes "12") × (1 ≤ 12) × (12 ≤ max_int64)
unfolding opened
revision_string-parse_revision_example = revision_string-parse_revision (codes "12") 12 refl

abbrev fresh : Option Placement
fresh = none

decide_placement-eq-register_iff_example :
    (decide_placement (some (placed (placement "pod-1") false)) fresh (replacement "pod-2" "pod-1")
      ≡ ok register)
    ↔ ((fresh ≡ none)
        × MayReplace
            (some (placed (placement "pod-1") false))
            (replacement "pod-2" "pod-1").request.previous)
decide_placement-eq-register_iff_example =
    decide_placement-eq-register_iff (some (placed (placement "pod-1") false)) fresh
      (replacement "pod-2" "pod-1")

negated : (s : String) → validation.is_subdomain s ≡ true → has_slash s ≡ false
negated s h = ground arith

parse-eq-ok_iff_example : (parse validation "secret/key" ≡ ok ("secret", "key")) ↔ (
    ("secret/key" ≡ joined "secret" "key")
    × (validation.is_subdomain "secret" ≡ true)
    × (validation.is_config_map_key "key" ≡ true))
parse-eq-ok_iff_example = parse-eq-ok_iff validation "secret/key" "secret" "key" negated refl
