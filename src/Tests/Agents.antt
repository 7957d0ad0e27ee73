-- ===== src/Tests/Agents.antt =====
-- Runs of the service: an agent that is made, configured and asked for.
use garam_agent_operator.Prelude.{
  ◌≡◌, refl, ◌≤◌, ℕ, true, false, none, [], ◌∷◌, arith, length, All, Has,
}
use garam_agent_operator.Definition.Errors.{ok}
use garam_agent_operator.Definition.Types.{DesiredPage}
use garam_agent_operator.Repository.Revisions.{desired}
use garam_agent_operator.Service.Configure
use garam_agent_operator.Service.Checks.{same_endpoint}
use garam_agent_operator.History.Reach.{Reachable, here, IsPublished}
use garam_agent_operator.History.Operations.{serve_all-new_Reachable}
use garam_agent_operator.History.Revisions.Invariant.{Reachable-revisions}
use garam_agent_operator.History.Revisions.Desired.{desired_sound, desired_complete, IsOwed}
use garam_agent_operator.History.Requests.Applied.{IsApplied, configure-new}
use garam_agent_operator.History.Requests.Repeats.{configure-repeat}
use garam_agent_operator.History.Requests.Endpoints.{configure-same_endpoint}
use garam_agent_operator.Tests.Data.{
  opened, deps, same, validation, setup, agent_store, configure_input, first, embedding, assignment,
}

serve_all-new_Reachable_example : Reachable same agent_store
serve_all-new_Reachable_example = serve_all-new_Reachable deps setup

reached : Reachable same agent_store
reached = serve_all-new_Reachable deps setup

Reachable-revisions_example :
    (first.revision ≡ 1)
    × (first.agent ≡ "agent")
    × (first.organization ≡ first.organization)
    × IsPublished first.organization first.profile agent_store
unfolding opened
Reachable-revisions_example =
    Reachable-revisions same agent_store "agent" 0 0 first first reached refl refl

configure-new_example : IsApplied validation configure_input agent_store 2
unfolding opened
configure-new_example = configure-new validation configure_input agent_store 2 refl refl

configure-repeat_example :
    Configure.configure validation configure_input
      (Configure.configure validation configure_input agent_store).1
    ≡ (ok 2, (Configure.configure validation configure_input agent_store).1)
unfolding opened
configure-repeat_example =
    configure-repeat same validation configure_input agent_store
      (Configure.configure validation configure_input agent_store).1 2 reached refl refl here

configure-same_endpoint_example :
    same_endpoint configure_input.config.model.embedding embedding ≡ true
unfolding opened
configure-same_endpoint_example =
    configure-same_endpoint same validation configure_input agent_store 2 first embedding reached
      refl refl refl refl

desired_sound_example :
    (page : DesiredPage ℕ) × ((desired "controller" 10 agent_store).0 ≡ ok page)
    × (page.position ≡ agent_store.position)
    × (length page.revisions ≤ 10)
    × All (IsOwed agent_store "controller") page.revisions
desired_sound_example = desired_sound same agent_store "controller" 10 reached

abbrev page : DesiredPage ℕ
page = record {
  position = 1;
  revisions = record { definition = first; settings = 7; stopped = false; recovery = none } ∷ [];
}

desired_complete_example : Has (λ r. r.definition ≡ first) page.revisions
unfolding opened
desired_complete_example =
    desired_complete same agent_store "controller" 10 page "agent" first reached refl (omega arith)
      refl (assignment, refl, refl)
