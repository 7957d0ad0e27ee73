-- ===== src/Repository/Calls/Frames.antt =====
-- What each call leaves as it was.
use garam_agent_operator.Prelude.{◌≡◌, Bool, true, false, arith}
use garam_agent_operator.Repository.{Memory}
use garam_agent_operator.Repository.Publishing
use garam_agent_operator.Repository.Revisions
use garam_agent_operator.Repository.Creations
use garam_agent_operator.Repository.Placements
use garam_agent_operator.Repository.Activations
use garam_agent_operator.Repository.Statuses
use garam_agent_operator.Repository.Recoveries
use garam_agent_operator.Repository.Stops
use garam_agent_operator.Repository.Operators
use garam_agent_operator.Repository.Calls.{Call, step}

-- Opens every call.
opened : Unit {0}
unfolding Publishing.publish_profile Publishing.publish_profile_version Publishing.publish_template
    Publishing.publish_once Revisions.configure Creations.begin_creation Creations.register_creation
    Creations.fail_creation Placements.register_placement Activations.insert_activation
    Activations.record_activation Statuses.record_status Statuses.record_runtime_applied
    Recoveries.open_recovery Recoveries.prepare_recovery Recoveries.finalize_recovery
    Stops.record_stop Stops.record_deactivation Stops.record_start Operators.record_operator_contact
    Operators.report_operator_images step
opened = tt

-- The calls that change published profiles.
abbrev pub writes_profiles : {S : Type 0} → Call S → Bool
writes_profiles (Call.publish_profile _ _ _) = true
writes_profiles (Call.publish_profile_version _ _) = true
writes_profiles _ = false

-- The calls that change published templates.
abbrev pub writes_templates : {S : Type 0} → Call S → Bool
writes_templates (Call.publish_template _ _) = true
writes_templates (Call.publish_once _ _) = true
writes_templates _ = false

-- The calls that change publish requests.
abbrev pub writes_publications : {S : Type 0} → Call S → Bool
writes_publications (Call.publish_once _ _) = true
writes_publications _ = false

-- The calls that change revisions.
abbrev pub writes_definitions : {S : Type 0} → Call S → Bool
writes_definitions (Call.configure _ _) = true
writes_definitions (Call.register_creation _ _) = true
writes_definitions _ = false

-- The calls that change configure requests.
abbrev pub writes_requests : {S : Type 0} → Call S → Bool
writes_requests (Call.configure _ _) = true
writes_requests _ = false

-- The calls that change creations.
abbrev pub writes_creations : {S : Type 0} → Call S → Bool
writes_creations (Call.begin_creation _) = true
writes_creations (Call.register_creation _ _) = true
writes_creations (Call.fail_creation _ _ _) = true
writes_creations _ = false

-- The calls that change placements.
abbrev pub writes_placements : {S : Type 0} → Call S → Bool
writes_placements (Call.register_placement _) = true
writes_placements _ = false

-- The calls that change activations.
abbrev pub writes_activations : {S : Type 0} → Call S → Bool
writes_activations (Call.insert_activation _) = true
writes_activations (Call.record_activation _ _ _) = true
writes_activations _ = false

-- The calls that change statuses.
abbrev pub writes_statuses : {S : Type 0} → Call S → Bool
writes_statuses (Call.record_status _ _) = true
writes_statuses (Call.record_runtime_applied _ _) = true
writes_statuses _ = false

-- The calls that change recoveries.
abbrev pub writes_recoveries : {S : Type 0} → Call S → Bool
writes_recoveries (Call.open_recovery _) = true
writes_recoveries (Call.prepare_recovery _ _ _ _) = true
writes_recoveries (Call.finalize_recovery _ _ _) = true
writes_recoveries _ = false

-- The calls that change stops.
abbrev pub writes_stops : {S : Type 0} → Call S → Bool
writes_stops (Call.record_stop _) = true
writes_stops (Call.record_deactivation _) = true
writes_stops (Call.record_start _ _) = true
writes_stops _ = false

-- The calls that change operators.
abbrev pub writes_operators : {S : Type 0} → Call S → Bool
writes_operators (Call.record_operator_contact _ _ _) = true
writes_operators (Call.report_operator_images _ _ _ _) = true
writes_operators _ = false

module _ {S : Type 0} (same : S → S → Bool) (m : Memory S) where
  pub profiles-step :
      (c : Call S) → writes_profiles c ≡ false → (step same m c).profiles ≡ m.profiles
  unfolding opened
  profiles-step (Call.record_stop s) h = ground arith
  profiles-step _ h = ground arith

  pub templates-step :
      (c : Call S) → writes_templates c ≡ false → (step same m c).templates ≡ m.templates
  unfolding opened
  templates-step (Call.publish_profile org name settings) h = ground arith
  templates-step _ h = ground arith

  pub publications-step :
      (c : Call S) → writes_publications c ≡ false → (step same m c).publications ≡ m.publications
  unfolding opened
  publications-step (Call.publish_profile org name settings) h = ground arith
  publications-step _ h = ground arith

  pub definitions-step :
      (c : Call S) → writes_definitions c ≡ false → (step same m c).definitions ≡ m.definitions
  unfolding opened
  definitions-step (Call.publish_profile org name settings) h = ground arith
  definitions-step _ h = ground arith

  pub positions-step :
      (c : Call S) → writes_definitions c ≡ false → (step same m c).positions ≡ m.positions
  unfolding opened
  positions-step (Call.publish_profile org name settings) h = ground arith
  positions-step _ h = ground arith

  pub requests-step :
      (c : Call S) → writes_requests c ≡ false → (step same m c).requests ≡ m.requests
  unfolding opened
  requests-step (Call.publish_profile org name settings) h = ground arith
  requests-step _ h = ground arith

  pub creations-step :
      (c : Call S) → writes_creations c ≡ false → (step same m c).creations ≡ m.creations
  unfolding opened
  creations-step (Call.publish_profile org name settings) h = ground arith
  creations-step _ h = ground arith

  pub placements-step :
      (c : Call S) → writes_placements c ≡ false → (step same m c).placements ≡ m.placements
  unfolding opened
  placements-step (Call.publish_profile org name settings) h = ground arith
  placements-step _ h = ground arith

  pub activations-step :
      (c : Call S) → writes_activations c ≡ false → (step same m c).activations ≡ m.activations
  unfolding opened
  activations-step (Call.publish_profile org name settings) h = ground arith
  activations-step _ h = ground arith

  pub latest-step : (c : Call S) → writes_activations c ≡ false → (step same m c).latest ≡ m.latest
  unfolding opened
  latest-step (Call.publish_profile org name settings) h = ground arith
  latest-step _ h = ground arith

  pub statuses-step :
      (c : Call S) → writes_statuses c ≡ false → (step same m c).statuses ≡ m.statuses
  unfolding opened
  statuses-step (Call.publish_profile org name settings) h = ground arith
  statuses-step _ h = ground arith

  pub recoveries-step :
      (c : Call S) → writes_recoveries c ≡ false → (step same m c).recoveries ≡ m.recoveries
  unfolding opened
  recoveries-step (Call.publish_profile org name settings) h = ground arith
  recoveries-step _ h = ground arith

  pub stops-step : (c : Call S) → writes_stops c ≡ false → (step same m c).stops ≡ m.stops
  unfolding opened
  stops-step (Call.publish_profile org name settings) h = ground arith
  stops-step _ h = ground arith

  pub operators-step :
      (c : Call S) → writes_operators c ≡ false → (step same m c).operators ≡ m.operators
  unfolding opened
  operators-step (Call.publish_profile org name settings) h = ground arith
  operators-step _ h = ground arith
