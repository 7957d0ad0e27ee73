-- ===== src/Tests/Controllers.antt =====
-- Runs of what a controller keeps in memory of its calls of the control service.
use garam_agent_operator.Prelude.{
  ℕ, ◌+◌, ◌≡◌, ◌⊎◌, inl, inr, refl, String, Option, none, some, List, [], ◌∷◌, string_eq, ℕ_eq,
  arith, true, false,
}
use garam_agent_operator.Map.{get, put}
use garam_agent_operator.Desired.{replied, refused, silent}
use garam_agent_operator.Desired.Registrar.{
  Placement, CurrentPlacement, Attempt, Registrar, fresh, is_due, register, run, after_reply,
  registration_of,
}
use garam_agent_operator.Desired.Registrar.Settled.{register-run_final, sent_for}
use garam_agent_operator.Desired.Registrar.Bounds.{IsClosed, after_reply-is_due}
use garam_agent_operator.Desired.Puller
use garam_agent_operator.Desired.Puller.Rendered.{
  IsBacked, IsPaced, IsPause, run-new_IsBacked, pull-IsPaced,
}
use garam_agent_operator.Desired.Recoverer
use garam_agent_operator.Desired.Recoverer.Requests.{IsStep, recover-IsStep}

unfoldable opened_registrar : Unit {0}
unfolding registration_of get put
opened_registrar = tt

abbrev presented_placement : Placement
presented_placement = record {
  epoch = "epoch-1";
  pod_uid = "pod-1";
  pvc_uid = "pvc";
  token_sha256 = "token";
  previous = none;
}

abbrev current : CurrentPlacement
current = record { grn = "agent"; placement = presented_placement }

abbrev empty_registrar : Registrar
empty_registrar = record { registrations = []; presented = []; logged = [] }

abbrev superseded_attempt : Attempt
superseded_attempt = record { now = 1; later = 2; reply = refused 409 "placement_superseded" }

abbrev accepted_attempt : Attempt
accepted_attempt = record { now = 3; later = 4; reply = replied true }

abbrev passes : List ((String → Attempt) × Option (List CurrentPlacement))
passes = ((λ grn. accepted_attempt), none) ∷ ((λ grn. accepted_attempt), some (current ∷ [])) ∷ []

register-run_final_example :
    sent_for "agent" (run passes (register current superseded_attempt empty_registrar)).presented
    ≡ current ∷ []
unfolding opened_registrar
register-run_final_example =
    register-run_final current superseded_attempt empty_registrar passes refl refl
      (tt, ((refl, (inr refl, tt)), tt))

abbrev refused_attempt : Attempt
refused_attempt = record { now = 1; later = 2; reply = refused 403 "not_placed" }

after_reply-is_due_example :
    ((is_due (2 + 300000000000) (after_reply refused_attempt (fresh presented_placement)) ≡ false)
      × IsClosed refused_attempt.reply)
    ⊎ ((is_due (2 + 300000000000) (after_reply refused_attempt (fresh presented_placement)) ≡ true)
        × ¬ IsClosed refused_attempt.reply)
after_reply-is_due_example =
    after_reply-is_due refused_attempt (fresh presented_placement) (2 + 300000000000) (inl refl)
      refl (omega arith) (omega arith)

abbrev rendered_agent : Puller.Agent ℕ
rendered_agent = record {
  grn = "agent";
  revision = "1";
  stopped = false;
  recovery = none;
  content = 7;
}

abbrev feed_round : Puller.Round ℕ
feed_round = record {
  feed = replied (record { cursor = "5"; agents = rendered_agent ∷ [] });
  render = λ a. Puller.RenderOutcome.done;
  report = λ a. replied tt;
}

abbrev silent_round : Puller.Round ℕ
silent_round = record {
  feed = silent;
  render = λ a. Puller.RenderOutcome.done;
  report = λ a. replied tt;
}

abbrev refused_round : Puller.Round ℕ
refused_round = record silent_round { feed = refused 403 "forbidden" }

run-new_IsBacked_example : IsBacked (Puller.run (feed_round ∷ silent_round ∷ []) Puller.new_puller)
run-new_IsBacked_example = run-new_IsBacked (feed_round ∷ silent_round ∷ [])

abbrev empty_puller : Puller.Puller ℕ
empty_puller = Puller.new_puller

pull-IsPaced_example :
    IsPaced (Puller.pull refused_round empty_puller).0
    × IsPause refused_round.feed empty_puller.backoff
        (Puller.pull refused_round empty_puller).1
        (Puller.pull refused_round empty_puller).0.backoff
pull-IsPaced_example = pull-IsPaced refused_round empty_puller (omega arith, omega arith)

abbrev empty_recoverer : Recoverer.Recoverer
empty_recoverer = record {
  offered = [];
  attempts = [];
  recorded = [];
  persisted = [];
  lineages = [];
  sent = [];
  logged = [];
}

abbrev finalizing : Recoverer.Turn
finalizing = record {
  now = 1;
  later = 2;
  load_fails = false;
  save_fails = false;
  reload_fails = false;
  reply = λ q.
      replied (record { agent = "agent"; request_id = q.id; epoch = q.epoch; lineage = "lineage" });
  recorded_fails = false;
}

abbrev offered_recovery : Option Puller.OpenRecovery
offered_recovery = some (record { request_id = "recovery"; epoch = "epoch-1" })

recover-IsStep_example :
    IsStep "agent" offered_recovery finalizing empty_recoverer
      (Recoverer.recover "agent" finalizing offered_recovery empty_recoverer)
recover-IsStep_example = recover-IsStep "agent" finalizing offered_recovery empty_recoverer
