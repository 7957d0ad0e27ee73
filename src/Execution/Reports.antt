-- ===== src/Execution/Reports.antt =====
-- When a runtime's report is taken, and what it changes.
use garam_agent_operator.Prelude.{
  ℕ, ◌≤◌, ◌≡◌, refl, String, true, false, ℕ_eq, Option, none, some, Option-cases, last?, Bool-cases,
  inl, inr, ◌⊎◌, List, ◌==◌, string_eq, ltb, arith,
}
use text.Mathlib.TextEquality.{eq_iff}
use garam_agent_operator.Definition.Errors.{ok, Result-cases}
use garam_agent_operator.Definition.Types.{Definition, Placement, RuntimeReport}
use garam_agent_operator.Definition.Revision.{parse_revision}
use garam_agent_operator.Repository.{Memory}
use garam_agent_operator.Repository.Placements.{current_placement}
use garam_agent_operator.Repository.Activations.{activation_of_generation}
use garam_agent_operator.Repository.Revisions.{revisions_of, get_definition}
use garam_agent_operator.Repository.Statuses.{record_runtime_applied}
use garam_agent_operator.Service.Activation.{record_serving, record_runtime_status}
use garam_agent_operator.History.Operations.Reads.{get_definition-state}
use garam_agent_operator.Execution.Refusals.{invalid_request, unauthenticated}
use garam_agent_operator.Execution.{
  Failure, Introspection, StatusReport, Garam, answered, GaramResult-cases, Codec, Request,
}
use garam_agent_operator.Execution.Formats.{read_body}
use garam_agent_operator.Handler.{done}
use garam_agent_operator.Handler.Steps.{
  Keeps, bind_reads-Gives, bind_reads-Keeps, read_or-Gives, read_or-Keeps, service-Keeps,
}
use garam_agent_operator.Execution.Admission.{current_placement-state}
use garam_agent_operator.Execution.Activate.{agent_token}
use garam_agent_operator.Execution.Carried.{IsCarried, agent_token-IsCarried}
use garam_agent_operator.Execution.Report.{parse_status, admit_stored, admit_report, report_status}

-- Garam and the store agree that the report is of the runtime that serves the agent.
pub record IsCurrent {S : Type 0} (g : Garam) (agent token : String) (b : StatusReport)
    (m : Memory S) : Type 0 where
  pub proof : Introspection
  pub asked : g.introspect agent token b.generation ≡ answered proof
  pub credential : proof.credential ≡ "current"
  pub of_generation : proof.generation ≡ "current"
  pub of_agent : proof.grn ≡ agent
  pub at_epoch : proof.epoch ≡ b.epoch
  pub of_activation : proof.activation_id ≡ b.activation_id
  pub placement : Placement
  pub placed : (current_placement agent m).0 ≡ ok placement
  pub assignee : proof.assignee ≡ placement.controller
  pub activated : (activation_of_generation agent b.generation m).0 ≡ ok b.activation_id

abbrev pub runtime_report : StatusReport → RuntimeReport
runtime_report b = record {
  activation_id = b.activation_id;
  generation = b.generation;
  config_revision = b.config_revision;
  serving = b.state == "serving";
  observed_at = b.observed_at;
}

parse_status-read :
    (decoded : Option StatusReport) (agent : String) (report : StatusReport)
    → parse_status decoded agent ≡ some report
    → (decoded ≡ some report) × (report.grn ≡ agent)
unfolding parse_status
parse_status-read none agent report h = absurd (ground arith)
parse_status-read (some b) agent report h = (ground arith, ground (arith, eq_iff b.grn agent))

module _ {S : Type 0} where
  -- The report named a revision that the agent has and that the runtime serves.
  pub record IsServing (agent : String) (b : StatusReport) (m m' : Memory S) : Type 0 where
    pub revision : ℕ
    pub parsed : parse_revision b.config_revision ≡ ok revision
    pub serving : b.state ≡ "serving"
    pub latest : Definition
    pub defined : (get_definition agent m).0 ≡ ok latest
    pub known : revision ≤ latest.revision
    pub stored :
        m'
        ≡ (record_runtime_applied agent
            (record {
              revision = revision;
              activation_id = b.activation_id;
              generation = b.generation;
              observed_at = b.observed_at;
            })
            m).1

  record_serving-undefined :
      (agent : String) (report : RuntimeReport) (n : ℕ) (m : Memory S)
      → ((d : Definition) → (get_definition agent m).0 ≡ ok d → ⊥)
      → (record_serving agent report n m).1 ≡ m
  unfolding record_serving get_definition
  record_serving-undefined agent report n m h = elim (Option-cases (last? (revisions_of agent m))) [
    | inl e ↦ ground arith
    | inr (d, e) ↦ absurd (h d (ground arith))
  ]

  record_serving-later :
      (agent : String) (report : RuntimeReport) (n : ℕ) (m : Memory S) (d : Definition)
      → (get_definition agent m).0 ≡ ok d
      → ltb d.revision n ≡ true
      → (record_serving agent report n m).1 ≡ m
  unfolding record_serving
  record_serving-later agent report n m d h l = ground (arith, get_definition-state agent m)

  record_serving-known :
      (agent : String) (report : RuntimeReport) (n : ℕ) (m : Memory S) (d : Definition)
      → (get_definition agent m).0 ≡ ok d
      → ltb d.revision n ≡ false
      → (record_serving agent report n m).1
        ≡ (record_runtime_applied agent
            (record {
              revision = n;
              activation_id = report.activation_id;
              generation = report.generation;
              observed_at = report.observed_at;
            })
            m).1
  unfolding record_serving
  record_serving-known agent report n m d h l = ground (arith, get_definition-state agent m)

  admit_stored-state :
      (agent assignee : String) (b : StatusReport) (m : Memory S)
      → (admit_stored agent assignee b m).1 ≡ m
  unfolding admit_stored current_placement activation_of_generation
  admit_stored-state agent assignee b m = ground arith

  admit_report-state :
      (g : Garam) (agent token : String) (b : StatusReport) (m : Memory S)
      → (admit_report g agent token b m).1 ≡ m
  unfolding admit_report
  admit_report-state g agent token b m =
      elim (GaramResult-cases (g.introspect agent token b.generation)) [
        | inl (x, q) ↦ ground (arith, admit_stored-state agent x.assignee b m)
        | inr (e, q) ↦ ground arith
      ]

  admit_stored_done :
      (agent assignee : String) (b : StatusReport) (m : Memory S)
      → (admit_stored agent assignee b m).0 ≡ done tt
      → (p : Placement) × ((current_placement agent m).0 ≡ ok p)
        × (assignee ≡ p.controller)
        × ((activation_of_generation agent b.generation m).0 ≡ ok b.activation_id)
  unfolding admit_stored
  admit_stored_done agent assignee b m h = elim (Result-cases (current_placement agent m).0) [
    | inr f ↦ absurd (ground (arith, f, current_placement-state agent m))
    | inl (p, e) ↦ (
      p,
      e,
      ground (arith, eq_iff assignee p.controller, current_placement-state agent m),
      elim (Result-cases (activation_of_generation agent b.generation m).0) [
        | inr f ↦ absurd (ground (arith, f, current_placement-state agent m))
        | inl (a, q) ↦ ground (arith, eq_iff a b.activation_id, current_placement-state agent m)
      ],
    )
  ]

  admit_report-IsCurrent :
      (g : Garam) (agent token : String) (b : StatusReport) (m : Memory S)
      → (admit_report g agent token b m).0 ≡ done tt
      → IsCurrent g agent token b m
  unfolding admit_report
  admit_report-IsCurrent g agent token b m h =
      elim (GaramResult-cases (g.introspect agent token b.generation)) [
        | inr (e, q) ↦ absurd (ground arith)
        | inl (x, q) ↦
            let stored : (admit_stored agent x.assignee b m).0 ≡ done tt = ground arith in
            let (p, placed, assignee, activated) = admit_stored_done agent x.assignee b m stored in
            record {
              proof = x;
              asked = q;
              credential = ground (arith, eq_iff x.credential "current");
              of_generation = ground (arith, eq_iff x.generation "current");
              of_agent = ground (arith, eq_iff x.grn agent);
              at_epoch = ground (arith, eq_iff x.epoch b.epoch);
              of_activation = ground (arith, eq_iff x.activation_id b.activation_id);
              placement = p;
              placed = placed;
              assignee = assignee;
              activated = activated;
            }
      ]

  pub record_runtime_status-eq :
      (agent : String) (b : StatusReport) (m : Memory S)
      → let m' = (record_runtime_status agent (runtime_report b) m).1 in
        (m' ≡ m) ⊎ IsServing agent b m m'
  unfolding record_runtime_status
  record_runtime_status-eq agent b m = elim (Result-cases (parse_revision b.config_revision)) [
    | inr f ↦ inl (ground (arith, f))
    | inl (n, parsed) ↦ elim (Bool-cases (b.state == "serving")) [
      | inr idle ↦ inl (ground arith)
      | inl serving ↦ elim (Result-cases (get_definition agent m).0) [
        | inr f ↦ inl (ground (arith, f, record_serving-undefined agent (runtime_report b) n m))
        | inl (d, defined) ↦ elim (Bool-cases (ltb d.revision n)) [
          | inl later ↦ inl (ground (arith, record_serving-later agent (runtime_report b) n m d))
          | inr known ↦ inr (record {
            revision = n;
            parsed = parsed;
            serving = (eq_iff b.state "serving").0 serving;
            latest = d;
            defined = defined;
            known = ground arith;
            stored = ground (arith, record_serving-known agent (runtime_report b) n m d);
          })
        ]
      ]
    ]
  ]

  -- What a report that is taken is, and the store after it.
  pub record IsTaken (codec : Codec) (r : Request) (m m' : Memory S) : Type 0 where
    pub bytes : List ℕ
    pub read : read_body r ≡ some bytes
    pub token : String
    pub presented : IsCarried r.authorization token
    pub report : StatusReport
    pub parsed : parse_status (codec.decode_status bytes) r.agent ≡ some report
    pub decoded : codec.decode_status bytes ≡ some report
    pub of_agent : report.grn ≡ r.agent
    pub current : IsCurrent r.garam r.agent token report m
    pub change : (m' ≡ m) ⊎ IsServing r.agent report m m'

  -- A report is taken only under a token in garam's form that garam answers is current, together with
  -- the report's generation, for the agent, its epoch and its activation; the agent's current placement
  -- is of the controller that garam names as its assignee, and the generation was activated as the
  -- report's activation. It changes nothing but what the runtime applied and its status, and that only
  -- where it names a revision that the agent has and says that the runtime serves it.
  pub report_status-IsTaken :
      (codec : Codec) (r : Request) (m : Memory S)
      → (report_status codec r m).0 ≡ done tt
      → IsTaken codec r m (report_status codec r m).1
  unfolding report_status
  report_status-IsTaken codec r m h =
      let R : Unit {0} → Memory S → Type 0 = λ _ m'. IsTaken codec r m m' in
      read_or-Gives R (Failure.refused invalid_request) (read_body r) _ m
        (λ bytes e.
          read_or-Gives R (Failure.refused unauthenticated) (agent_token r) _ m (λ token f.
            read_or-Gives R (Failure.refused invalid_request)
              (parse_status (codec.decode_status bytes) r.agent) _ m
              (λ b g.
                bind_reads-Gives R (admit_report r.garam r.agent token b) _ m
                  (admit_report-state r.garam r.agent token b m)
                  (λ u k y l. record {
                    bytes = bytes;
                    read = e;
                    token = token;
                    presented = agent_token-IsCarried r token f;
                    report = b;
                    parsed = g;
                    decoded = (parse_status-read (codec.decode_status bytes) r.agent b g).0;
                    of_agent = (parse_status-read (codec.decode_status bytes) r.agent b g).1;
                    current = admit_report-IsCurrent r.garam r.agent token b m k;
                    change = record_runtime_status-eq r.agent b m;
                  }))))
        tt h

  record_serving-fails :
      (agent : String) (report : RuntimeReport) (n : ℕ) (m : Memory S)
      → ((record_serving agent report n m).0 ≡ ok tt → ⊥)
      → (record_serving agent report n m).1 ≡ m
  unfolding record_serving record_runtime_applied get_definition
  record_serving-fails agent report n m h = elim (Option-cases (last? (revisions_of agent m))) [
    | inl e ↦ ground arith
    | inr (d, e) ↦ absurd (h (ground arith))
  ]

  record_runtime_status-fails :
      (agent : String) (report : RuntimeReport) (m : Memory S)
      → ((record_runtime_status agent report m).0 ≡ ok tt → ⊥)
      → (record_runtime_status agent report m).1 ≡ m
  unfolding record_runtime_status
  record_runtime_status-fails agent report m h =
      elim (Result-cases (parse_revision report.config_revision)) [
        | inr f ↦ ground (arith, f)
        | inl (n, parsed) ↦ elim (Bool-cases report.serving) [
          | inr idle ↦ ground arith
          | inl serving ↦
              ground (arith, record_serving-fails agent report n m (λ e. h (ground arith)))
        ]
      ]

  -- A report that is not taken changes nothing.
  pub report_status-Keeps :
      (codec : Codec) (r : Request) (m : Memory S) → Keeps (λ m'. m' ≡ m) (report_status codec r m)
  unfolding report_status
  report_status-Keeps codec r m =
      let P : Memory S → Type 0 = λ m'. m' ≡ m in
      read_or-Keeps P (Failure.refused invalid_request) (read_body r) _ m refl (λ bytes e.
        read_or-Keeps P (Failure.refused unauthenticated) (agent_token r) _ m refl (λ token f.
          read_or-Keeps P (Failure.refused invalid_request)
            (parse_status (codec.decode_status bytes) r.agent) _ m refl
            (λ b g.
              bind_reads-Keeps P (admit_report r.garam r.agent token b) _ m
                (admit_report-state r.garam r.agent token b m) refl
                (λ u k.
                  service-Keeps P Failure.service (record_runtime_status r.agent (runtime_report b))
                    m
                    (λ refused.
                      record_runtime_status-fails r.agent (runtime_report b) m (refused tt))))))
