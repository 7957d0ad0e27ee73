-- ===== src/Distribution/Registrations.antt =====
-- When a controller's report of an agent is taken.
use garam_agent_operator.Prelude.{
  ℕ, ◌≡◌, refl, String, Bool, some, Bool-cases, inl, inr, List, arith, ap, ◌∙◌, subst,
  if◌then◌else◌,
}
use garam_agent_operator.Definition.Errors.{Result, ok}
use garam_agent_operator.Definition.Types.{
  Placement, PlacementRequest, PlacementInput, Assignment, RecoveryRequest,
}
use garam_agent_operator.Definition
use garam_agent_operator.Repository.{Memory}
use garam_agent_operator.Repository.Placements.{register_placement}
use garam_agent_operator.Service
use garam_agent_operator.Handler.{done}
use garam_agent_operator.Handler.Steps.{bind-Gives, bind_reads-Gives, read_or-Gives, service_done}
use garam_agent_operator.Distribution.{Failure, Codec, Request, Server, Controller, on_memory, ask}
use garam_agent_operator.Distribution.Session.{
  record_contact, authenticate, assigned_to, placed, prove_placed_at,
}
use garam_agent_operator.Distribution.Proofs.{
  IsController, IsProvedAt, IsAssigned, IsPlacedAt, authenticate-IsController, placed-state,
  placed-IsProvedAt, assigned_to-state, assigned_to-IsAssigned, prove_placed_at-state,
  prove_placed_at-IsPlacedAt,
}
use garam_agent_operator.Distribution.Requests.{
  read_body, parse_placement, parse_recovery, parse_status, RecoveryAnswer, recovery_answer,
  register, prepare_recovery, status,
}

abbrev pub input_of : Request → Controller → PlacementRequest → PlacementInput
input_of r c input = record { agent = r.agent; controller = c.grn; request = input }

module _ {S : Type 0} where
  -- The store as authentication leaves it.
  abbrev pub contacted : Controller → Request → Server S → Memory S
  contacted c r s = (record_contact c r.now s).memory

  pub record IsRegistered (codec : Codec) (r : Request) (s : Server S) (x : Placement × ℕ)
      (s' : Server S) : Type 0 where
    pub controller : Controller
    pub proved : IsController r controller
    pub bytes : List ℕ
    pub read : read_body 4096 r ≡ some bytes
    pub input : PlacementRequest
    pub parsed : parse_placement (codec.decode_placement bytes) ≡ some input
    pub placed : IsPlacedAt r controller r.agent input.epoch (contacted controller r s)
    pub first : Bool
    pub stored :
        register_placement (input_of r controller input) (contacted controller r s)
        ≡ (ok (x.0, first), s'.memory)
    pub status : x.1 ≡ (if first then 201 else 200)

  -- A placement is registered only where garam proves the controller by the token it presents, the
  -- agent's latest revision is recorded for that controller, and garam proves the agent assigned to it
  -- under that revision's epoch, which is the one registered; it is registered with that controller, and
  -- the status is 201 exactly when it is new.
  pub register-IsRegistered :
      (codec : Codec) (r : Request) (s : Server S) (x : Placement × ℕ)
      → (register codec r s).0 ≡ done x
      → IsRegistered codec r s x (register codec r s).1
  unfolding register
  register-IsRegistered codec r s x h =
      let R = IsRegistered codec r s in
      read_or-Gives R Failure.invalid_placement_body (read_body 4096 r) _ s
        (λ bytes e. bind-Gives R (authenticate r) _ s (λ c f.
          let s1 = (authenticate r s).1 in
          let (known, at) = authenticate-IsController r s c f in
          read_or-Gives R Failure.invalid_placement_body
            (parse_placement (codec.decode_placement bytes)) _ s1
            (λ input g.
              bind_reads-Gives R (prove_placed_at r c r.agent input.epoch) _ s1
                (prove_placed_at-state r c r.agent input.epoch s1)
                (λ u k.
                  let placed = prove_placed_at-IsPlacedAt r c r.agent input.epoch s1 u k in
                  bind-Gives R (ask (register_placement (input_of r c input))) _ s1 (λ q l y same.
                    let stored =
                      service_done Failure.service
                        (on_memory (register_placement (input_of r c input))) s1 q l in
                    let i = input_of r c input in
                    let s2 = (ask (register_placement i) s1).1 in
                    let m1 : s1.memory ≡ contacted c r s = ap (λ (t : Server S). t.memory) at in
                    let full : register_placement i s1.memory ≡ (ok q, s2.memory) =
                      ap (λ (o : Result (Placement × Bool)). (o, s2.memory)) stored in
                    let is : (q.0, if q.1 then 201 else 200) ≡ y = ground arith in
                    subst (λ (z : Placement × ℕ). R z s2) is
                      (record {
                        controller = c;
                        proved = known;
                        bytes = bytes;
                        read = e;
                        input = input;
                        parsed = g;
                        placed = subst (IsPlacedAt r c r.agent input.epoch) m1 placed;
                        first = q.1;
                        stored =
                            subst (λ (m : Memory S). register_placement i m ≡ (ok q, s2.memory)) m1
                              full;
                        status = refl;
                      }))))))
        x h

  pub record IsStatus (codec : Codec) (r : Request) (s : Server S) (x : Definition.Types.Status)
      (s' : Server S) : Type 0 where
    pub controller : Controller
    pub proved : IsController r controller
    pub bytes : List ℕ
    pub read : read_body 4096 r ≡ some bytes
    pub report : ℕ × ℕ
    pub parsed : parse_status (codec.decode_status bytes) ≡ some report
    pub assignment : Assignment
    pub assigned : IsAssigned controller r.agent (contacted controller r s) assignment
    pub placed : IsProvedAt r controller r.agent assignment.epoch
    pub stored :
        Service.Status.record_status r.agent report.0 report.1 (contacted controller r s)
        ≡ (ok x, s'.memory)

  -- A controller's report of an agent's status is recorded only where garam proves the controller by the
  -- token it presents, the agent's latest revision is recorded for it, and garam proves the agent assigned
  -- to it under that revision's epoch.
  pub status-IsStatus :
      (codec : Codec) (r : Request) (s : Server S) (x : Definition.Types.Status)
      → (status codec r s).0 ≡ done x
      → IsStatus codec r s x (status codec r s).1
  unfolding status
  status-IsStatus codec r s x h =
      let R = IsStatus codec r s in
      read_or-Gives R Failure.invalid_status_body (read_body 4096 r) _ s
        (λ bytes e. bind-Gives R (authenticate r) _ s (λ c f.
          let s1 = (authenticate r s).1 in
          let (known, at) = authenticate-IsController r s c f in
          read_or-Gives R Failure.invalid_status_body (parse_status (codec.decode_status bytes)) _
            s1
            (λ report g.
              bind_reads-Gives R (assigned_to c r.agent) _ s1 (assigned_to-state c r.agent s1)
                (λ a k.
                  bind_reads-Gives R (placed r c r.agent a.epoch) _ s1
                    (placed-state r c r.agent a.epoch s1)
                    (λ b l. elim (Bool-cases b) [
                      | inr no_proof ↦ rw no_proof (λ y q. absurd (ground arith))
                      | inl is ↦ rw is (λ y q.
                          let m1 : s1.memory ≡ contacted c r s =
                            ap (λ (t : Server S). t.memory) at in
                          let recording = Service.Status.record_status r.agent report.0 report.1 in
                          let stored = service_done Failure.service (on_memory recording) s1 y q in
                          let full : recording s1.memory ≡ (ok y, (ask recording s1).1.memory) =
                            ap
                              (λ (o : Result Definition.Types.Status).
                                (o, (ask recording s1).1.memory))
                              stored in
                          record {
                            controller = c;
                            proved = known;
                            bytes = bytes;
                            read = e;
                            report = report;
                            parsed = g;
                            assignment = a;
                            assigned =
                                subst (λ (m : Memory S). IsAssigned c r.agent m a) m1
                                  (assigned_to-IsAssigned c r.agent s1 a k);
                            placed = placed-IsProvedAt r c r.agent a.epoch s1 (l ∙ ap done is);
                            stored =
                                subst
                                  (λ (m : Memory S).
                                    recording m ≡ (ok y, (ask recording s1).1.memory))
                                  m1 full;
                          })
                    ])))))
        x h

  pub record IsRecovery (codec : Codec) (quote : String → List ℕ) (r : Request) (s : Server S)
      (x : RecoveryAnswer) (s' : Server S) : Type 0 where
    pub controller : Controller
    pub proved : IsController r controller
    pub bytes : List ℕ
    pub read : read_body 4096 r ≡ some bytes
    pub input : RecoveryRequest
    pub parsed : parse_recovery (codec.decode_recovery bytes) ≡ some input
    pub placed : IsPlacedAt r controller r.agent input.epoch (contacted controller r s)
    pub recovery : Definition.Types.Recovery
    pub stored :
        Service.Recovery.prepare_recovery quote r.agent input (contacted controller r s)
        ≡ (ok recovery, s'.memory)
    pub answer : x ≡ recovery_answer r.agent recovery

  -- A controller's request of its agent's recovery is stored under the same proofs as a placement, and
  -- answered with the recovery that is stored.
  pub prepare_recovery-IsRecovery :
      (codec : Codec) (quote : String → List ℕ) (r : Request) (s : Server S) (x : RecoveryAnswer)
      → (prepare_recovery codec quote r s).0 ≡ done x
      → IsRecovery codec quote r s x (prepare_recovery codec quote r s).1
  unfolding prepare_recovery
  prepare_recovery-IsRecovery codec quote r s x h =
      let R = IsRecovery codec quote r s in
      read_or-Gives R Failure.invalid_recovery_body (read_body 4096 r) _ s
        (λ bytes e. bind-Gives R (authenticate r) _ s (λ c f.
          let s1 = (authenticate r s).1 in
          let (known, at) = authenticate-IsController r s c f in
          read_or-Gives R Failure.invalid_recovery_body
            (parse_recovery (codec.decode_recovery bytes)) _ s1
            (λ input g.
              bind_reads-Gives R (prove_placed_at r c r.agent input.epoch) _ s1
                (prove_placed_at-state r c r.agent input.epoch s1)
                (λ u k.
                  let placed = prove_placed_at-IsPlacedAt r c r.agent input.epoch s1 u k in
                  let preparing = Service.Recovery.prepare_recovery quote r.agent input in
                  bind-Gives R (ask preparing) _ s1 (λ q l y same.
                    let stored = service_done Failure.service (on_memory preparing) s1 q l in
                    let s2 = (ask preparing s1).1 in
                    let m1 : s1.memory ≡ contacted c r s = ap (λ (t : Server S). t.memory) at in
                    let full : preparing s1.memory ≡ (ok q, s2.memory) =
                      ap (λ (o : Result Definition.Types.Recovery). (o, s2.memory)) stored in
                    record {
                      controller = c;
                      proved = known;
                      bytes = bytes;
                      read = e;
                      input = input;
                      parsed = g;
                      placed = subst (IsPlacedAt r c r.agent input.epoch) m1 placed;
                      recovery = q;
                      stored = subst (λ (m : Memory S). preparing m ≡ (ok q, s2.memory)) m1 full;
                      answer = ground arith;
                    })))))
        x h
