-- ===== src/Distribution/Proofs.antt =====
-- What garam proved where a controller is taken for one, and where an agent is taken for placed on it.
use garam_agent_operator.Prelude.{
  ◌≡◌, ◌⊎◌, refl, String, true, some, Option-cases, Bool-cases, inl, inr, ◌!=◌, string_eq, ℕ_eq,
  arith, ap, ◌∙◌, subst,
}
use text.Mathlib.TextEquality.{eq_iff}
use garam_agent_operator.Definition.Errors.{ok, Result-cases}
use garam_agent_operator.Definition.Types.{Definition, Assignment}
use garam_agent_operator.Repository.{Memory}
use garam_agent_operator.Repository.Revisions.{get_definition}
use garam_agent_operator.History.Operations.Reads.{get_definition-state}
use garam_agent_operator.Handler.{Outcome-cases, done}
use garam_agent_operator.Handler.Steps.{Gives, bind-state, bind_reads-Gives}
use garam_agent_operator.Distribution.{
  Proof, ProvenAgent, ProofError, Proved, proof, unproved, Request, Server, Controller,
}
use garam_agent_operator.Distribution.Session.{
  presented, record_contact, authenticate, proved_epoch, placed, placed_epoch, assigned_to,
  prove_placed_at,
}

pub Proved-cases :
    (x : Proved) → ((p : Proof) × (x ≡ proof p)) ⊎ ((e : ProofError) × (x ≡ unproved e))
Proved-cases (proof p) = inl (p, refl)
Proved-cases (unproved e) = inr (e, refl)

-- Garam proved the controller that the request names by the token that it presents.
pub record IsController (r : Request) (c : Controller) : Type 0 where
  pub presents : presented r ≡ some c.token
  pub named : c.grn ≡ r.controller
  pub found : Proof
  pub asked : r.prove c.grn c.token "" ≡ proof found
  pub operator : found.operator ≡ c.grn
  pub organization : c.org_grn ≡ found.org

-- Garam proved, by the controller's token, that the agent is assigned to it under the epoch.
pub record IsProvedAt (r : Request) (c : Controller) (agent epoch : String) : Type 0 where
  pub found : Proof
  pub asked : r.prove c.grn c.token agent ≡ proof found
  pub operator : found.operator ≡ c.grn
  pub proven : ProvenAgent
  pub names : found.agent ≡ some proven
  pub of_agent : proven.grn ≡ agent
  pub at_epoch : proven.epoch ≡ epoch

module _ {S : Type 0} where
  pub authenticate-IsController :
      (r : Request) (s : Server S)
      → Gives (λ c s'. IsController r c × (s' ≡ record_contact c r.now s)) (authenticate r s)
  unfolding authenticate
  authenticate-IsController r s c h = elim (Option-cases (presented r)) [
    | inl e ↦ absurd (ground arith)
    | inr (token, e) ↦ elim (Proved-cases (r.prove r.controller token "")) [
      | inr (x, q) ↦ absurd (ground arith)
      | inl (p, q) ↦ elim (Bool-cases (p.operator != r.controller)) [
        | inl other ↦ absurd (ground arith)
        | inr own ↦
            let c' : Controller = record { grn = r.controller; token = token; org_grn = p.org } in
            let is : c' ≡ c = ground arith in
            subst
              (λ (x : Controller).
                IsController r x × ((authenticate r s).1 ≡ record_contact x r.now s))
              is
              (
                record {
                  presents = e;
                  named = refl;
                  found = p;
                  asked = q;
                  operator = ground (arith, eq_iff p.operator r.controller);
                  organization = refl;
                },
                ground arith,
              )
      ]
    ]
  ]

  pub proved_epoch-state :
      (r : Request) (c : Controller) (agent : String) (s : Server S)
      → (proved_epoch r c agent s).1 ≡ s
  unfolding proved_epoch
  proved_epoch-state r c agent s = elim (Proved-cases (r.prove c.grn c.token agent)) [
    | inr (x, q) ↦ ground arith
    | inl (p, q) ↦ ground arith
  ]

  pub proved_epoch-IsProvedAt :
      (r : Request) (c : Controller) (agent epoch : String) (s : Server S)
      → (proved_epoch r c agent s).0 ≡ done epoch
      → IsProvedAt r c agent epoch
  unfolding proved_epoch
  proved_epoch-IsProvedAt r c agent epoch s h = elim (Proved-cases (r.prove c.grn c.token agent)) [
    | inr (x, q) ↦ absurd (ground arith)
    | inl (p, q) ↦ elim (Option-cases p.agent) [
      | inl e ↦ absurd (ground arith)
      | inr (a, e) ↦ record {
        found = p;
        asked = q;
        operator = ground (arith, eq_iff p.operator c.grn);
        proven = a;
        names = e;
        of_agent = ground (arith, eq_iff a.grn agent);
        at_epoch = ground arith;
      }
    ]
  ]

  pub placed-state :
      (r : Request) (c : Controller) (agent epoch : String) (s : Server S)
      → (placed r c agent epoch s).1 ≡ s
  unfolding placed
  placed-state r c agent epoch s = elim (Outcome-cases (proved_epoch r c agent s).0) [
    | inl (p, e) ↦ ground (arith, proved_epoch-state r c agent s)
    | inr (inl (f, e)) ↦ ground (arith, proved_epoch-state r c agent s)
    | inr (inr e) ↦ ground (arith, proved_epoch-state r c agent s)
  ]

  pub placed-IsProvedAt :
      (r : Request) (c : Controller) (agent epoch : String) (s : Server S)
      → (placed r c agent epoch s).0 ≡ done true
      → IsProvedAt r c agent epoch
  unfolding placed
  placed-IsProvedAt r c agent epoch s h = elim (Outcome-cases (proved_epoch r c agent s).0) [
    | inl (p, e) ↦
        let is : p ≡ epoch = ground (arith, eq_iff p epoch) in
        proved_epoch-IsProvedAt r c agent epoch s (e ∙ ap done is)
    | inr (inl (f, e)) ↦ absurd (ground arith)
    | inr (inr e) ↦ absurd (ground arith)
  ]

  pub IsProvedAt-placed :
      (r : Request) (c : Controller) (agent epoch : String) (s : Server S)
      → IsProvedAt r c agent epoch
      → (placed r c agent epoch s).0 ≡ done true
  unfolding placed proved_epoch
  IsProvedAt-placed r c agent epoch s h = ground (
    arith,
    h.asked,
    h.names,
    eq_iff h.found.operator c.grn,
    eq_iff h.proven.grn agent,
    eq_iff h.proven.epoch epoch,
    h.operator,
    h.of_agent,
    h.at_epoch,
  )

  placed_epoch-state :
      (r : Request) (c : Controller) (agent : String) (s : Server S)
      → (placed_epoch r c agent s).1 ≡ s
  unfolding placed_epoch
  placed_epoch-state r c agent s = elim (Outcome-cases (proved_epoch r c agent s).0) [
    | inl (p, e) ↦ ground (arith, proved_epoch-state r c agent s)
    | inr (inl (f, e)) ↦ ground (arith, proved_epoch-state r c agent s)
    | inr (inr e) ↦ ground (arith, proved_epoch-state r c agent s)
  ]

  placed_epoch-IsProvedAt :
      (r : Request) (c : Controller) (agent epoch : String) (s : Server S)
      → (placed_epoch r c agent s).0 ≡ done epoch
      → IsProvedAt r c agent epoch
  unfolding placed_epoch
  placed_epoch-IsProvedAt r c agent epoch s h = elim (Outcome-cases (proved_epoch r c agent s).0) [
    | inl (p, e) ↦
        let is : p ≡ epoch = ground arith in
        proved_epoch-IsProvedAt r c agent epoch s (e ∙ ap done is)
    | inr (inl (f, e)) ↦ absurd (ground arith)
    | inr (inr e) ↦ absurd (ground arith)
  ]

  -- The agent's latest revision is recorded for the controller under the assignment.
  pub record IsAssigned (c : Controller) (agent : String) (m : Memory S) (a : Assignment)
      : Type 0 where
    pub latest : Definition
    pub defined : (get_definition agent m).0 ≡ ok latest
    pub recorded : latest.assignment ≡ some a
    pub operator : a.operator ≡ c.grn

  pub assigned_to-state :
      (c : Controller) (agent : String) (s : Server S) → (assigned_to c agent s).1 ≡ s
  unfolding assigned_to
  assigned_to-state c agent s = elim (Result-cases (get_definition agent s.memory).0) [
    | inl (d, e) ↦ ground (arith, get_definition-state agent s.memory)
    | inr (inl (x, e)) ↦ ground (arith, get_definition-state agent s.memory)
    | inr (inr e) ↦ ground (arith, get_definition-state agent s.memory)
  ]

  pub assigned_to-IsAssigned :
      (c : Controller) (agent : String) (s : Server S) (a : Assignment)
      → (assigned_to c agent s).0 ≡ done a
      → IsAssigned c agent s.memory a
  unfolding assigned_to
  assigned_to-IsAssigned c agent s a h = elim (Result-cases (get_definition agent s.memory).0) [
    | inr (inl (x, e)) ↦ absurd (ground arith)
    | inr (inr e) ↦ absurd (ground arith)
    | inl (d, e) ↦ elim (Option-cases d.assignment) [
      | inl q ↦ absurd (ground arith)
      | inr (b, q) ↦
          let is : b ≡ a = ground arith in
          record {
            latest = d;
            defined = e;
            recorded = q ∙ ap some is;
            operator = ground (arith, eq_iff b.operator c.grn);
          }
    ]
  ]

  -- The agent is placed on the controller under the epoch: garam proved it, and the latest revision is
  -- recorded for it under that epoch.
  pub record IsPlacedAt (r : Request) (c : Controller) (agent epoch : String) (m : Memory S)
      : Type 0 where
    pub assignment : Assignment
    pub assigned : IsAssigned c agent m assignment
    pub same_epoch : assignment.epoch ≡ epoch
    pub proved : IsProvedAt r c agent epoch

  pub prove_placed_at-state :
      (r : Request) (c : Controller) (agent epoch : String) (s : Server S)
      → (prove_placed_at r c agent epoch s).1 ≡ s
  unfolding prove_placed_at
  prove_placed_at-state r c agent epoch s =
      bind-state (assigned_to c agent) _ s (assigned_to-state c agent s) (λ a e.
        bind-state (placed_epoch r c agent) _ s (placed_epoch-state r c agent s)
          (λ proved f. ground arith))

  pub prove_placed_at-IsPlacedAt :
      (r : Request) (c : Controller) (agent epoch : String) (s : Server S)
      → Gives (λ _ s'. IsPlacedAt r c agent epoch s.memory) (prove_placed_at r c agent epoch s)
  unfolding prove_placed_at
  prove_placed_at-IsPlacedAt r c agent epoch s =
      let R : Unit {0} → Server S → Type 0 = λ _ _. IsPlacedAt r c agent epoch s.memory in
      bind_reads-Gives R (assigned_to c agent) _ s (assigned_to-state c agent s) (λ a e.
        bind_reads-Gives R (placed_epoch r c agent) _ s (placed_epoch-state r c agent s)
          (λ proved f u k.
            let is : proved ≡ epoch = ground (arith, eq_iff proved epoch) in
            record {
              assignment = a;
              assigned = assigned_to-IsAssigned c agent s a e;
              same_epoch = ground (arith, eq_iff proved a.epoch);
              proved = placed_epoch-IsProvedAt r c agent epoch s (f ∙ ap done is);
            }))
