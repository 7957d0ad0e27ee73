-- ===== src/Distribution/Session.antt =====
-- internal/distribution/session.go, contact.go, and `provePlacedAt` of placement.go: who asks, and
-- which agents are placed on it.
use garam_agent_operator.Prelude.{
  ℕ, ◌-◌, ◌*◌, String, Bool, true, false, not, ◌&&◌, ◌||◌, Option, none, some, ◌∷◌, ◌==◌, ◌!=◌,
  string_eq, ℕ_eq, ltb, if◌then◌else◌, length,
}
use garam_agent_operator.Definition.Errors.{Result, ok, err, panic}
use garam_agent_operator.Definition.Types.{Assignment}
use garam_agent_operator.Map.{get, put, retain}
use garam_agent_operator.Repository.Revisions.{get_definition}
use garam_agent_operator.Repository.Operators.{record_operator_contact}
use garam_agent_operator.Text.{codes, every, is_hex, cut_prefix, cut, is_bearer}
use garam_agent_operator.Handler.{answer, fail, done, fails, panics, ◌>>=◌}
use garam_agent_operator.Distribution.{
  ProofError, proof, unproved, Failure, Request, Server, Controller, Handler, ask, read_or,
}

-- `operatorToken`: ^garam_ot_[0-9a-f]{64}$
unfoldable pub is_operator_token : String → Bool
is_operator_token s = elim (cut_prefix "garam_ot_" s) [
  | none ↦ false
  | some digits ↦ length (codes digits) == 64 && every is_hex (codes digits)
]

-- The token that a request presents beside a controller's GRN.
unfoldable pub presented : Request → Option String
unfolding is_bearer is_operator_token
presented r = elim (cut b' ' r.authorization) [
  | none ↦ none
  | some (scheme, token) ↦
      if not (is_bearer scheme) || not (is_operator_token token) || r.controller == ""
      then none
      else some token
]

-- `contactInterval`, of a clock in nanoseconds.
abbrev pub contact_interval : ℕ
contact_interval = 60 * 1000000000

-- `ok && at.Sub(last) < contactInterval`; a clock that went back counts as no time passed.
abbrev pub is_recent : ℕ → Option ℕ → Bool
is_recent at none = false
is_recent at (some last) = ltb (at - last) contact_interval

abbrev pub is_unproved : Failure → Bool
is_unproved (Failure.prover ProofError.not_proved) = true
is_unproved _ = false

module _ {S : Type 0} where
  -- What follows the write of a contact: the mark is dropped where it failed.
  abbrev pub after_contact : String → ℕ → Result (Unit {0}) → Server S → Server S
  after_contact grn at (ok u) s = s
  after_contact grn at (err e) s = record s {
    written =
        if (elim (get grn s.written) [ none ↦ false | some last ↦ last == at ])
        then retain (λ k. k != grn) s.written
        else s.written;
    unrecorded = grn ∷ s.unrecorded;
  }
  after_contact grn at panic s = s

  -- `contacts.record`, and the log of its failure in `authenticate`.
  unfoldable pub record_contact : Controller → ℕ → Server S → Server S
  record_contact c at s =
      if is_recent at (get c.grn s.written)
      then s
      else (let marked : Server S = record s { written = put c.grn at s.written } in
          let (r, memory) = record_operator_contact c.org_grn c.grn at marked.memory in
          after_contact c.grn at r (record marked { memory = memory }))

  unfoldable pub authenticate : Request → Handler S Controller
  unfolding presented record_contact
  authenticate r = do
    token ← read_or Failure.no_token (presented r)
    elim (r.prove r.controller token "") [
      | unproved e ↦ fail (Failure.prover e)
      | proof p ↦ if p.operator != r.controller then fail Failure.another_operator else (λ s.
          let c : Controller = record { grn = r.controller; token = token; org_grn = p.org } in
          (done c, record_contact c r.now s))
    ]

  -- `provedEpoch`
  unfoldable pub proved_epoch : Request → Controller → String → Handler S String
  proved_epoch r c agent = elim (r.prove c.grn c.token agent) [
    | unproved e ↦ fail (Failure.prover e)
    | proof p ↦ elim p.agent [
      | none ↦ fail (Failure.prover ProofError.not_proved)
      | some a ↦
          if p.operator != c.grn || a.grn != agent
          then fail (Failure.prover ProofError.not_proved)
          else answer a.epoch
    ]
  ]

  -- `placed`
  unfoldable pub placed : Request → Controller → String → String → Handler S Bool
  unfolding proved_epoch
  placed r c agent epoch s =
      let (outcome, s') = proved_epoch r c agent s in
      elim outcome [
        | done proved ↦ (done (proved == epoch), s')
        | fails e ↦ if is_unproved e then (done false, s') else (fails e, s')
        | panics ↦ (panics, s')
      ]

  -- An unproved placement is `errNotPlaced`.
  unfoldable pub placed_epoch : Request → Controller → String → Handler S String
  unfolding proved_epoch
  placed_epoch r c agent s =
      let (outcome, s') = proved_epoch r c agent s in
      elim outcome [
        | done proved ↦ (done proved, s')
        | fails e ↦ if is_unproved e then (fails Failure.not_placed, s') else (fails e, s')
        | panics ↦ (panics, s')
      ]

  -- The agent's latest revision, where it is recorded for the controller.
  unfoldable pub assigned_to : Controller → String → Handler S Assignment
  assigned_to c agent = do
    latest ← ask (get_definition agent)
    elim latest.assignment [
      | none ↦ fail Failure.not_placed
      | some a ↦ if a.operator != c.grn then fail Failure.not_placed else answer a
    ]

  -- `provePlacedAt`
  unfoldable pub prove_placed_at : Request → Controller → String → String → Handler S (Unit {0})
  unfolding assigned_to placed_epoch
  prove_placed_at r c agent epoch = do
    a ← assigned_to c agent
    proved ← placed_epoch r c agent
    if proved != epoch || proved != a.epoch then fail Failure.epoch_superseded else answer tt
