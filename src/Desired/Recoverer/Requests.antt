-- ===== src/Desired/Recoverer/Requests.antt =====
-- What the recoverer sends of an agent's recovery, and when it lets a request go.
use garam_agent_operator.Prelude.{
  ℕ, ◌≡◌, ◌≢◌, ◌⊎◌, refl, String, Option, none, some, Option-cases, Bool-cases, inl, inr, ◌∷◌, ◌||◌,
  ◌==◌, ◌!=◌, string_eq, ltb, arith, sym, ◌∙◌, subst, beq_refl,
}
use text.Mathlib.TextEquality.{eq_iff}
use garam_agent_operator.Map.{Map, get, put, get_or}
use garam_agent_operator.Map.Laws.{get-put_self, get-retain}
use garam_agent_operator.Desired.{Reply-cases, replied}
use garam_agent_operator.Desired.Puller.{OpenRecovery}
use garam_agent_operator.Desired.Recoverer.{
  RecoveryRequest, Recovered, Attempt, Recoverer, Turn, without, new_attempt, retry_transient,
  record_answer, send_request, save, begin, recover_new, recover,
}

-- The request was finalized: the answer is of it and has a lineage, which is recorded, and the request
-- is let go.
pub record IsFinalized (agent : String) (q : RecoveryRequest) (turn : Turn) (r' : Recoverer)
    : Type 0 where
  pub answer : Recovered
  pub replied_with : turn.reply q ≡ replied answer
  pub of_agent : answer.agent ≡ agent
  pub of_request : answer.request_id ≡ q.id
  pub at_epoch : answer.epoch ≡ q.epoch
  pub finalized : answer.lineage ≢ ""
  pub lineage : get agent r'.lineages ≡ some answer.lineage
  pub recorded : get agent r'.recorded ≡ some q.id
  pub let_go : get agent r'.persisted ≡ none

-- The store is the same: its requests, its lineages and what was recorded.
pub record IsSame (r r' : Recoverer) : Type 0 where
  pub persisted : r'.persisted ≡ r.persisted
  pub recorded : r'.recorded ≡ r.recorded
  pub lineages : r'.lineages ≡ r.lineages

-- The request was sent, and then finalized, or nothing was changed but when to ask again.
pub record IsSent (agent : String) (q : RecoveryRequest) (turn : Turn) (r r' : Recoverer)
    : Type 0 where
  pub sent : r'.sent ≡ (agent, q) ∷ r.sent
  pub outcome : IsSame r r' ⊎ IsFinalized agent q turn r'

get-without : {V : Type 0} (agent : String) (m : Map String V) → get agent (without agent m) ≡ none
get-without agent m = get-retain (λ k. k != agent) agent m ∙ ground (arith, beq_refl agent)

record_answer-cases :
    (agent : String) (turn : Turn) (state : Attempt) (q : RecoveryRequest) (x : Recovered)
    (r : Recoverer)
    → turn.reply q ≡ replied x
    → ((record_answer agent turn state q x r).sent ≡ r.sent)
      × (IsSame r (record_answer agent turn state q x r)
          ⊎ IsFinalized agent q turn (record_answer agent turn state q x r))
unfolding record_answer retry_transient
record_answer-cases agent turn state q x r e =
    elim (Bool-cases (x.agent != agent || x.request_id != q.id || x.epoch != q.epoch)) [
      | inl other ↦ (
        ground arith,
        inl (record { persisted = ground arith; recorded = ground arith; lineages = ground arith }),
      )
      | inr same ↦ elim (Bool-cases (x.lineage == "")) [
        | inl prepared ↦ (
          ground arith,
          inl (record {
            persisted = ground arith;
            recorded = ground arith;
            lineages = ground arith;
          }),
        )
        | inr finalized ↦ elim (Bool-cases turn.recorded_fails) [
          | inl failed ↦ (
            ground arith,
            inl (record {
              persisted = ground arith;
              recorded = ground arith;
              lineages = ground arith;
            }),
          )
          | inr written ↦ (
            ground arith,
            inr (record {
              answer = x;
              replied_with = e;
              of_agent = ground (arith, eq_iff x.agent agent);
              of_request = ground (arith, eq_iff x.request_id q.id);
              at_epoch = ground (arith, eq_iff x.epoch q.epoch);
              finalized = ground (arith, eq_iff x.lineage "");
              lineage = ground (arith, get-put_self agent x.lineage r.lineages);
              recorded = ground (arith, get-put_self agent q.id r.recorded);
              let_go = ground (arith, get-without agent r.persisted);
            }),
          )
        ]
      ]
    ]

send_request-IsSent :
    (agent : String) (turn : Turn) (state : Attempt) (q : RecoveryRequest) (r : Recoverer)
    → IsSent agent q turn r (send_request agent turn state q r)
unfolding send_request retry_transient
send_request-IsSent agent turn state q r =
    let r1 : Recoverer = record r { sent = (agent, q) ∷ r.sent } in
    elim (Reply-cases (turn.reply q)) [
      | inl (x, e) ↦
          let (sent, outcome) = record_answer-cases agent turn state q x r1 e in
          let r2 = record_answer agent turn state q x r1 in
          let same : send_request agent turn state q r ≡ r2 = ground arith in
          subst (IsSent agent q turn r) (sym same) (record {
            sent = sent;
            outcome = elim outcome [
              | inl k ↦
                  inl (record {
                    persisted = k.persisted;
                    recorded = k.recorded;
                    lineages = k.lineages;
                  })
              | inr k ↦ inr k
            ];
          })
      | inr (inl (status, kind, e)) ↦ record {
        sent = ground arith;
        outcome =
            inl (record {
              persisted = ground arith;
              recorded = ground arith;
              lineages = ground arith;
            });
      }
      | inr (inr e) ↦ record {
        sent = ground arith;
        outcome =
            inl (record {
              persisted = ground arith;
              recorded = ground arith;
              lineages = ground arith;
            });
      }
    ]

-- The request of the open recovery, which was not recorded and for which no request is persisted.
pub record IsBegun (agent : String) (opened : Option OpenRecovery) (q : RecoveryRequest)
    (r : Recoverer) : Type 0 where
  pub recovery : OpenRecovery
  pub offered : opened ≡ some recovery
  pub free : get agent r.persisted ≡ none
  pub new : get_or "" agent r.recorded ≢ recovery.request_id
  pub request : q ≡ record { id = recovery.request_id; epoch = recovery.epoch }

-- A step of the agent's recovery: nothing is sent and nothing persisted is let go; or the request that
-- is persisted is sent; or that of the open recovery, which is persisted first.
pub data IsStep (agent : String) (opened : Option OpenRecovery) (turn : Turn) (r r' : Recoverer)
    : Type 0 where
  quiet : r'.sent ≡ r.sent → IsSame r r' → IsStep agent opened turn r r'
  saved :
      (q : RecoveryRequest)
      → IsBegun agent opened q r
      → r'.sent ≡ r.sent
      → r'.persisted ≡ put agent q r.persisted
      → IsStep agent opened turn r r'
  resent :
      (q : RecoveryRequest)
      → get agent r.persisted ≡ some q
      → IsSent agent q turn r r'
      → IsStep agent opened turn r r'
  begun :
      (q : RecoveryRequest)
      → IsBegun agent opened q r
      → IsSent agent q turn (record r { persisted = put agent q r.persisted }) r'
      → IsStep agent opened turn r r'

retry_transient-IsSame :
    (agent : String) (later : ℕ) (state : Attempt) (r : Recoverer)
    → ((retry_transient agent later state r).sent ≡ r.sent)
      × IsSame r (retry_transient agent later state r)
unfolding retry_transient
retry_transient-IsSame agent later state r =
    (refl, record { persisted = refl; recorded = refl; lineages = refl })

save_free :
    (agent : String) (q : RecoveryRequest) (m : Map String RecoveryRequest)
    → get agent m ≡ none
    → save agent q m ≡ put agent q m
unfolding save
save_free agent q m free = ground arith

begin-IsStep :
    (agent : String) (turn : Turn) (state : Attempt) (o : OpenRecovery) (r : Recoverer)
    → get agent r.persisted ≡ none
    → get_or "" agent r.recorded ≢ o.request_id
    → IsStep agent (some o) turn r (begin agent turn state o r)
unfolding begin
begin-IsStep agent turn state o r free new =
    let q : RecoveryRequest = record { id = o.request_id; epoch = o.epoch } in
    let r1 : Recoverer = record r { persisted = put agent q r.persisted } in
    let is : IsBegun agent (some o) q r = record {
      recovery = o;
      offered = refl;
      free = free;
      new = new;
      request = refl;
    } in
    let written = save_free agent q r.persisted free in
    let Step : Recoverer → Type 0 = IsStep agent (some o) turn r in
    let begins = begin agent turn state o r in
    elim (Bool-cases turn.save_fails) [
      | inl failed ↦
          let (sent, same) = retry_transient-IsSame agent turn.later state r in
          let e : begins ≡ retry_transient agent turn.later state r = ground arith in
          subst Step (sym e) (quiet sent same)
      | inr saved_q ↦ elim (Bool-cases turn.reload_fails) [
        | inl failed ↦
            let (sent, same) = retry_transient-IsSame agent turn.later state r1 in
            let e : begins ≡ retry_transient agent turn.later state r1 = ground (arith, written) in
            subst Step (sym e) (saved q is sent same.persisted)
        | inr loaded ↦
            let e : begins ≡ send_request agent turn state q r1 =
              ground (arith, written, get-put_self agent q r.persisted) in
            subst Step (sym e) (begun q is (send_request-IsSent agent turn state q r1))
      ]
    ]

recover_new-IsStep :
    (agent : String) (turn : Turn) (state : Attempt) (opened : Option OpenRecovery) (r : Recoverer)
    → get agent r.persisted ≡ none
    → IsStep agent opened turn r (recover_new agent turn state opened r)
unfolding recover_new
recover_new-IsStep agent turn state none r free =
    quiet refl (record { persisted = refl; recorded = refl; lineages = refl })
recover_new-IsStep agent turn state (some o) r free =
    elim (Bool-cases (get_or "" agent r.recorded == o.request_id)) [
      | inl known ↦
          rw known (quiet refl (record { persisted = refl; recorded = refl; lineages = refl }))
      | inr new ↦ rw new (
          begin-IsStep agent turn state o r free
            (ground (arith, eq_iff (get_or "" agent r.recorded) o.request_id)))
    ]

same_IsBegun :
    (agent : String) (opened : Option OpenRecovery) (q : RecoveryRequest) (m : Map String Attempt)
    (r : Recoverer)
    → IsBegun agent opened q (record r { attempts = m })
    → IsBegun agent opened q r
same_IsBegun agent opened q m r h = record {
  recovery = h.recovery;
  offered = h.offered;
  free = h.free;
  new = h.new;
  request = h.request;
}

same_IsSent :
    (agent : String) (q : RecoveryRequest) (turn : Turn) (m : Map String Attempt) (r r' : Recoverer)
    → IsSent agent q turn (record r { attempts = m }) r'
    → IsSent agent q turn r r'
same_IsSent agent q turn m r r' h = record {
  sent = h.sent;
  outcome = elim h.outcome [
    | inl k ↦ inl (record { persisted = k.persisted; recorded = k.recorded; lineages = k.lineages })
    | inr k ↦ inr k
  ];
}

-- The step of a recoverer whose attempts alone are others.
same_step :
    (agent : String) (opened : Option OpenRecovery) (turn : Turn) (m : Map String Attempt)
    (r r' : Recoverer)
    → IsStep agent opened turn (record r { attempts = m }) r'
    → IsStep agent opened turn r r'
same_step agent opened turn m r r' (quiet sent k) =
    quiet sent (record { persisted = k.persisted; recorded = k.recorded; lineages = k.lineages })
same_step agent opened turn m r r' (saved q is sent kept) =
    saved q (same_IsBegun agent opened q m r is) sent kept
same_step agent opened turn m r r' (resent q at is) =
    resent q at (same_IsSent agent q turn m r r' is)
same_step agent opened turn m r r' (begun q is k) =
    begun q (same_IsBegun agent opened q m r is)
      (same_IsSent agent q turn m (record r { persisted = put agent q r.persisted }) r' k)

-- What a step of an agent's recovery sends is the request that is persisted for it, or that of the open
-- recovery once it is persisted, where none was and that recovery was not recorded; a request that is
-- persisted is let go only where the answer is of it and has the new lineage, which is recorded.
pub recover-IsStep :
    (agent : String) (turn : Turn) (opened : Option OpenRecovery) (r : Recoverer)
    → IsStep agent opened turn r (recover agent turn opened r)
unfolding recover
recover-IsStep agent turn opened r =
    let state = get_or new_attempt agent r.attempts in
    let m = put agent state r.attempts in
    let r1 : Recoverer = record r { attempts = m } in
    let r' = recover agent turn opened r in
    let Step : Recoverer → Type 0 = IsStep agent opened turn r in
    elim (Bool-cases (ltb turn.now state.next)) [
      | inl early ↦
          let e : r' ≡ r1 = ground arith in
          subst Step (sym e)
            (quiet refl (record { persisted = refl; recorded = refl; lineages = refl }))
      | inr due ↦ elim (Bool-cases turn.load_fails) [
        | inl failed ↦
            let (sent, same) = retry_transient-IsSame agent turn.later state r1 in
            let e : r' ≡ retry_transient agent turn.later state r1 = ground arith in
            subst Step (sym e) (
              quiet sent (record {
                persisted = same.persisted;
                recorded = same.recorded;
                lineages = same.lineages;
              }))
        | inr loaded ↦ elim (Option-cases (get agent r.persisted)) [
          | inl free ↦
              let e : r' ≡ recover_new agent turn state opened r1 = ground arith in
              subst Step (sym e) (
                same_step agent opened turn m r (recover_new agent turn state opened r1)
                  (recover_new-IsStep agent turn state opened r1 free))
          | inr (q, at) ↦
              let e : r' ≡ send_request agent turn state q r1 = ground arith in
              subst Step (sym e) (
                same_step agent opened turn m r (send_request agent turn state q r1)
                  (resent q at (send_request-IsSent agent turn state q r1)))
        ]
      ]
    ]
