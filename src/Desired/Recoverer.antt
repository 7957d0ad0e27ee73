-- ===== src/Desired/Recoverer.antt =====
-- internal/desired/recoverer.go: the controller's half of an agent's recovery. `persisted` and
-- `lineages` are its store, which Kubernetes keeps: a request that is persisted is never replaced, and
-- recording a lineage removes it, as the interface says.
pub mod Requests
use garam_agent_operator.Prelude.{
  ℕ, ◌+◌, ◌*◌, String, Bool, true, false, not, ◌&&◌, ◌||◌, Option, none, some, List, [], ◌∷◌, ◌++◌,
  ◌==◌, ◌!=◌, string_eq, ℕ_eq, option_eq, ltb, if◌then◌else◌,
}
use garam_agent_operator.Map.{Map, get, put, retain, get_or}
use garam_agent_operator.Desired.{
  second, Reply, replied, refused, silent, next_backoff, refused_wait, is_refused_as,
}
use garam_agent_operator.Desired.Puller.{OpenRecovery}

pub record RecoveryRequest : Type 0 where
  pub id : String
  pub epoch : String

-- `lineage` is empty before the recovery is finalized.
pub record Recovered : Type 0 where
  pub agent : String
  pub request_id : String
  pub epoch : String
  pub lineage : String

pub record Attempt : Type 0 where
  pub next : ℕ
  pub backoff : ℕ
  pub refused_as : Option (ℕ × String)

-- `sent` is what was sent to the control service for each agent, and `logged` the refusals that were
-- logged, the last first.
pub record Recoverer : Type 0 where
  pub offered : Map String OpenRecovery
  pub attempts : Map String Attempt
  pub recorded : Map String String
  pub persisted : Map String RecoveryRequest
  pub lineages : Map String String
  pub sent : List (String × RecoveryRequest)
  pub logged : List (String × ℕ × String)

-- What a step of an agent meets: the clock before and after its calls, which calls of the store fail,
-- and the control service's reply.
pub record Turn : Type 0 where
  pub now : ℕ
  pub later : ℕ
  pub load_fails : Bool
  pub save_fails : Bool
  pub reload_fails : Bool
  pub reply : RecoveryRequest → Reply Recovered
  pub recorded_fails : Bool

-- `preparedWait`
abbrev pub prepared_wait : ℕ
prepared_wait = 10 * second

abbrev pub new_attempt : Attempt
new_attempt = record { next = 0; backoff = 0; refused_as = none }

module _ {V : Type 0} where
  abbrev pub without : String → Map String V → Map String V
  without agent m = retain (λ k. k != agent) m

  abbrev pub keys : Map String V → List String
  keys [] = []
  keys ((k, v) ∷ m) = k ∷ keys m

-- `Offer`
abbrev pub offer : Map String OpenRecovery → Recoverer → Recoverer
offer found r = record r { offered = found }

abbrev pub set_attempt : String → Attempt → Recoverer → Recoverer
set_attempt agent state r = record r { attempts = put agent state r.attempts }

-- `retryTransient`
unfoldable pub retry_transient : String → ℕ → Attempt → Recoverer → Recoverer
retry_transient agent later state r =
    let wait = next_backoff state.backoff in
    set_attempt agent (record state { backoff = wait; next = later + wait }) r

-- `recover`, once the answer was read.
unfoldable pub record_answer :
    String → Turn → Attempt → RecoveryRequest → Recovered → Recoverer → Recoverer
unfolding retry_transient
record_answer agent turn state request x r =
    if x.agent != agent || x.request_id != request.id || x.epoch != request.epoch
    then set_attempt agent (record state { next = turn.later + refused_wait }) r
    else if x.lineage == ""
    then set_attempt agent (record state { backoff = 0; next = turn.later + prepared_wait }) r
    else if turn.recorded_fails
    then retry_transient agent turn.later state r
    else record r {
      attempts = without agent r.attempts;
      recorded = put agent request.id r.recorded;
      persisted = without agent r.persisted;
      lineages = put agent x.lineage r.lineages;
    }

-- `recover`, from the call of the control service on.
unfoldable pub send_request : String → Turn → Attempt → RecoveryRequest → Recoverer → Recoverer
unfolding record_answer
send_request agent turn state request r =
    let r' : Recoverer = record r { sent = (agent, request) ∷ r.sent } in
    elim (turn.reply request) [
      | refused status kind ↦
          let state' : Attempt = record state {
            backoff = 0;
            next = turn.later + refused_wait;
            refused_as = some (status, kind);
          } in
          set_attempt agent state' (record r' {
            logged =
                if is_refused_as state.refused_as status kind
                then r'.logged
                else (agent, status, kind) ∷ r'.logged;
          })
      | silent ↦ retry_transient agent turn.later state r'
      | replied x ↦ record_answer agent turn state request x r'
    ]

-- `SaveRecovery`, of a store that keeps a request that is persisted.
unfoldable pub save :
    String → RecoveryRequest → Map String RecoveryRequest → Map String RecoveryRequest
save agent request m = elim (get agent m) [ none ↦ put agent request m | some kept ↦ m ]

-- `begin`, and what follows it.
unfoldable pub begin : String → Turn → Attempt → OpenRecovery → Recoverer → Recoverer
unfolding save send_request
begin agent turn state opened r =
    if turn.save_fails
    then retry_transient agent turn.later state r
    else (let r' : Recoverer = record r {
      persisted = save agent (record { id = opened.request_id; epoch = opened.epoch }) r.persisted;
    } in
        if turn.reload_fails
        then retry_transient agent turn.later state r'
        else elim (get agent r'.persisted) [
          | none ↦ retry_transient agent turn.later state r'
          | some request ↦ send_request agent turn state request r'
        ])

-- `recover`, where nothing is persisted for the agent.
unfoldable pub recover_new : String → Turn → Attempt → Option OpenRecovery → Recoverer → Recoverer
unfolding begin
recover_new agent turn state opened r = elim opened [
  | none ↦ record r { attempts = without agent r.attempts }
  | some o ↦
      if get_or "" agent r.recorded == o.request_id
      then record r { attempts = without agent r.attempts }
      else begin agent turn state o r
]

-- `recover`
unfoldable pub recover : String → Turn → Option OpenRecovery → Recoverer → Recoverer
unfolding recover_new
recover agent turn opened r =
    let state = get_or new_attempt agent r.attempts in
    let r' = set_attempt agent state r in
    if ltb turn.now state.next
    then r'
    else if turn.load_fails
    then retry_transient agent turn.later state r'
    else elim (get agent r'.persisted) [
      | some request ↦ send_request agent turn state request r'
      | none ↦ recover_new agent turn state opened r'
    ]

unfoldable pub recover_each :
    (String → Turn) → Map String OpenRecovery → List String → Recoverer → Recoverer
unfolding recover
recover_each turn offered [] r = r
recover_each turn offered (agent ∷ rest) r =
    recover_each turn offered rest (recover agent (turn agent) (get agent offered) r)

-- The agents with a request persisted, and then those with an open recovery alone.
abbrev pub agents_of : Recoverer → List String
agents_of r =
    let persisted = r.persisted in
    let others = retain (λ k. elim (get k persisted) [ none ↦ true | some q ↦ false ]) r.offered in
    keys persisted ++ keys others

-- `recoverAll`; `lists` is that the persisted requests can be listed.
unfoldable pub recover_all : Bool → (String → Turn) → Recoverer → Recoverer
unfolding recover_each
recover_all lists turn r = if lists then recover_each turn r.offered (agents_of r) r else r

-- What happens to a recoverer: the feed offers the open recoveries, or it takes a pass.
pub data Event : Type 0 where
  offers : Map String OpenRecovery → Event
  pass : Bool → (String → Turn) → Event

unfoldable pub run : List Event → Recoverer → Recoverer
unfolding recover_all
run [] r = r
run (offers found ∷ rest) r = run rest (offer found r)
run (pass lists turn ∷ rest) r = run rest (recover_all lists turn r)
