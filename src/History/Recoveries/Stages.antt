-- ===== src/History/Recoveries/Stages.antt =====
-- How a recovery advances, and the recoveries of an agent with it.
use garam_agent_operator.Prelude.{
  ℕ, zero, suc, ◌≡◌, ◌≢◌, refl, ◌∙◌, subst, some, List, [], ◌∷◌, string_eq, arith, get_elem?, set,
}
use garam_agent_operator.Definition.Types.{Recovery, RecoveryStage, requested}

-- What a recovery may become. Its request, the console request that opened it and its epoch stay as
-- they are. Once it is prepared, its body stays, and once it is finalized, everything does.
abbrev pub StageAdvances : RecoveryStage → Recovery → Recovery → Type 0
StageAdvances RecoveryStage.requested r r' = Unit {0}
StageAdvances RecoveryStage.prepared r r' = (r'.body ≡ r.body) × (r'.stage ≢ requested)
StageAdvances RecoveryStage.finalized r r' = r' ≡ r

pub record Advances (r r' : Recovery) : Type 0 where
  pub agent : r'.agent ≡ r.agent
  pub request_id : r'.request_id ≡ r.request_id
  pub key : r'.key ≡ r.key
  pub binding : r'.binding ≡ r.binding
  pub epoch : r'.epoch ≡ r.epoch
  pub stages : StageAdvances r.stage r r'

pub Advances-refl : (r : Recovery) → Advances r r
Advances-refl r = record {
  agent = refl;
  request_id = refl;
  key = refl;
  binding = refl;
  epoch = refl;
  stages =
      elim r.stage as (λ s. r.stage ≡ s → StageAdvances s r r) [
        | RecoveryStage.requested ↦ λ e. tt
        | RecoveryStage.prepared ↦ λ e. (refl, ground arith)
        | RecoveryStage.finalized ↦ λ e. refl
      ]
        refl;
}

pub Advances-trans : (r s t : Recovery) → Advances r s → Advances s t → Advances r t
Advances-trans r s t a b = record {
  agent = b.agent ∙ a.agent;
  request_id = b.request_id ∙ a.request_id;
  key = b.key ∙ a.key;
  binding = b.binding ∙ a.binding;
  epoch = b.epoch ∙ a.epoch;
  stages = ground (arith, a.stages, b.stages);
}

-- Each recovery stands where it stood, advanced.
abbrev pub Advanced : List Recovery → List Recovery → Type 0
Advanced xs ys =
    (i : ℕ) (r : Recovery)
    → get_elem? xs i ≡ some r
    → (r' : Recovery) × (get_elem? ys i ≡ some r') × Advances r r'

pub Advanced-set :
    (xs : List Recovery) (i : ℕ) (r r' : Recovery)
    → get_elem? xs i ≡ some r
    → Advances r r'
    → Advanced xs (set xs i r')
Advanced-set [] i r r' e a j s h = ground arith
Advanced-set (x ∷ xs) zero r r' e a zero s h =
    let same : r ≡ s = ground arith in (r', refl, subst (λ (q : Recovery). Advances q r') same a)
Advanced-set (x ∷ xs) zero r r' e a (suc j) s h = (s, h, Advances-refl s)
Advanced-set (x ∷ xs) (suc i) r r' e a zero s h = (s, h, Advances-refl s)
Advanced-set (x ∷ xs) (suc i) r r' e a (suc j) s h = Advanced-set xs i r r' e a j s h
