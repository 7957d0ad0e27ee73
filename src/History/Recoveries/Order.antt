-- ===== src/History/Recoveries/Order.antt =====
-- The recoveries of an agent, where all but the last are finalized.
use garam_agent_operator.Prelude.{
  ℕ, zero, suc, ◌≡◌, false, none, some, List, [], ◌∷◌, ◌++◌, string_eq, arith, last?, get_elem?,
  set, find,
}
use garam_agent_operator.Definition.Types.{Recovery}
use garam_agent_operator.Repository.Recoveries.{is_open}
use garam_agent_operator.History.Recoveries.Stages.{Advances}

-- All but the last are finalized.
abbrev pub OpenLast : List Recovery → Type 0
OpenLast [] = Unit {0}
OpenLast (r ∷ []) = Unit {0}
OpenLast (r ∷ s ∷ rest) = (is_open r ≡ false) × OpenLast (s ∷ rest)

pub OpenLast-append :
    (xs : List Recovery) (r : Recovery) → find is_open xs ≡ none → OpenLast (xs ++ r ∷ [])
OpenLast-append [] r h = tt
OpenLast-append (x ∷ []) r h = (ground arith, tt)
OpenLast-append (x ∷ y ∷ xs) r h = (ground arith, OpenLast-append (y ∷ xs) r (ground arith))

pub OpenLast-set :
    (xs : List Recovery) (i : ℕ) (r r' : Recovery)
    → get_elem? xs i ≡ some r
    → Advances r r'
    → OpenLast xs
    → OpenLast (set xs i r')
OpenLast-set [] i r r' e a h = tt
OpenLast-set (x ∷ []) zero r r' e a h = tt
OpenLast-set (x ∷ []) (suc i) r r' e a h = tt
OpenLast-set (x ∷ y ∷ xs) zero r r' e a h = (ground (arith, a.stages), h.1)
OpenLast-set (x ∷ y ∷ xs) (suc zero) r r' e a h = (h.0, OpenLast-set (y ∷ xs) zero r r' e a h.1)
OpenLast-set (x ∷ y ∷ xs) (suc (suc i)) r r' e a h =
    (h.0, OpenLast-set (y ∷ xs) (suc i) r r' e a h.1)

-- The open recovery is the last.
pub find-OpenLast :
    (xs : List Recovery) (r : Recovery) → OpenLast xs → find is_open xs ≡ some r → last? xs ≡ some r
find-OpenLast [] r h f = ground arith
find-OpenLast (x ∷ []) r h f = ground arith
find-OpenLast (x ∷ y ∷ xs) r h f = find-OpenLast (y ∷ xs) r h.1 (ground arith)
