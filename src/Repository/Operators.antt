-- ===== src/Repository/Operators.antt =====
-- memory_operators.go: what each controller reported, and when it last made contact.
use garam_agent_operator.Prelude.{
  ℕ, String, Bool, true, not, Option, none, some, List, [], ◌∷◌, ◌==◌, string_eq, ℕ_eq, ltb,
  if◌then◌else◌, sort_by,
}
use garam_agent_operator.Map.{Map, get, put}
use garam_agent_operator.Exec.{Exec}
use garam_agent_operator.Definition.Errors.{ok}
use garam_agent_operator.Repository.{Memory, StoredOperator}
use garam_agent_operator.Definition.Types.{Operator, OperatorImage}
use garam_agent_operator.Repository.Publishing.{text_before}

-- `stored == nil || stored.Before(at)`
abbrev pub is_later : Option ℕ → ℕ → Bool
is_later none at = true
is_later (some stored) at = ltb stored at

-- `stored == nil || !stored.After(at)`
abbrev pub is_not_earlier : Option ℕ → ℕ → Bool
is_not_earlier none at = true
is_not_earlier (some stored) at = not (ltb at stored)

unfoldable pub operators_in : String → Map String StoredOperator → List Operator
operators_in org_grn [] = []
operators_in org_grn ((_, stored) ∷ rest) =
    if stored.org_grn == org_grn
    then stored.operator ∷ operators_in org_grn rest
    else operators_in org_grn rest

module _ {S : Type 0} where
  unfoldable pub operator_locked : String → String → Memory S → StoredOperator
  operator_locked org_grn operator m = elim (get operator m.operators) [
    | some stored ↦ record stored { org_grn = org_grn }
    | none ↦ record {
      org_grn = org_grn;
      operator = record { grn = operator; images = []; reported_at = none; last_contact_at = none };
    }
  ]

  unfoldable pub record_operator_contact : String → String → ℕ → Exec (Memory S) (Unit {0})
  unfolding operator_locked
  record_operator_contact org_grn operator at m =
      let stored = operator_locked org_grn operator m in
      let o = stored.operator in
      let o' =
        if is_later o.last_contact_at at then record o { last_contact_at = some at } else o in
      (ok tt, record m { operators = put operator (record stored { operator = o' }) m.operators })

  unfoldable pub report_operator_images :
      String → String → List OperatorImage → ℕ → Exec (Memory S) (Unit {0})
  unfolding operator_locked
  report_operator_images org_grn operator images at m =
      let stored = operator_locked org_grn operator m in
      let o = stored.operator in
      let o' =
        if is_not_earlier o.reported_at at
        then record o { images = images; reported_at = some at }
        else o in
      (ok tt, record m { operators = put operator (record stored { operator = o' }) m.operators })

  unfoldable pub list_operators : String → Exec (Memory S) (List Operator)
  unfolding operators_in
  list_operators org_grn m =
      (ok (sort_by (λ a b. text_before a.grn b.grn) (operators_in org_grn m.operators)), m)
