-- ===== src/History/Placements/Single.antt =====
-- The placements of one agent: keyed by their Pods, at most one current.
use garam_agent_operator.Prelude.{
  Bool-cases, ◌≤◌, ◌≡◌, refl, String, true, none, some, [], Option-cases, inl, inr, string_eq, ◌==◌,
  arith, subst, sym,
}
use text.Mathlib.TextEquality.{eq_iff}
use garam_agent_operator.Map.{Map, get, get_or, put, last_value, count}
use garam_agent_operator.Map.Laws.{get-put, get_or-put}
use garam_agent_operator.Map.Entries.{
  count-put_new, count-put_old, last_value-holds, last_value-none,
}
use garam_agent_operator.Map.Keyed.{IsKeyed, IsKeyed-put, get-last_value}
use garam_agent_operator.Definition.Types.{Placement, PlacementInput}
use garam_agent_operator.Repository.Placements.{is_current, placement_of, supersede}

abbrev pub pod : Placement → String
pod p = p.request.pod_uid

-- Of one agent's placements.
pub record IsSingle (stored : Map String Placement) : Type 0 where
  pub keyed : IsKeyed pod stored
  pub once : count is_current stored ≤ 1

abbrev pub Inv : Map String (Map String Placement) → Type 0
Inv placements = (agent : String) → IsSingle (get_or [] agent placements)

-- Nothing is current once the current placement is superseded.
pub supersede-IsSingle :
    (stored : Map String Placement)
    → IsSingle stored
    → IsKeyed pod (supersede (last_value is_current stored) stored)
      × (count is_current (supersede (last_value is_current stored) stored) ≡ 0)
supersede-IsSingle stored v = elim (Option-cases (last_value is_current stored)) [
  | inl e ↦ rw e (v.keyed, last_value-none is_current stored e)
  | inr (current, e) ↦
      let ended : Placement = record current { superseded = true } in
      let found = get-last_value pod is_current stored current v.keyed e in
      rw e (
        IsKeyed-put pod (pod current) ended stored v.keyed refl,
        ground (
          arith,
          v.once,
          last_value-holds is_current stored current e,
          count-put_old is_current (pod current) ended current stored found,
        ),
      )
]

pub get-supersede :
    (stored : Map String Placement) (uid : String)
    → get uid stored ≡ none
    → IsSingle stored
    → get uid (supersede (last_value is_current stored) stored) ≡ none
get-supersede stored uid n v = elim (Option-cases (last_value is_current stored)) [
  | inl e ↦ rw e n
  | inr (current, e) ↦
      let ended : Placement = record current { superseded = true } in
      let found = get-last_value pod is_current stored current v.keyed e in
      rw e (ground (arith, get-put (pod current) uid ended stored, eq_iff (pod current) uid))
]

pub registered-IsSingle :
    (input : PlacementInput) (stored : Map String Placement)
    → IsSingle stored
    → get input.request.pod_uid stored ≡ none
    → IsSingle (
        put input.request.pod_uid
          (placement_of input)
          (supersede (last_value is_current stored) stored))
registered-IsSingle input stored v n =
    let ended = supersede (last_value is_current stored) stored in
    let (keyed, none_current) = supersede-IsSingle stored v in
    record {
      keyed = IsKeyed-put pod input.request.pod_uid (placement_of input) ended keyed refl;
      once = omega (
        arith,
        none_current,
        count-put_new is_current input.request.pod_uid (placement_of input) ended
            (get-supersede stored input.request.pod_uid n v),
      );
    }

pub Inv-put :
    (agent : String) (stored : Map String Placement)
    (placements : Map String (Map String Placement))
    → Inv placements
    → IsSingle stored
    → Inv (put agent stored placements)
Inv-put agent stored placements v w other =
    subst IsSingle (sym (get_or-put [] agent other stored placements))
      (elim (Bool-cases (agent == other)) [ inl hit ↦ rw hit w | inr miss ↦ rw miss (v other) ])

pub get-registered :
    (input : PlacementInput) (stored : Map String Placement) (uid : String) (p : Placement)
    → IsSingle stored
    → get input.request.pod_uid stored ≡ none
    → get uid stored ≡ some p
    → p.superseded ≡ true
    → get uid (
        put input.request.pod_uid
          (placement_of input)
          (supersede (last_value is_current stored) stored))
      ≡ some p
get-registered input stored uid p v n g t = elim (Option-cases (last_value is_current stored)) [
  | inl e ↦ rw e (
      ground (
        arith,
        get-put input.request.pod_uid uid (placement_of input) stored,
        eq_iff input.request.pod_uid uid,
      ))
  | inr (current, e) ↦
      let ended : Placement = record current { superseded = true } in
      let found = get-last_value pod is_current stored current v.keyed e in
      rw e (
        ground (
          arith,
          eq_iff input.request.pod_uid uid,
          eq_iff (pod current) uid,
          get-put input.request.pod_uid uid (placement_of input) (put (pod current) ended stored),
          get-put (pod current) uid ended stored,
          last_value-holds is_current stored current e,
        ))
]
