-- ===== src/Map/Laws.antt =====
-- What a lookup finds after a write.
use garam_agent_operator.Prelude.{
  ◌≡◌, refl, ◌≢◌, none, some, Bool, [], ◌∷◌, Eq, ◌==◌, beq_refl, beq_ne, if◌then◌else◌, arith,
}
use garam_agent_operator.Map.{Map, get, get_or, put, retain}

module _ {K V : Type 0} ⦃e : Eq K⦄ where
  pub get-put :
      (k j : K) (v : V) (m : Map K V) → get j (put k v m) ≡ (if k == j then some v else get j m)
  unfolding get put
  get-put k j v [] = refl
  get-put k j v ((i, w) ∷ m) =
      ground (arith, e.equal_iff i k, e.equal_iff k j, e.equal_iff i j, get-put k j v m)

  pub get-put_self : (k : K) (v : V) (m : Map K V) → get k (put k v m) ≡ some v
  get-put_self k v m = rw (get-put k k v m, beq_refl k)

  pub get-put_ne : (k j : K) (v : V) (m : Map K V) → k ≢ j → get j (put k v m) ≡ get j m
  get-put_ne k j v m h = rw (get-put k j v m, beq_ne k j h)

  pub get_or-put :
      (zero_value : V) (k j : K) (v : V) (m : Map K V)
      → get_or zero_value j (put k v m) ≡ (if k == j then v else get_or zero_value j m)
  get_or-put zero_value k j v m = ground (arith, get-put k j v m)

  pub get-retain :
      (p : K → Bool) (k : K) (m : Map K V) → get k (retain p m) ≡ (if p k then get k m else none)
  unfolding get retain
  get-retain p k [] = ground arith
  get-retain p k ((j, v) ∷ m) = ground (arith, get-retain p k m, e.equal_iff j k)
