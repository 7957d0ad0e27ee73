-- ===== src/Map/Keyed.antt =====
-- Maps that hold each value under its own key, once.
use garam_agent_operator.Prelude.{◌≡◌, refl, Bool, none, some, [], ◌∷◌, Eq, arith}
use garam_agent_operator.Map.{Map, get, put, find_value, last_value}
use garam_agent_operator.Map.Laws.{get-put}

module _ {K V : Type 0} ⦃e : Eq K⦄ where
  abbrev pub IsKeyed : (V → K) → Map K V → Type 0
  IsKeyed key [] = Unit {0}
  IsKeyed key ((k, v) ∷ m) = (key v ≡ k) × (get k m ≡ none) × IsKeyed key m

  pub get_key :
      (key : V → K) (k : K) (v : V) (m : Map K V) → IsKeyed key m → get k m ≡ some v → key v ≡ k
  unfolding get
  get_key key k v [] h f = ground arith
  get_key key k v ((j, w) ∷ m) h f = ground (arith, e.equal_iff j k, get_key key k v m h.2)

  pub IsKeyed-put :
      (key : V → K) (k : K) (v : V) (m : Map K V)
      → IsKeyed key m
      → key v ≡ k
      → IsKeyed key (put k v m)
  unfolding get put
  IsKeyed-put key k v [] h f = (f, refl, tt)
  IsKeyed-put key k v ((j, w) ∷ m) h f =
      ground (arith, e.equal_iff j k, e.equal_iff k j, get-put k j v m, IsKeyed-put key k v m h.2 f)

  -- What a loop finds is what a lookup of its key finds.
  pub get-find_value :
      (key : V → K) (p : V → Bool) (m : Map K V) (v : V)
      → IsKeyed key m
      → find_value p m ≡ some v
      → get (key v) m ≡ some v
  unfolding get find_value
  get-find_value key p [] v h f = ground arith
  get-find_value key p ((k, w) ∷ m) v h f =
      ground (arith, e.equal_iff k (key v), get-find_value key p m v h.2)

  pub get-last_value :
      (key : V → K) (p : V → Bool) (m : Map K V) (v : V)
      → IsKeyed key m
      → last_value p m ≡ some v
      → get (key v) m ≡ some v
  unfolding get last_value
  get-last_value key p [] v h f = ground arith
  get-last_value key p ((k, w) ∷ m) v h f =
      ground (arith, e.equal_iff k (key v), get-last_value key p m v h.2)
