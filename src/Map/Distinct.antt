-- ===== src/Map/Distinct.antt =====
-- Maps with one entry for each key, where every entry that a loop meets is what a lookup finds.
use garam_agent_operator.Prelude.{◌≡◌, refl, none, some, [], ◌∷◌, Eq, arith, beq_refl}
use garam_agent_operator.Map.{Map, get, put}
use garam_agent_operator.Map.Laws.{get-put}
use garam_agent_operator.Map.Entries.{Entries}

module _ {K V : Type 0} where
  pub Entries-map {κ μ} :
      (P : K → V → Type κ) (Q : K → V → Type μ) (m : Map K V)
      → ((k : K) (v : V) → P k v → Q k v)
      → Entries P m
      → Entries Q m
  Entries-map P Q [] f h = tt
  Entries-map P Q ((k, v) ∷ m) f h = (f k v h.0, Entries-map P Q m f h.1)

  pub Entries-and {κ μ} :
      (P : K → V → Type κ) (Q : K → V → Type μ) (m : Map K V)
      → Entries P m
      → Entries Q m
      → Entries (λ k v. P k v × Q k v) m
  Entries-and P Q [] h g = tt
  Entries-and P Q ((k, v) ∷ m) h g = ((h.0, g.0), Entries-and P Q m h.1 g.1)

module _ {K V : Type 0} ⦃e : Eq K⦄ where
  abbrev pub IsDistinct : Map K V → Type 0
  IsDistinct [] = Unit {0}
  IsDistinct ((k, v) ∷ m) = (get k m ≡ none) × IsDistinct m

  pub IsDistinct-put : (k : K) (v : V) (m : Map K V) → IsDistinct m → IsDistinct (put k v m)
  unfolding get put
  IsDistinct-put k v [] h = (refl, tt)
  IsDistinct-put k v ((j, w) ∷ m) h =
      ground (arith, e.equal_iff k j, e.equal_iff j k, get-put k j v m, IsDistinct-put k v m h.1)

  -- Every entry is what a lookup of its key finds.
  pub Entries-get_self : (m : Map K V) → IsDistinct m → Entries (λ k v. get k m ≡ some v) m
  unfolding get
  Entries-get_self [] h = tt
  Entries-get_self ((k, v) ∷ m) h = (
    rw (beq_refl k),
    Entries-map (λ j w. get j m ≡ some w) (λ j w. get j ((k, v) ∷ m) ≡ some w) m
        (λ j w g. ground (arith, e.equal_iff k j)) (Entries-get_self m h.1),
  )
