-- ===== src/Map/Entries.antt =====
-- What a loop over a map meets, before and after a write.
use garam_agent_operator.Prelude.{
  ℕ, ◌+◌, ◌≤◌, ◌≡◌, refl, sym, subst, Bool, true, false, none, some, [], ◌∷◌, Eq, ◌==◌, Bool-cases,
  inl, inr, arith,
}
use garam_agent_operator.Map.{Map, get, put, find_value, last_value, count}

-- 1 for a value with the property, else 0.
abbrev pub one_if : Bool → ℕ
one_if true = 1
one_if false = 0

-- `P` holds of every entry.
abbrev pub Entries {κ} : {K V : Type 0} → (K → V → Type κ) → Map K V → Type κ
Entries P [] = Unit
Entries P ((k, v) ∷ m) = P k v × Entries P m

module _ {K V : Type 0} where
  pub find_value-holds : (p : V → Bool) (m : Map K V) (v : V) → find_value p m ≡ some v → p v ≡ true
  unfolding find_value
  find_value-holds p [] v h = ground arith
  find_value-holds p ((k, w) ∷ m) v h = ground (arith, find_value-holds p m v)

  pub find_value-none : (p : V → Bool) (m : Map K V) → find_value p m ≡ none → count p m ≡ 0
  unfolding find_value count
  find_value-none p [] h = refl
  find_value-none p ((k, w) ∷ m) h = ground (arith, find_value-none p m)

  pub find_value_of_none : (p : V → Bool) (m : Map K V) → count p m ≡ 0 → find_value p m ≡ none
  unfolding find_value count
  find_value_of_none p [] h = refl
  find_value_of_none p ((k, w) ∷ m) h = ground (arith, find_value_of_none p m)

  pub last_value-holds : (p : V → Bool) (m : Map K V) (v : V) → last_value p m ≡ some v → p v ≡ true
  unfolding last_value
  last_value-holds p [] v h = ground arith
  last_value-holds p ((k, w) ∷ m) v h = ground (arith, last_value-holds p m v)

  pub last_value-none : (p : V → Bool) (m : Map K V) → last_value p m ≡ none → count p m ≡ 0
  unfolding last_value count
  last_value-none p [] h = refl
  last_value-none p ((k, w) ∷ m) h = ground (arith, last_value-none p m)

  pub last_value_of_none : (p : V → Bool) (m : Map K V) → count p m ≡ 0 → last_value p m ≡ none
  unfolding last_value count
  last_value_of_none p [] h = refl
  last_value_of_none p ((k, w) ∷ m) h = ground (arith, last_value_of_none p m)

  -- Where at most one value has the property, the order of the visits does not matter.
  pub last_value-find_value :
      (p : V → Bool) (m : Map K V) → count p m ≤ 1 → last_value p m ≡ find_value p m
  unfolding last_value find_value count
  last_value-find_value p [] h = refl
  last_value-find_value p ((k, w) ∷ m) h =
      ground (arith, last_value-find_value p m, last_value_of_none p m, find_value_of_none p m)

  pub find_value-some :
      (p : V → Bool) (m : Map K V) (v : V) → find_value p m ≡ some v → 1 ≤ count p m
  unfolding find_value count
  find_value-some p [] v h = ground arith
  find_value-some p ((k, w) ∷ m) v h = ground (arith, find_value-some p m v)

  pub Entries-find_value {κ} :
      (P : K → V → Type κ) (p : V → Bool) (m : Map K V) (v : V)
      → Entries P m
      → find_value p m ≡ some v
      → (k : K) × P k v
  unfolding find_value
  Entries-find_value P p [] v h f = ground arith
  Entries-find_value P p ((k, w) ∷ m) v h f = elim (Bool-cases (p w)) [
    | inl hit ↦ let same : w ≡ v = ground arith in (k, subst (P k) same h.0)
    | inr miss ↦ Entries-find_value P p m v h.1 (ground arith)
  ]

module _ {K V : Type 0} ⦃e : Eq K⦄ where
  pub count-put_new :
      (p : V → Bool) (k : K) (v : V) (m : Map K V)
      → get k m ≡ none
      → count p (put k v m) ≡ count p m + one_if (p v)
  unfolding get put count
  count-put_new p k v [] h = ground arith
  count-put_new p k v ((j, w) ∷ m) h = ground (arith, count-put_new p k v m)

  pub count-put_old :
      (p : V → Bool) (k : K) (v w : V) (m : Map K V)
      → get k m ≡ some w
      → count p (put k v m) + one_if (p w) ≡ count p m + one_if (p v)
  unfolding get put count
  count-put_old p k v w [] h = ground arith
  count-put_old p k v w ((j, x) ∷ m) h = ground (arith, count-put_old p k v w m)

  pub count-get :
      (p : V → Bool) (k : K) (v : V) (m : Map K V) → get k m ≡ some v → p v ≡ true → 1 ≤ count p m
  unfolding get count
  count-get p k v [] h t = ground arith
  count-get p k v ((j, x) ∷ m) h t = ground (arith, count-get p k v m)

  -- The only value with the property is the one that a loop finds.
  pub find_value-get :
      (p : V → Bool) (k : K) (v : V) (m : Map K V)
      → get k m ≡ some v
      → p v ≡ true
      → count p m ≤ 1
      → find_value p m ≡ some v
  unfolding get find_value count
  find_value-get p k v [] h t n = ground arith
  find_value-get p k v ((j, w) ∷ m) h t n =
      ground (arith, find_value-get p k v m, count-get p k v m)

  pub Entries-get {κ} :
      (P : K → V → Type κ) (k : K) (v : V) (m : Map K V) → Entries P m → get k m ≡ some v → P k v
  unfolding get
  Entries-get P k v [] h f = ground arith
  Entries-get P k v ((j, w) ∷ m) h f = elim (Bool-cases (j == k)) [
    | inl hit ↦
        let same : w ≡ v = ground arith in
        subst (P k) same (subst (λ i. P i w) ((e.equal_iff j k).0 hit) h.0)
    | inr miss ↦ Entries-get P k v m h.1 (ground arith)
  ]

  pub Entries-put {κ} :
      (P : K → V → Type κ) (k : K) (v : V) (m : Map K V)
      → Entries P m
      → P k v
      → Entries P (put k v m)
  unfolding put
  Entries-put P k v [] h f = (f, tt)
  Entries-put P k v ((j, w) ∷ m) h f = elim (Bool-cases (j == k)) [
    | inl hit ↦ rw hit (subst (λ i. P i v) (sym ((e.equal_iff j k).0 hit)) f, h.1)
    | inr miss ↦ rw miss (h.0, Entries-put P k v m h.1 f)
  ]

  -- A loop after a new entry: it is the last one visited.
  pub find_value-put_new :
      (p : V → Bool) (k : K) (v : V) (m : Map K V)
      → get k m ≡ none
      → find_value p m ≡ none
      → p v ≡ true
      → find_value p (put k v m) ≡ some v
  unfolding get put find_value
  find_value-put_new p k v [] h f t = ground arith
  find_value-put_new p k v ((j, w) ∷ m) h f t = ground (arith, find_value-put_new p k v m)

  -- A loop after a write that it passes over, at a key that is new or whose value it passed over.
  pub find_value-put_skip :
      (p : V → Bool) (k : K) (v : V) (m : Map K V)
      → p v ≡ false
      → ((w : V) → get k m ≡ some w → p w ≡ false)
      → find_value p (put k v m) ≡ find_value p m
  unfolding get put find_value
  find_value-put_skip p k v [] t h = ground arith
  find_value-put_skip p k v ((j, w) ∷ m) t h = elim (Bool-cases (j == k)) [
    | inl hit ↦ ground (arith, h w)
    | inr miss ↦ ground (arith, find_value-put_skip p k v m t (λ x e. h x (rw miss e)))
  ]
