-- ===== src/Prelude/Lists.antt =====
-- Lists with native lengths and indices.
use Prim.Native.Nat.{ℕ, zero, suc, ◌+◌, ◌≤◌, ◌<◌}
use mathlib.Core.Path.{◌≡◌, refl, ap, subst}
use mathlib.Core.Logic.{◌⊎◌, inl, inr}
use mathlib.Core.Bool.{Bool, true}
use garam_agent_operator.Prelude.Tests.{if◌then◌else◌}
use mathlib.Core.List.{List, [], ◌∷◌, ◌++◌}
use mathlib.Core.Option.{Option, none, some}
use native.Mathlib.Omega.{arith}

module _ {ℓ} {A : Type ℓ} where
  abbrev pub length : List A → ℕ
  length [] = 0
  length (x ∷ xs) = suc (length xs)

  abbrev pub get_elem? : List A → ℕ → Option A
  get_elem? [] i = none
  get_elem? (x ∷ xs) zero = some x
  get_elem? (x ∷ xs) (suc i) = get_elem? xs i

  -- The last element of a slice.
  abbrev pub last? : List A → Option A
  last? [] = none
  last? (x ∷ []) = some x
  last? (x ∷ y ∷ xs) = last? (y ∷ xs)

  abbrev pub take : ℕ → List A → List A
  take zero xs = []
  take (suc n) [] = []
  take (suc n) (x ∷ xs) = x ∷ take n xs

  -- A write out of bounds changes nothing.
  abbrev pub set : List A → ℕ → A → List A
  set [] i v = []
  set (x ∷ xs) zero v = v ∷ xs
  set (x ∷ xs) (suc i) v = x ∷ set xs i v

  -- `slices.IndexFunc`, with `none` for -1.
  abbrev pub index_of : (A → Bool) → List A → Option ℕ
  index_of p [] = none
  index_of p (x ∷ xs) =
      if p x then some 0 else elim (index_of p xs) [ none ↦ none | some i ↦ some (suc i) ]

  -- The first element with the property.
  abbrev pub find : (A → Bool) → List A → Option A
  find p [] = none
  find p (x ∷ xs) = if p x then some x else find p xs

  -- `slices.SortFunc` on elements of which no two compare equal: `before` is the order.
  abbrev pub insert_by : (A → A → Bool) → A → List A → List A
  insert_by before x [] = x ∷ []
  insert_by before x (y ∷ ys) = if before y x then y ∷ insert_by before x ys else x ∷ y ∷ ys

  abbrev pub sort_by : (A → A → Bool) → List A → List A
  sort_by before [] = []
  sort_by before (x ∷ xs) = insert_by before x (sort_by before xs)

  pub length-append : (xs ys : List A) → length (xs ++ ys) ≡ length xs + length ys
  length-append [] ys = omega arith
  length-append (x ∷ xs) ys = omega (arith, length-append xs ys)

  pub get_elem?-append :
      (xs ys : List A) (i : ℕ) → i < length xs → get_elem? (xs ++ ys) i ≡ get_elem? xs i
  get_elem?-append [] ys i h = elim h [ ]
  get_elem?-append (x ∷ xs) ys zero h = refl
  get_elem?-append (x ∷ xs) ys (suc i) h = get_elem?-append xs ys i (omega arith)

  pub get_elem?-append_last : (xs : List A) (y : A) → get_elem? (xs ++ y ∷ []) (length xs) ≡ some y
  get_elem?-append_last [] y = refl
  get_elem?-append_last (x ∷ xs) y = get_elem?-append_last xs y

  pub last?-append : (xs : List A) (y : A) → last? (xs ++ y ∷ []) ≡ some y
  last?-append [] y = refl
  last?-append (x ∷ []) y = refl
  last?-append (x ∷ x' ∷ xs) y = last?-append (x' ∷ xs) y

  -- An element stands at every index below the length.
  pub get_elem?_total : (xs : List A) (i : ℕ) → i < length xs → (x : A) × (get_elem? xs i ≡ some x)
  get_elem?_total [] i h = elim h [ ]
  get_elem?_total (x ∷ xs) zero h = (x, refl)
  get_elem?_total (x ∷ xs) (suc i) h = get_elem?_total xs i (omega arith)

  abbrev pub All {κ} : (A → Type κ) → List A → Type κ
  All P [] = Unit
  All P (x ∷ xs) = P x × All P xs

  -- The later list has at each index of the earlier what the earlier has.
  abbrev pub Extends : List A → List A → Type ℓ
  Extends xs ys = (i : ℕ) (x : A) → get_elem? xs i ≡ some x → get_elem? ys i ≡ some x

  pub Extends-append : (xs ys : List A) → Extends xs (xs ++ ys)
  Extends-append [] ys i x h = ground arith
  Extends-append (x ∷ xs) ys zero y h = h
  Extends-append (x ∷ xs) ys (suc i) y h = Extends-append xs ys i y h

  -- The elements carry the numbers from `n` on, one after the other.
  abbrev pub Numbered : (A → ℕ) → ℕ → List A → Type 0
  Numbered num n [] = Unit {0}
  Numbered num n (x ∷ xs) = (num x ≡ n) × Numbered num (suc n) xs

  pub Numbered-append :
      (num : A → ℕ) (n : ℕ) (xs : List A) (x : A)
      → Numbered num n xs
      → num x ≡ n + length xs
      → Numbered num n (xs ++ x ∷ [])
  Numbered-append num n [] x h e = (omega arith, tt)
  Numbered-append num n (y ∷ xs) x h e = (h.0, Numbered-append num (suc n) xs x h.1 (omega arith))

  pub Numbered-get :
      (num : A → ℕ) (n : ℕ) (xs : List A) (i : ℕ) (x : A)
      → Numbered num n xs
      → get_elem? xs i ≡ some x
      → num x ≡ n + i
  Numbered-get num n [] i x h e = ground arith
  Numbered-get num n (y ∷ xs) zero x h e = ground arith
  Numbered-get num n (y ∷ xs) (suc i) x h e = omega (arith, Numbered-get num (suc n) xs i x h.1 e)

  pub All-append {κ} :
      (P : A → Type κ) (xs : List A) (x : A) → All P xs → P x → All P (xs ++ x ∷ [])
  All-append P [] x h p = (p, tt)
  All-append P (y ∷ xs) x h p = (h.0, All-append P xs x h.1 p)

  pub All-get {κ} :
      (P : A → Type κ) (xs : List A) (i : ℕ) (x : A) → All P xs → get_elem? xs i ≡ some x → P x
  All-get P [] i x h e = ground arith
  All-get P (y ∷ xs) zero x h e = let same : y ≡ x = ground arith in subst P same h.0
  All-get P (y ∷ xs) (suc i) x h e = All-get P xs i x h.1 e

  pub length-get : (xs : List A) (i : ℕ) (x : A) → get_elem? xs i ≡ some x → i < length xs
  length-get [] i x e = ground arith
  length-get (y ∷ xs) zero x e = omega arith
  length-get (y ∷ xs) (suc i) x e = omega (arith, length-get xs i x e)

  pub Extends-length : (xs ys : List A) → Extends xs ys → length xs ≤ length ys
  Extends-length [] ys f = omega arith
  Extends-length (x ∷ xs) ys f =
      let (y, e) = get_elem?_total (x ∷ xs) (length xs) (omega arith) in
      length-get ys (length xs) y (f (length xs) y e)

  -- To split on a computed list and keep the equation.
  pub List-cases : (xs : List A) → (xs ≡ []) ⊎ ((y : A) × (ys : List A) × (xs ≡ y ∷ ys))
  List-cases [] = inl refl
  List-cases (x ∷ xs) = inr (x, xs, refl)

  pub last?_total : (xs : List A) → 1 ≤ length xs → (x : A) × (last? xs ≡ some x)
  last?_total [] h = absurd (omega arith)
  last?_total (x ∷ []) h = (x, refl)
  last?_total (x ∷ y ∷ xs) h = last?_total (y ∷ xs) (omega arith)

  pub All-last {κ} : (P : A → Type κ) (xs : List A) (x : A) → All P xs → last? xs ≡ some x → P x
  All-last P [] x h e = absurd (ground arith)
  All-last P (y ∷ []) x h e = let same : y ≡ x = ground arith in subst P same h.0
  All-last P (y ∷ z ∷ xs) x h e = All-last P (z ∷ xs) x h.1 e

  pub Numbered-last :
      (num : A → ℕ) (n : ℕ) (xs : List A) (x : A)
      → Numbered num n xs
      → last? xs ≡ some x
      → num x + 1 ≡ n + length xs
  Numbered-last num n [] x h e = absurd (ground arith)
  Numbered-last num n (y ∷ []) x h e =
      let same : y ≡ x = ground arith in omega (arith, ap num same, h.0)
  Numbered-last num n (y ∷ z ∷ xs) x h e = omega (arith, Numbered-last num (suc n) (z ∷ xs) x h.1 e)

  pub find-holds : (p : A → Bool) (xs : List A) (x : A) → find p xs ≡ some x → p x ≡ true
  find-holds p [] x h = ground arith
  find-holds p (y ∷ xs) x h = ground (arith, find-holds p xs x)
