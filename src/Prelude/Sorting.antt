-- ===== src/Prelude/Sorting.antt =====
-- What is kept when a list is sorted or cut short.
use Prim.Native.Nat.{ℕ, zero, suc, ◌≤◌, ◌<◌}
use mathlib.Core.Path.{◌≡◌, refl, ap}
use mathlib.Core.Logic.{◌⊎◌, inl, inr}
use mathlib.Core.Bool.{Bool}
use garam_agent_operator.Prelude.Tests.{Bool-cases}
use mathlib.Core.List.{List, [], ◌∷◌}
use native.Mathlib.Omega.{arith}
use garam_agent_operator.Prelude.Lists.{length, take, insert_by, sort_by, All}

module _ {ℓ} {A : Type ℓ} where
  -- An element has the property.
  abbrev pub Has : (A → Type 0) → List A → Type 0
  Has P [] = ⊥
  Has P (x ∷ xs) = P x ⊎ Has P xs

  pub Has-insert_by :
      (P : A → Type 0) (before : A → A → Bool) (x : A) (xs : List A)
      → P x ⊎ Has P xs
      → Has P (insert_by before x xs)
  Has-insert_by P before x [] h = h
  Has-insert_by P before x (y ∷ ys) h = elim (Bool-cases (before y x)) [
    | inl past ↦ rw past (elim h [
      | inl px ↦ inr (Has-insert_by P before x ys (inl px))
      | inr rest ↦ elim rest [
        | inl py ↦ inl py
        | inr more ↦ inr (Has-insert_by P before x ys (inr more))
      ]
    ])
    | inr here ↦ rw here h
  ]

  pub Has-sort_by :
      (P : A → Type 0) (before : A → A → Bool) (xs : List A) → Has P xs → Has P (sort_by before xs)
  Has-sort_by P before [] h = absurd h
  Has-sort_by P before (x ∷ xs) (inl px) = Has-insert_by P before x (sort_by before xs) (inl px)
  Has-sort_by P before (x ∷ xs) (inr h) =
      Has-insert_by P before x (sort_by before xs) (inr (Has-sort_by P before xs h))

  pub All-insert_by {κ} :
      (P : A → Type κ) (before : A → A → Bool) (x : A) (xs : List A)
      → P x
      → All P xs
      → All P (insert_by before x xs)
  All-insert_by P before x [] p h = (p, tt)
  All-insert_by P before x (y ∷ ys) p h = elim (Bool-cases (before y x)) [
    | inl past ↦ rw past (h.0, All-insert_by P before x ys p h.1)
    | inr here ↦ rw here (p, h)
  ]

  pub All-sort_by {κ} :
      (P : A → Type κ) (before : A → A → Bool) (xs : List A) → All P xs → All P (sort_by before xs)
  All-sort_by P before [] h = tt
  All-sort_by P before (x ∷ xs) h =
      All-insert_by P before x (sort_by before xs) h.0 (All-sort_by P before xs h.1)

  pub All-take {κ} : (P : A → Type κ) (n : ℕ) (xs : List A) → All P xs → All P (take n xs)
  All-take P zero xs h = tt
  All-take P (suc n) [] h = tt
  All-take P (suc n) (x ∷ xs) h = (h.0, All-take P n xs h.1)

  -- A list that is cut short has the whole number of elements.
  pub take_of_length-lt : (n : ℕ) (xs : List A) → length (take n xs) < n → take n xs ≡ xs
  take_of_length-lt zero xs h = absurd (omega arith)
  take_of_length-lt (suc n) [] h = refl
  take_of_length-lt (suc n) (x ∷ xs) h = ap (◌∷◌ x) (take_of_length-lt n xs (omega arith))

  pub length-take-le : (n : ℕ) (xs : List A) → length (take n xs) ≤ n
  length-take-le zero xs = omega arith
  length-take-le (suc n) [] = omega arith
  length-take-le (suc n) (x ∷ xs) = omega (arith, length-take-le n xs)
