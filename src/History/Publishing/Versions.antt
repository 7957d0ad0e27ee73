-- ===== src/History/Publishing/Versions.antt =====
-- Lists of published versions, by organization and name: how they grow, and what stands where.
use garam_agent_operator.Prelude.{
  ℕ, zero, suc, ◌+◌, ◌≤◌, ◌≡◌, refl, String, some, List, [], ◌∷◌, ◌++◌, Bool-cases, inl, inr,
  string_eq, ℕ_eq, ◌==◌, arith, subst, sym, length, Extends, Extends-append, Numbered,
  Numbered-append, Numbered-get, All, All-append, All-get, get_elem?_total, length-get,
}
use garam_agent_operator.Definition.Equalities.{request_key_eq}
use garam_agent_operator.Map.{Map, get_or, put}
use garam_agent_operator.Map.Laws.{get_or-put}
use garam_agent_operator.Repository.{Named, named_eq, version_at}

abbrev pub Slices : Type 0 → Type 0
Slices A = Map Named (List A)

abbrev pub at : {A : Type 0} → String → String → Slices A → List A
at org name m = get_or [] (record { org = org; name = name }) m

-- Every list of versions is extended.
abbrev pub Keeps : {A : Type 0} → Slices A → Slices A → Type 0
Keeps m m' = (org name : String) → Extends (at org name m) (at org name m')

pub Keeps-refl : {A : Type 0} (m : Slices A) → Keeps m m
Keeps-refl m org name i x h = h

pub Keeps-append :
    {A : Type 0} (org name : String) (x : A) (m : Slices A)
    → Keeps m (put (record { org = org; name = name }) (at org name m ++ x ∷ []) m)
Keeps-append org name x m org' name' =
    let k : Named = record { org = org; name = name } in
    let k' : Named = record { org = org'; name = name' } in
    subst (Extends (at org' name' m)) (sym (get_or-put [] k k' (at org name m ++ x ∷ []) m))
      (elim (Bool-cases (k == k')) [
        | inl hit ↦
            rw (hit, ← (named_eq.equal_iff k k').0 hit) (Extends-append (at org name m) (x ∷ []))
        | inr miss ↦ rw miss (λ i y h. h)
      ])

-- A version carries its place, from 1, and its name.
abbrev pub IsNumbered : {A : Type 0} → (A → ℕ) → (A → String) → Slices A → Type 0
IsNumbered num name_of m =
    (org name : String)
    → Numbered num 1 (at org name m) × All (λ x. name_of x ≡ name) (at org name m)

pub IsNumbered-append :
    {A : Type 0} (num : A → ℕ) (name_of : A → String) (org : String) (x : A) (m : Slices A)
    → IsNumbered num name_of m
    → num x ≡ length (at org (name_of x) m) + 1
    → IsNumbered num name_of
        (put (record { org = org; name = name_of x }) (at org (name_of x) m ++ x ∷ []) m)
IsNumbered-append num name_of org x m v e org' name' =
    let k : Named = record { org = org; name = name_of x } in
    let k' : Named = record { org = org'; name = name' } in
    let w = at org (name_of x) m in
    subst (λ xs. Numbered num 1 xs × All (λ y. name_of y ≡ name') xs)
      (sym (get_or-put [] k k' (w ++ x ∷ []) m))
      (elim (Bool-cases (k == k')) [
        | inl hit ↦
            let same = (named_eq.equal_iff k k').0 hit in
            let same_name : name_of x ≡ name' = cc same in
            rw hit (
              Numbered-append num 1 w x (v org (name_of x)).0 (omega arith),
              subst (λ (n : String). All (λ y. name_of y ≡ n) (w ++ x ∷ [])) same_name
                  (All-append (λ y. name_of y ≡ name_of x) w x (v org (name_of x)).1 refl),
            )
        | inr miss ↦ rw miss (v org' name')
      ])

pub version_at_bounds :
    {A : Type 0} (xs : List A) (v : ℕ) (x : A)
    → version_at xs v ≡ some x
    → (1 ≤ v) × (v ≤ length xs)
version_at_bounds xs zero x h = ground arith
version_at_bounds xs (suc i) x h = (omega arith, omega (arith, length-get xs i x h))

pub version_at_total :
    {A : Type 0} (xs : List A) (v : ℕ)
    → 1 ≤ v
    → v ≤ length xs
    → (x : A) × (version_at xs v ≡ some x)
version_at_total xs zero h k = absurd (omega arith)
version_at_total xs (suc i) h k = get_elem?_total xs i (omega arith)

pub version_at-Extends :
    {A : Type 0} (xs ys : List A) (v : ℕ) (x : A)
    → Extends xs ys
    → version_at xs v ≡ some x
    → version_at ys v ≡ some x
version_at-Extends xs ys zero x f h = ground arith
version_at-Extends xs ys (suc i) x f h = f i x h

pub version_at-Numbered :
    {A : Type 0} (num : A → ℕ) (xs : List A) (v : ℕ) (x : A)
    → Numbered num 1 xs
    → version_at xs v ≡ some x
    → num x ≡ v
version_at-Numbered num xs zero x n h = ground arith
version_at-Numbered num xs (suc i) x n h = omega (arith, Numbered-get num 1 xs i x n h)

pub version_at-All :
    {A : Type 0} (P : A → Type 0) (xs : List A) (v : ℕ) (x : A)
    → All P xs
    → version_at xs v ≡ some x
    → P x
version_at-All P xs zero x n h = absurd (ground arith)
version_at-All P xs (suc i) x n h = All-get P xs i x n h
