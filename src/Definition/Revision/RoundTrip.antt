-- ===== src/Definition/Revision/RoundTrip.antt =====
-- The decimal text of a revision is read back as that revision, and is the only text that is.
use garam_agent_operator.Prelude.{
  ℕ, zero, suc, ◌+◌, ◌-◌, ◌*◌, ◌/◌, ◌%◌, ◌≤◌, ◌<◌, ◌≡◌, refl, sym, ◌∙◌, ap, true, false, List, [],
  ◌∷◌, Bool-cases, inl, inr, ltb, nat_eq, max_int64, arith,
}
use garam_agent_operator.Definition.Errors.{ok}
use garam_agent_operator.Definition.Revision.{
  to_digits, revision_string, is_digit, all_digits, read_digits, parse_revision,
}

read_digits-to_digits :
    (fuel n : ℕ) (rest : List ℕ)
    → n < fuel
    → read_digits 0 (to_digits fuel n rest) ≡ read_digits n rest
unfolding to_digits
read_digits-to_digits zero n rest h = elim h [ ]
read_digits-to_digits (suc fuel) n rest h = elim (Bool-cases (ltb n 10)) [
  | inl last ↦ rw last (ap (λ v. read_digits v rest) (omega arith))
  | inr more ↦ rw more (
      read_digits-to_digits fuel (n / 10) _ (ground arith)
      ∙ ap (λ v. read_digits v rest) (omega arith))
]

all_digits-to_digits :
    (fuel n : ℕ) (rest : List ℕ)
    → n < fuel
    → all_digits rest ≡ true
    → all_digits (to_digits fuel n rest) ≡ true
unfolding to_digits all_digits
all_digits-to_digits zero n rest h d = elim h [ ]
all_digits-to_digits (suc fuel) n rest h d =
    ground (arith, all_digits-to_digits fuel (n / 10) ((b'0' + n % 10) ∷ rest))

-- The first digit of a positive number is not zero.
abbrev Leading : List ℕ → Type 0
Leading [] = ⊥
Leading (c ∷ s) = nat_eq c b'0' ≡ false

to_digits-Leading :
    (fuel n : ℕ) (rest : List ℕ) → n < fuel → 1 ≤ n → Leading (to_digits fuel n rest)
unfolding to_digits
to_digits-Leading zero n rest h p = elim h [ ]
to_digits-Leading (suc fuel) n rest h p = elim (Bool-cases (ltb n 10)) [
  | inl last ↦ rw last (ground arith)
  | inr more ↦ rw more (to_digits-Leading fuel (n / 10) _ (ground arith) (ground arith))
]

parse_revision-digits :
    (s : List ℕ)
    → Leading s
    → all_digits s ≡ true
    → read_digits 0 s ≤ max_int64
    → parse_revision s ≡ ok (read_digits 0 s)
unfolding parse_revision
parse_revision-digits [] l d h = absurd l
parse_revision-digits (c ∷ s) l d h = ground arith

-- The text of a revision from 1 up to the greatest `int64` is read back as that revision.
pub parse_revision-revision_string :
    (r : ℕ) → 1 ≤ r → r ≤ max_int64 → parse_revision (revision_string r) ≡ ok r
unfolding revision_string all_digits
parse_revision-revision_string r p h =
    let value = read_digits-to_digits (suc r) r [] (omega arith) in
    parse_revision-digits (to_digits (suc r) r []) (to_digits-Leading (suc r) r [] (omega arith) p)
      (all_digits-to_digits (suc r) r [] (omega arith) refl) (omega (arith, value))
    ∙ ap ok value

to_digits_fuel :
    (f g n : ℕ) (rest : List ℕ) → n < f → n < g → to_digits f n rest ≡ to_digits g n rest
unfolding to_digits
to_digits_fuel zero g n rest h k = elim h [ ]
to_digits_fuel (suc f) zero n rest h k = elim k [ ]
to_digits_fuel (suc f) (suc g) n rest h k =
    ground (arith, to_digits_fuel f g (n / 10) ((b'0' + n % 10) ∷ rest))

to_digits_step :
    (f v c : ℕ) (rest : List ℕ)
    → is_digit c ≡ true
    → 1 ≤ v
    → v * 10 + (c - b'0') < suc f
    → to_digits (suc f) (v * 10 + (c - b'0')) rest ≡ to_digits f v (c ∷ rest)
unfolding to_digits
to_digits_step f v c rest d p h =
    let quotient : (v * 10 + (c - b'0')) / 10 ≡ v = ground arith in
    let digit : b'0' + (v * 10 + (c - b'0')) % 10 ≡ c = ground arith in ground arith

-- Printing what was read after `v` prints `v` in front of the digits.
to_digits-read_digits :
    (f g v : ℕ) (s : List ℕ)
    → all_digits s ≡ true
    → 1 ≤ v
    → read_digits v s < f
    → v < g
    → to_digits f (read_digits v s) [] ≡ to_digits g v s
unfolding all_digits
to_digits-read_digits f g v [] d p h k = to_digits_fuel f g v [] h k
to_digits-read_digits f g v (c ∷ s) d p h k =
    let w = v * 10 + (c - b'0') in
    to_digits-read_digits f (suc w) w s (ground arith) (omega arith) h (omega arith)
    ∙ to_digits_step w v c s (ground arith) p (omega arith)
    ∙ to_digits_fuel w g v (c ∷ s) (omega arith) k

read_digits-grows : (v : ℕ) (s : List ℕ) → v ≤ read_digits v s
read_digits-grows v [] = omega arith
read_digits-grows v (c ∷ s) = omega (arith, read_digits-grows (v * 10 + (c - b'0')) s)

-- A text that is read as a revision is that revision's own text: no sign, no leading zero, no other
-- spelling. The revision is from 1 up to the greatest `int64`.
pub revision_string-parse_revision :
    (s : List ℕ) (r : ℕ)
    → parse_revision s ≡ ok r
    → (revision_string r ≡ s) × (1 ≤ r) × (r ≤ max_int64)
unfolding parse_revision revision_string to_digits
revision_string-parse_revision [] r e = ground arith
revision_string-parse_revision (c ∷ s) r e =
    let value : read_digits (c - b'0') s ≡ r = ground arith in
    let positive : 1 ≤ c - b'0' = ground arith in
    let digits : all_digits s ≡ true = ground arith in
    let one_digit : to_digits (suc (c - b'0')) (c - b'0') s ≡ c ∷ s = ground arith in
    (
      ap (λ v. to_digits (suc v) v []) (sym value)
          ∙ to_digits-read_digits (suc (read_digits (c - b'0') s)) (suc (c - b'0')) (c - b'0') s
              digits positive (omega arith) (omega arith)
          ∙ one_digit,
      omega (arith, read_digits-grows (c - b'0') s, value),
      ground arith,
    )
