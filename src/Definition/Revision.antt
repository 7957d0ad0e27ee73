-- ===== src/Definition/Revision.antt =====
-- `Revision.String` and `ParseRevision` of internal/definition/definition.go, with what they take
-- from Go's strconv: decimal digits most significant first, and a value no greater than an `int64`
-- holds. A text is its list of bytes.
pub mod RoundTrip
use garam_agent_operator.Prelude.{
  ℕ, zero, suc, ◌+◌, ◌-◌, ◌*◌, ◌/◌, ◌%◌, Bool, true, false, not, ◌&&◌, ◌||◌, List, [], ◌∷◌,
  if◌then◌else◌, ltb, leb, nat_eq, max_int64,
}
use garam_agent_operator.Definition.Errors.{Error, Result, ok, err}

-- One digit for each round, the least significant first, put in front of those found before.
to_digits : ℕ → ℕ → List ℕ → List ℕ
to_digits zero n rest = rest
to_digits (suc fuel) n rest =
    let more = to_digits fuel (n / 10) ((b'0' + n % 10) ∷ rest) in
    if ltb n 10 then (b'0' + n) ∷ rest else more

-- `Revision.String`: each round divides by ten, so `n` rounds and one more are enough.
unfoldable pub revision_string : ℕ → List ℕ
unfolding to_digits
revision_string n = to_digits (suc n) n []

abbrev pub is_digit : ℕ → Bool
is_digit c = leb b'0' c && leb c b'9'

-- `strings.TrimLeft(s, "0123456789") == ""`
unfoldable pub all_digits : List ℕ → Bool
all_digits [] = true
all_digits (c ∷ s) = is_digit c && all_digits s

-- The value that `strconv.ParseInt` reads from digits, after those that `value` stands for.
abbrev pub read_digits : ℕ → List ℕ → ℕ
read_digits value [] = value
read_digits value (c ∷ s) = read_digits (value * 10 + (c - b'0')) s

-- `strconv.ParseInt` of digits: the value, or an error where an `int64` cannot hold it.
unfoldable pub parse_int : List ℕ → Result ℕ
parse_int s =
    let n = read_digits 0 s in if leb n max_int64 then ok n else err Error.invalid_revision

unfoldable pub parse_revision : List ℕ → Result ℕ
unfolding all_digits parse_int
parse_revision [] = err Error.invalid_revision
parse_revision (c ∷ s) =
    if nat_eq c b'0' || not (all_digits (c ∷ s))
    then err Error.invalid_revision
    else parse_int (c ∷ s)
