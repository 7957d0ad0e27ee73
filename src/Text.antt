-- ===== src/Text.antt =====
-- What the program takes from Go's packages strings, strconv and regexp, of ASCII texts.
use garam_agent_operator.Prelude.{
  ℕ, ◌+◌, String, Bool, true, false, ◌&&◌, ◌||◌, Option, none, some, List, [], ◌∷◌, ◌==◌, ℕ_eq, leb,
  if◌then◌else◌,
}
use Prim.Native.Char.{code}
use garam_agent_operator.Definition.Errors.{ok, err, panic}
use garam_agent_operator.Definition.Revision.{all_digits, parse_int}

-- The bytes of an ASCII text.
abbrev pub codes : String → List ℕ
codes String.[] = []
codes (String.◌∷◌ c s) = code c ∷ codes s

abbrev pub every : (ℕ → Bool) → List ℕ → Bool
every p [] = true
every p (c ∷ s) = p c && every p s

-- [0-9a-f]
abbrev pub is_hex : ℕ → Bool
is_hex c = (leb b'0' c && leb c b'9') || (leb b'a' c && leb c b'f')

-- `strings.CutPrefix`
abbrev pub cut_prefix : String → String → Option String
cut_prefix String.[] s = some s
cut_prefix (String.◌∷◌ c p) String.[] = none
cut_prefix (String.◌∷◌ c p) (String.◌∷◌ d s) = if code c == code d then cut_prefix p s else none

-- `strings.Cut` at one byte: the text before its first occurrence and the text after it.
abbrev pub cut : ℕ → String → Option (String × String)
cut at String.[] = none
cut at (String.◌∷◌ c s) =
    if code c == at
    then some (String.[], s)
    else elim (cut at s) [ none ↦ none | some (before, rest) ↦ some (String.◌∷◌ c before, rest) ]

abbrev pub lower : ℕ → ℕ
lower c = if leb b'A' c && leb c b'Z' then c + 32 else c

abbrev pub folds_to : List ℕ → List ℕ → Bool
folds_to [] [] = true
folds_to (c ∷ s) (d ∷ t) = lower c == d && folds_to s t
folds_to _ _ = false

-- `strings.EqualFold(s, "Bearer")`: no letter of it folds to one outside ASCII.
unfoldable pub is_bearer : String → Bool
is_bearer s = folds_to (codes s) (codes "bearer")

-- `unicode.IsSpace`
abbrev pub is_space : ℕ → Bool
is_space c = (leb 9 c && leb c 13) || c == b' '

abbrev pub trim_left : List ℕ → List ℕ
trim_left [] = []
trim_left (c ∷ s) = let rest = trim_left s in if is_space c then rest else c ∷ s

abbrev pub trim_right : List ℕ → List ℕ
trim_right [] = []
trim_right (c ∷ s) = elim (trim_right s) [
  | [] ↦ if is_space c then [] else c ∷ []
  | d ∷ rest ↦ c ∷ d ∷ rest
]

abbrev pub digits_value : List ℕ → Option ℕ
digits_value [] = none
digits_value (d ∷ rest) =
    if all_digits (d ∷ rest)
    then elim (parse_int (d ∷ rest)) [ ok n ↦ some n | err e ↦ none | panic ↦ none ]
    else none

-- `strconv.Atoi`, with `none` for an error and for a negative number.
unfoldable pub atoi : List ℕ → Option ℕ
unfolding all_digits parse_int
atoi [] = none
atoi (c ∷ s) =
    if c == b'+'
    then digits_value s
    else if c == b'-'
    then elim (digits_value s) [ none ↦ none | some n ↦ if n == 0 then some 0 else none ]
    else digits_value (c ∷ s)

-- `s == t`, of bytes.
abbrev pub same_bytes : List ℕ → List ℕ → Bool
same_bytes [] [] = true
same_bytes (c ∷ s) (d ∷ t) = c == d && same_bytes s t
same_bytes _ _ = false
