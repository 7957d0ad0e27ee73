-- ===== src/Service/Status.antt =====
-- internal/definition/status.go and operator.go.
use garam_agent_operator.Prelude.{
  ℕ, String, Bool, true, false, not, ◌&&◌, ◌||◌, Option, none, some, List, [], ◌∷◌, ◌==◌, string_eq,
  ℕ_eq, ltb, leb, if◌then◌else◌, length,
}
use garam_agent_operator.Exec.{Exec, raise, ◌>>=◌}
use garam_agent_operator.Definition.Errors.{Error}
use garam_agent_operator.Repository.{Memory}
use garam_agent_operator.Definition.Types.{Status, OperatorImage}
use garam_agent_operator.Repository.Revisions.{get_definition}
use garam_agent_operator.Repository.Statuses
use garam_agent_operator.Text.{codes}
use garam_agent_operator.Repository.Operators

-- `maxOperatorImages`
abbrev pub max_operator_images : ℕ
max_operator_images = 16

is_lower_hex : List ℕ → Bool
is_lower_hex [] = true
is_lower_hex (c ∷ s) = ((leb b'0' c && leb c b'9') || (leb b'a' c && leb c b'f')) && is_lower_hex s

-- The pattern `imageDigest`: ^sha256:[0-9a-f]{64}$
unfoldable pub is_image_digest : List ℕ → Bool
unfolding is_lower_hex
is_image_digest (s ∷ h ∷ a ∷ two ∷ five ∷ six ∷ colon ∷ digits) =
    s == b's'
    && h == b'h'
    && a == b'a'
    && two == b'2'
    && five == b'5'
    && six == b'6'
    && colon == b':'
    && length digits == 64
    && is_lower_hex digits
is_image_digest _ = false

abbrev pub has_digest_form : Option String → Bool
has_digest_form none = true
has_digest_form (some digest) = is_image_digest (codes digest)

abbrev pub contains : String → List String → Bool
contains name [] = false
contains name (n ∷ names) = n == name || contains name names

-- The loop over a report's images, with the names of those before.
unfoldable pub check_images : List String → List OperatorImage → Bool
unfolding is_image_digest
check_images names [] = true
check_images names (image ∷ rest) =
    not (
      image.name == ""
      || image.ref == ""
      || contains image.name names
      || not (has_digest_form image.digest))
    && check_images (image.name ∷ names) rest

module _ {S : Type 0} where
  unfoldable pub record_status : String → ℕ → ℕ → Exec (Memory S) Status
  record_status agent observed rendered = do
    latest ← get_definition agent
    if (ltb observed 1 || ltb latest.revision observed)
          || (ltb rendered 1 || ltb latest.revision rendered)
        then raise Error.invalid_status
        else Statuses.record_status agent
            (record { observed = observed; rendered = rendered; applied = none })

  unfoldable pub report_operator_images :
      String → String → List OperatorImage → ℕ → Exec (Memory S) (Unit {0})
  unfolding check_images
  report_operator_images org_grn operator images at =
      if length images == 0 || ltb max_operator_images (length images)
      then raise Error.invalid_images
      else if not (check_images [] images)
      then raise Error.invalid_images
      else Operators.report_operator_images org_grn operator images at
