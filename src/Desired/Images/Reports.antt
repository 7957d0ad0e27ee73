-- ===== src/Desired/Images/Reports.antt =====
-- What the controller reports of its images, and how long it waits between reports.
use garam_agent_operator.Prelude.{
  ℕ, ◌≤◌, ◌≡◌, ◌≢◌, refl, String, true, false, Option-cases, Bool-cases, inl, inr, List, List-cases,
  [], ◌∷◌, All, ◌==◌, ◌!=◌, string_eq, arith, sym, subst,
}
use garam_agent_operator.Service.Status.{has_digest_form, contains, check_images}
use garam_agent_operator.Definition.Types.{OperatorImage}
use garam_agent_operator.Desired.{
  Reply-cases, IsBackoff, next_backoff, next_backoff-bounds, refused_wait,
}
use garam_agent_operator.Desired.Images.{
  after_first, digest_or_none, configured_image, named_images, configured_images, Round, Sent,
  images_of, report,
}

digest_or_none-has_digest_form : (s : String) → has_digest_form (digest_or_none s) ≡ true
digest_or_none-has_digest_form s = ground arith

configured_image-has_digest_form :
    (name ref : String) → has_digest_form (configured_image name ref).digest ≡ true
unfolding configured_image
configured_image-has_digest_form name ref = elim (Option-cases (after_first ref)) [
  | inl e ↦ ground arith
  | inr (pinned, e) ↦ ground (arith, digest_or_none-has_digest_form pinned)
]

configured_image_named :
    (name ref : String)
    → ((configured_image name ref).name ≡ name) × ((configured_image name ref).ref ≡ ref)
unfolding configured_image
configured_image_named name ref = (refl, refl)

-- The names have a text, stand once and are not among those before.
abbrev IsFresh : List String → List (String × String) → Type 0
IsFresh names [] = Unit {0}
IsFresh names ((name, ref) ∷ rest) =
    ((name == "") ≡ false) × (contains name names ≡ false) × IsFresh (name ∷ names) rest

-- The second list has every name of the first.
abbrev IsWithin : List String → List String → Type 0
IsWithin names more = (n : String) → contains n more ≡ false → contains n names ≡ false

IsFresh-within :
    (names more : List String) (pairs : List (String × String))
    → IsWithin names more
    → IsFresh more pairs
    → IsFresh names pairs
IsFresh-within names more [] w h = tt
IsFresh-within names more ((name, ref) ∷ rest) w h = (
  h.0,
  w name h.1,
  IsFresh-within (name ∷ names) (name ∷ more) rest (λ n e. ground (arith, w n)) h.2,
)

named_images-checked :
    (names : List String) (pairs : List (String × String))
    → IsFresh names pairs
    → check_images names (named_images pairs) ≡ true
unfolding check_images
named_images-checked names [] h = refl
named_images-checked names ((name, ref) ∷ rest) h = elim (Bool-cases (ref != "")) [
  | inr unset ↦ rw unset (
      named_images-checked names rest
        (IsFresh-within names (name ∷ names) rest (λ n e. ground arith) h.2))
  | inl set ↦ rw set (
      ground (
        arith,
        h.0,
        h.1,
        configured_image_named name ref,
        configured_image-has_digest_form name ref,
        named_images-checked (name ∷ names) rest h.2,
      ))
]

-- The images that the flags configure are a report that the control service's check takes.
pub configured_images-checked :
    (agent adapter copy workspace : String)
    → check_images [] (configured_images agent adapter copy workspace) ≡ true
unfolding configured_images
configured_images-checked agent adapter copy workspace =
    named_images-checked []
      (("agent", agent) ∷ ("adapter", adapter) ∷ ("copy", copy) ∷ ("workspace", workspace) ∷ [])
      (refl, refl, (refl, refl, (refl, refl, (refl, refl, tt))))

-- The pause after a report is none, five minutes, or from a second to half a minute.
abbrev IsPause : Sent → Type 0
IsPause s = (s.pause ≤ refused_wait) × (s.images ≢ [])

-- Every report sent names an image, and the pause after it is of five minutes at most.
pub report-IsPause :
    (configured : List OperatorImage) (backoff : ℕ) (rounds : List Round)
    → IsBackoff backoff
    → All IsPause (report configured backoff rounds).0
unfolding report
report-IsPause configured backoff [] h = tt
report-IsPause configured backoff (round ∷ rest) h =
    let sent = (report configured backoff (round ∷ rest)).0 in
    elim (List-cases (images_of configured round.own)) [
      | inl e ↦ let is : sent ≡ [] = ground arith in subst (All IsPause) (sym is) tt
      | inr (image, more, e) ↦ elim (Reply-cases round.reply) [
        | inl (u, f) ↦
            let s : Sent = record { images = image ∷ more; pause = 0 } in
            let is : sent ≡ s ∷ [] = ground arith in
            subst (All IsPause) (sym is) ((omega arith, λ k. ground arith), tt)
        | inr (inl (status, kind, f)) ↦
            let s : Sent = record { images = image ∷ more; pause = refused_wait } in
            let is : sent ≡ s ∷ (report configured 0 rest).0 = ground arith in
            subst (All IsPause) (sym is)
              ((omega arith, λ k. ground arith), report-IsPause configured 0 rest (inl refl))
        | inr (inr f) ↦
            let wait = next_backoff backoff in
            let bounds = next_backoff-bounds backoff h in
            let s : Sent = record { images = image ∷ more; pause = wait } in
            let is : sent ≡ s ∷ (report configured wait rest).0 = ground arith in
            subst (All IsPause) (sym is) (
              (omega (arith, bounds), λ k. ground arith),
              report-IsPause configured wait rest (inr bounds),
            )
      ]
    ]
