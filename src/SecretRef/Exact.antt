-- ===== src/SecretRef/Exact.antt =====
-- What a reference to a Secret's data key names.
use Prim.Native.Char.{code}
use text.Mathlib.TextEquality.{Char-path}
use garam_agent_operator.Prelude.{
  ◌≡◌, ◌↔◌, refl, ap, ◌∙◌, sym, String, Bool, true, false, ◌||◌, Bool-cases, inl, inr, arith,
  nat_eq, nat_eq_iff,
}
use garam_agent_operator.Definition.Errors.{ok}
use garam_agent_operator.SecretRef.{Validation, cut, parse}

abbrev pub has_slash : String → Bool
has_slash String.[] = false
has_slash (String.◌∷◌ c s) = nat_eq (code c) b'/' || has_slash s

-- `name + "/" + key`
abbrev pub joined : String → String → String
joined String.[] key = String.◌∷◌ "/" key
joined (String.◌∷◌ c name) key = String.◌∷◌ c (joined name key)

cut-joined : (name key : String) → has_slash name ≡ false → cut (joined name key) ≡ (name, key)
unfolding cut
cut-joined String.[] key h = refl
cut-joined (String.◌∷◌ c name) key h = ground (arith, cut-joined name key)

joined-cut : (ref : String) → has_slash ref ≡ true → joined (cut ref).0 (cut ref).1 ≡ ref
unfolding cut
joined-cut String.[] h = ground arith
joined-cut (String.◌∷◌ c s) h = elim (Bool-cases (nat_eq (code c) b'/')) [
  | inl here ↦
      let is_slash : c ≡ "/" = Char-path c "/" ((nat_eq_iff (code c) b'/').0 here) in
      rw here (ap (λ x. String.◌∷◌ x s) (sym is_slash))
  | inr past ↦ rw past (ap (String.◌∷◌ c) (joined-cut s (ground arith)))
]

cut_none : (ref : String) → has_slash ref ≡ false → (cut ref).1 ≡ ""
unfolding cut
cut_none String.[] h = refl
cut_none (String.◌∷◌ c s) h = ground (arith, cut_none s)

-- Where no subdomain name holds a slash and no key is empty, a reference is taken as a name and a key
-- exactly when it is the name, a slash and the key, and both are valid.
pub parse-eq-ok_iff :
    (v : Validation) (ref name key : String)
    → ((s : String) → v.is_subdomain s ≡ true → has_slash s ≡ false)
    → v.is_config_map_key "" ≡ false
    → ((parse v ref ≡ ok (name, key)) ↔ (
        (ref ≡ joined name key) × (v.is_subdomain name ≡ true) × (v.is_config_map_key key ≡ true)))
unfolding parse
parse-eq-ok_iff v ref name key no_slash not_empty = (
  λ h.
      let parts : cut ref ≡ (name, key) = ground (arith, h) in
      let valid : (v.is_subdomain name ≡ true) × (v.is_config_map_key key ≡ true) =
        ground (arith, h) in
      elim (Bool-cases (has_slash ref)) [
        | inl has ↦ (sym (joined-cut ref has) ∙ ap (λ p. joined p.0 p.1) parts, valid.0, valid.1)
        | inr none ↦ absurd (ground (arith, cut_none ref none))
      ],
  λ h. ground (arith, cut-joined name key (no_slash name h.1)),
)
