-- ===== src/Console/Authority.antt =====
-- What a request of the console is served only under.
use garam_agent_operator.Prelude.{
  ℕ, ◌≡◌, ◌<◌, ◌⊎◌, refl, String, false, none, some, Option-cases, Bool-cases, inl, inr, List, ◌==◌,
  ◌!=◌, ◌&&◌, string_eq, arith, subst,
}
use Prim.Native.String.{◌++◌}
use text.Mathlib.TextEquality.{eq_iff}
use garam_agent_operator.Definition.Types.{Assignment}
use garam_agent_operator.Repository.{Memory}
use garam_agent_operator.Handler.{done}
use garam_agent_operator.Console.{Bound, Introspected, bound, unbound, Setting, Request, Want}
use garam_agent_operator.Console.Routes.{
  authority_of, refused_for, authorize, org_grn_prefix, is_assigned_operation,
}

Introspected-cases :
    (x : Introspected) → ((b : Bound) × (x ≡ bound b)) ⊎ ((e : _) × (x ≡ unbound e))
Introspected-cases (bound b) = inl (b, refl)
Introspected-cases (unbound e) = inr (e, refl)

-- Garam binds the authority that the request presents to this server, the route's organization,
-- operation and target, and to the whole body that was sent; and it has not expired.
pub record IsAuthorized (setting : Setting) (r : Request) (body : List ℕ) (want : Want) (b : Bound)
    : Type 0 where
  pub authority : String
  pub presented : authority_of r.authorization ≡ some authority
  pub asked : r.introspect authority ≡ bound b
  pub lives : r.now < b.expires_at
  pub audience : b.audience ≡ setting.audience
  pub organization : b.org ≡ org_grn_prefix ++ want.org
  pub operation : b.operation ≡ want.operation
  pub target : (want.grn ≡ "") ⊎ (b.target ≡ want.grn)
  pub route : (want.request_target ≡ "") ⊎ (b.request_target ≡ want.request_target)
  pub assigned :
      (is_assigned_operation b.operation ≡ false) ⊎ ((a : Assignment) × (b.assignment ≡ some a))
  pub digest : setting.sha256_hex body ≡ b.body_sha256

same_or_free : (s t : String) → (s != "" && t != s) ≡ false → (s ≡ "") ⊎ (t ≡ s)
same_or_free s t h = elim (Bool-cases (s == "")) [
  | inl free ↦ inl ((eq_iff s "").0 free)
  | inr named ↦ inr (ground (arith, eq_iff t s))
]

refused_for-IsAuthorized :
    (setting : Setting) (r : Request) (body : List ℕ) (want : Want) (b : Bound) (authority : String)
    → authority_of r.authorization ≡ some authority
    → r.introspect authority ≡ bound b
    → refused_for setting r body want b ≡ none
    → IsAuthorized setting r body want b
unfolding refused_for
refused_for-IsAuthorized setting r body want b authority p q h = record {
  authority = authority;
  presented = p;
  asked = q;
  lives = ground arith;
  audience = ground (arith, eq_iff b.audience setting.audience);
  organization = ground (arith, eq_iff b.org (org_grn_prefix ++ want.org));
  operation = ground (arith, eq_iff b.operation want.operation);
  target = same_or_free want.grn b.target (ground arith);
  route = same_or_free want.request_target b.request_target (ground arith);
  assigned = elim (Option-cases b.assignment) [
    | inr found ↦ inr found
    | inl e ↦ inl (ground arith)
  ];
  digest = ground (arith, eq_iff (setting.sha256_hex body) b.body_sha256);
}

module _ {S : Type 0} where
  pub authorize-IsAuthorized :
      (setting : Setting) (r : Request) (body : List ℕ) (want : Want) (m : Memory S) (b : Bound)
      → (authorize setting r body want m).0 ≡ done b
      → IsAuthorized setting r body want b
  unfolding authorize
  authorize-IsAuthorized setting r body want m b h =
      elim (Option-cases (authority_of r.authorization)) [
        | inl e ↦ absurd (ground arith)
        | inr (authority, e) ↦ elim (Introspected-cases (r.introspect authority)) [
          | inr (x, f) ↦ absurd (ground arith)
          | inl (b', f) ↦ elim (Option-cases (refused_for setting r body want b')) [
            | inr (x, g) ↦ absurd (ground arith)
            | inl g ↦
                let same : b' ≡ b = ground arith in
                subst (IsAuthorized setting r body want) same
                  (refused_for-IsAuthorized setting r body want b' authority e f g)
          ]
        ]
      ]

  pub authorize-state :
      (setting : Setting) (r : Request) (body : List ℕ) (want : Want) (m : Memory S)
      → (authorize setting r body want m).1 ≡ m
  unfolding authorize
  authorize-state setting r body want m = elim (Option-cases (authority_of r.authorization)) [
    | inl e ↦ ground arith
    | inr (authority, e) ↦ elim (Introspected-cases (r.introspect authority)) [
      | inr (x, f) ↦ ground arith
      | inl (b', f) ↦ elim (Option-cases (refused_for setting r body want b')) [
        | inr (x, g) ↦ ground arith
        | inl g ↦ ground arith
      ]
    ]
  ]
