-- ===== src/Domain/Scopes.antt =====
-- What the scopes of a key allow: `HasScope` of internal/domain/api_key.go.
use mathlib.Core.Bool.{false≢true}
use nexus_ai_gateway.Prelude.{
  String, ◌≡◌, refl, subst, ◌↔◌, ◌⊎◌, inl, inr, true, List, [], ◌∷◌, ◌==◌, eq_iff, arith, In, here,
  there, Bool-cases,
}
use nexus_ai_gateway.Domain.Keys.{ApiKey, scope_admin, scopes_allow, has_scope}

scopes_allow-In :
    (scopes : List String) (s : String)
    → scopes_allow scopes s ≡ true
    → In scope_admin scopes ⊎ In s scopes
unfolding scopes_allow
scopes_allow-In [] s h = absurd (false≢true h)
scopes_allow-In (sc ∷ scopes) s h = elim (Bool-cases (sc == scope_admin)) [
  | inl e ↦ inl (subst (λ x. In x (sc ∷ scopes)) ((eq_iff sc scope_admin).0 e) here)
  | inr e ↦ elim (Bool-cases (sc == s)) [
    | inl f ↦ inr (subst (λ x. In x (sc ∷ scopes)) ((eq_iff sc s).0 f) here)
    | inr f ↦ elim (scopes_allow-In scopes s (ground arith)) [
      | inl i ↦ inl (there i)
      | inr i ↦ inr (there i)
    ]
  ]
]

In-scopes_allow :
    (scopes : List String) (s sc : String)
    → (sc ≡ scope_admin) ⊎ (sc ≡ s)
    → In sc scopes
    → scopes_allow scopes s ≡ true
unfolding scopes_allow
In-scopes_allow [] s sc e m = elim m [ ]
In-scopes_allow (_ ∷ scopes) s sc (inl e) here = ground (arith, (eq_iff sc scope_admin).1 e)
In-scopes_allow (_ ∷ scopes) s sc (inr e) here = ground (arith, (eq_iff sc s).1 e)
In-scopes_allow (x ∷ scopes) s sc e (there m) = ground (arith, In-scopes_allow scopes s sc e m)

-- A key has a scope exactly if its list holds the scope or "admin".
pub has_scope_iff :
    (k : ApiKey) (s : String) → (has_scope k s ≡ true) ↔ (In scope_admin k.scopes ⊎ In s k.scopes)
unfolding has_scope
has_scope_iff k s = (
  scopes_allow-In k.scopes s,
  λ m. elim m [
    | inl i ↦ In-scopes_allow k.scopes s scope_admin (inl refl) i
    | inr i ↦ In-scopes_allow k.scopes s s (inr refl) i
  ],
)
