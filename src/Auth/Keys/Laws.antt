-- ===== src/Auth/Keys/Laws.antt =====
-- Generated keys and stored hashes.
use Prim.Native.String.{[] as ε, ◌∷◌ as ◌⊳◌}
use text.Mathlib.TextLemmas.{nil-append, cons-append, append_assoc}
use nexus_ai_gateway.Prelude.{
  String, ◌^◌, ◌≡◌, ◌≢◌, refl, ap, subst, sym, ◌∙◌, ◌↔◌, true, ◌||◌, some, is_some, ◌==◌, eq_iff,
  arith, Bool-cases, inl, inr, has_prefix, strip_prefix, eq_false,
}
use mathlib.Core.Bool.{false≢true}
use nexus_ai_gateway.Domain.Errors.{ok}
use nexus_ai_gateway.Auth.Keys.{
  hash_key, compare_key, environment_prefix, generate_key, is_valid_key_format,
}

module _ (sha256_hex : String → String) where
  -- A text is accepted for a stored hash exactly if it is not empty and its hash is the stored one.
  compare_key_iff :
      (plaintext stored : String)
      → (compare_key sha256_hex plaintext stored ≡ true)
        ↔ ((plaintext ≢ "") × (sha256_hex plaintext ≡ stored))
  unfolding compare_key hash_key
  compare_key_iff plaintext stored = elim (Bool-cases (plaintext == "")) [
    | inl empty ↦ (
      λ h. absurd (false≢true (rw empty at h)),
      λ p. absurd (p.0 ((eq_iff plaintext "").0 empty)),
    )
    | inr full ↦ (
      λ h. (
        λ e. absurd (false≢true (sym full ∙ (eq_iff plaintext "").1 e)),
        (eq_iff (sha256_hex plaintext) stored).0 (rw full at h),
      ),
      λ p. rw full ((eq_iff (sha256_hex plaintext) stored).1 p.1),
    )
  ]

strip_prefix-append : (p s : String) → strip_prefix (p ^ s) p ≡ some s
unfolding strip_prefix
strip_prefix-append ε s = rw (nil-append s) refl
strip_prefix-append (c ⊳ p) s = rw (cons-append c p s) (ground (arith, strip_prefix-append p s))

environment_prefix-split :
    (env : String) → (rest : String) × (environment_prefix env ≡ "ngk_" ^ rest)
unfolding environment_prefix
environment_prefix-split env = elim (Bool-cases (env == "test" || env == "development")) [
  | inl e ↦ ("test_", rw e refl)
  | inr e ↦ elim (Bool-cases (env == "live" || env == "production")) [
    | inl f ↦ ("live_", rw (e, f) refl)
    | inr f ↦ ("", rw (e, f) refl)
  ]
]

generated-valid :
    (env encoded : String) → is_valid_key_format (environment_prefix env ^ encoded) ≡ true
unfolding is_valid_key_format has_prefix
generated-valid env encoded =
    let (rest, e) = environment_prefix-split env in
    let shape : environment_prefix env ^ encoded ≡ "ngk_" ^ (rest ^ encoded) =
      ap (λ p. p ^ encoded) e ∙ append_assoc "ngk_" rest encoded in
    ap (λ k. is_some (strip_prefix k "ngk_")) shape
    ∙ ap is_some (strip_prefix-append "ngk_" (rest ^ encoded))

valid-ne_nil : (key : String) → is_valid_key_format key ≡ true → key ≢ ""
unfolding is_valid_key_format has_prefix strip_prefix
valid-ne_nil key h e = false≢true (sym (ap (λ k. is_some (strip_prefix k "ngk_")) e) ∙ h)

-- Whatever the environment and the random text, a generated key has the gateway's format, and is
-- accepted for its own hash.
pub generate_key-accepted :
    (sha256_hex : String → String) (env encoded key display : String)
    → generate_key env (some encoded) ≡ ok (key, display)
    → (is_valid_key_format key ≡ true) × (compare_key sha256_hex key (sha256_hex key) ≡ true)
unfolding generate_key
generate_key-accepted sha256_hex env encoded key display e =
    let same : environment_prefix env ^ encoded ≡ key = cc in
    let valid = subst (λ k. is_valid_key_format k ≡ true) same (generated-valid env encoded) in
    (valid, (compare_key_iff sha256_hex key (sha256_hex key)).1 (valid-ne_nil key valid, refl))

-- A generated key can be hashed.
pub hash_key-generated :
    (sha256_hex : String → String) (env encoded : String)
    → hash_key sha256_hex (environment_prefix env ^ encoded)
      ≡ ok (sha256_hex (environment_prefix env ^ encoded))
unfolding hash_key
hash_key-generated sha256_hex env encoded =
    rw (eq_false _ "" (valid-ne_nil _ (generated-valid env encoded))) refl

-- A generated key is not empty.
pub generated-ne_nil : (env encoded : String) → environment_prefix env ^ encoded ≢ ""
generated-ne_nil env encoded = valid-ne_nil _ (generated-valid env encoded)
