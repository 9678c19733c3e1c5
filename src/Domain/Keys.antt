-- ===== src/Domain/Keys.antt =====
-- internal/domain/api_key.go. The source's string types stay strings, so a store may return any
-- value; times are nanoseconds, and `none` is a nil `*time.Time`.
use nexus_ai_gateway.Prelude.{
  ℕ, ◌≤◌, ◌≡◌, refl, arith, String, ◌^◌, Bool, true, false, not, ◌||◌, Option, none, some, List, [],
  ◌∷◌, ◌==◌, ltb, is_empty, if◌then◌else◌, trim_space,
}
use nexus_ai_gateway.Domain.Errors.{Err, nil, new, Code}

abbrev pub key_status_active : String
key_status_active = "active"

abbrev pub key_status_revoked : String
key_status_revoked = "revoked"

abbrev pub scope_inference_write : String
scope_inference_write = "inference:write"

abbrev pub scope_usage_read : String
scope_usage_read = "usage:read"

abbrev pub scope_admin : String
scope_admin = "admin"

pub record ApiKey : Type 0 where
  pub id : String
  pub project_id : String
  pub hash : String
  pub prefix : String
  pub status : String
  pub scopes : List String
  pub created_at : ℕ
  pub expires_at : Option ℕ

-- `uuid` is the text of the fresh UUID, and `now` what the clock returns.
unfoldable pub new_api_key : String → ℕ → String → String → String → List String → Option ℕ → ApiKey
new_api_key uuid now project_id hash prefix scopes expires_at = record {
  id = "key_" ^ uuid;
  project_id = project_id;
  hash = hash;
  prefix = prefix;
  status = key_status_active;
  scopes = if is_empty scopes then scope_inference_write ∷ scope_usage_read ∷ [] else scopes;
  created_at = now;
  expires_at = expires_at;
}

past : ℕ → Option ℕ → Bool
past now none = false
past now (some t) = ltb t now

unfoldable pub is_expired : ℕ → ApiKey → Bool
unfolding past
is_expired now k = past now k.expires_at

past-false : (now : ℕ) (o : Option ℕ) → ((t : ℕ) → o ≡ some t → now ≤ t) → past now o ≡ false
unfolding past
past-false now none h = refl
past-false now (some t) h = ground (arith, h t refl)

-- A key whose expiry, if it has one, is not before the time has not expired.
pub is_expired-false :
    (now : ℕ) (k : ApiKey) → ((t : ℕ) → k.expires_at ≡ some t → now ≤ t) → is_expired now k ≡ false
unfolding is_expired
is_expired-false now k h = past-false now k.expires_at h

unfoldable pub is_active : ℕ → ApiKey → Bool
unfolding is_expired
is_active now k = if not (k.status == key_status_active) then false else not (is_expired now k)

unfoldable pub scopes_allow : List String → String → Bool
scopes_allow [] s = false
scopes_allow (sc ∷ scopes) s =
    let rest = scopes_allow scopes s in if sc == scope_admin || sc == s then true else rest

unfoldable pub has_scope : ApiKey → String → Bool
unfolding scopes_allow
has_scope k s = scopes_allow k.scopes s

unfoldable pub validate_key : ApiKey → Err
validate_key k =
    if trim_space k.project_id == ""
    then new Code.bad_request "project_id is required"
    else if trim_space k.hash == ""
    then new Code.bad_request "key hash is required"
    else if trim_space k.prefix == ""
    then new Code.bad_request "key prefix is required"
    else nil
