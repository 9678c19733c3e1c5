-- ===== src/Http/Admin/Keys.antt =====
-- internal/http/handlers/api_keys.go. Times are nanoseconds since 1970; an expiry before 1970 is 0.
use nexus_ai_gateway.Prelude.{
  ℕ, suc, ◌+◌, ◌-◌, ◌*◌, ◌%◌, String, Option, none, some, List, ltb, if◌then◌else◌,
}
use nexus_ai_gateway.Prelude.Int.{ℤ, pos}
use nexus_ai_gateway.Domain.Errors.{Err, nil, Result, ok, err}
use nexus_ai_gateway.Domain.Keys.{ApiKey, new_api_key, validate_key}
use nexus_ai_gateway.Auth.Keys.{generate_key, hash_key}
use nexus_ai_gateway.Auth.Validator.{KeyStore}
use nexus_ai_gateway.Storage.Tenancy.{create_key, get_by_hash, revoke}
use nexus_ai_gateway.Http.Admin.{Answer, answered, deny, insert_valid}

pub record KeyBody : Type 0 where
  pub project_id : String
  pub env : String
  pub scopes : List String
  pub expires_in : Option ℤ

-- `now.Add(time.Duration(n) * time.Second)`: the product is an int64, and wraps around.
unfoldable pub later_by : ℕ → ℕ → ℕ
later_by now seconds =
    let d = seconds * 1000000000 % 18446744073709551616 in
    if ltb d 9223372036854775808 then now + d else now - (18446744073709551616 - d)

unfoldable pub expiry_of : ℕ → Option ℤ → Option ℕ
expiry_of now (some (pos (suc n))) = some (later_by now (suc n))
expiry_of now _ = none

-- The key as it is shown, with its plaintext. The hash is no part of the JSON text.
pub record CreatedKey : Type 0 where
  pub key : ApiKey
  pub plaintext : String

-- What a request draws from the process: the clock before and in `NewAPIKey`, a UUID, and the base64
-- text of random bytes, if there is one.
pub record KeySource : Type 0 where
  pub asked_at : ℕ
  pub created_at : ℕ
  pub uuid : String
  pub random : Option String

module _ (sha256_hex : String → String) (s : KeySource) (fault : Err) (request_id : String) where
  unfoldable pub key_of : KeyBody → String → String → ApiKey
  key_of body hash prefix =
      new_api_key s.uuid s.created_at body.project_id hash prefix body.scopes
        (expiry_of s.asked_at body.expires_in)

  unfoldable pub store_key :
      KeyBody → String → String → String → List ApiKey → Option (Answer CreatedKey) × List ApiKey
  store_key body plaintext prefix hash rows =
      let key = key_of body hash prefix in
      insert_valid request_id (create_key fault key) (record { key = key; plaintext = plaintext })
        (validate_key key) rows

  -- POST /api-keys
  unfoldable pub post_key : Result KeyBody → List ApiKey → Option (Answer CreatedKey) × List ApiKey
  post_key (err e) rows = (deny request_id e, rows)
  post_key (ok body) rows = elim (generate_key body.env s.random) [
    | err e ↦ (deny request_id e, rows)
    | ok (plaintext, prefix) ↦ elim (hash_key sha256_hex plaintext) [
      | err e ↦ (deny request_id e, rows)
      | ok hash ↦ store_key body plaintext prefix hash rows
    ]
  ]

unfoldable pub revoked_answer : String → Err → Option (Answer Unit)
revoked_answer request_id nil = some (answered 204 tt)
revoked_answer request_id e = deny request_id e

-- DELETE /api-keys/{id}
unfoldable pub delete_key : Err → String → String → List ApiKey → Option (Answer Unit) × List ApiKey
delete_key fault request_id id rows =
    let (e, rows') = revoke fault id rows in (revoked_answer request_id e, rows')

-- The keys' repository as the validator uses it.
unfoldable pub stored_answer : Result ApiKey → Option ApiKey × Err
stored_answer (ok k) = (some k, nil)
stored_answer (err e) = (none, e)

unfoldable pub stored_keys : Err → List ApiKey → KeyStore
stored_keys fault rows hash = stored_answer (get_by_hash fault hash rows)
