-- ===== src/Auth/Validator.antt =====
-- internal/auth/validator.go. The key store is a function from hashes to what the store returns;
-- the JSON text of a key is the codec's. A validator without a Redis client is `none`.
pub mod Laws
use nexus_ai_gateway.Prelude.{
  ℕ, ◌*◌, String, ◌^◌, not, Option, none, some, ◌==◌, if◌then◌else◌, eqb, ◌≡◌, ◌≢◌,
}
use nexus_ai_gateway.Prelude.Int.{ℤ, pos_part}
use nexus_ai_gateway.Domain.Errors.{
  Err, nil, Result, ok, err, err_unauthorized, err_key_revoked, err_key_expired,
}
use nexus_ai_gateway.Domain.Keys.{ApiKey, key_status_revoked, is_expired, is_active}
use nexus_ai_gateway.Storage.Redis.{Redis, get, set_with_ttl}
use nexus_ai_gateway.Auth.Keys.{hash_key}

-- `json.Marshal` and `json.Unmarshal` of `APIKey`. The hash is not part of the text (`json:"-"`),
-- all else comes back, and the text of a key is not empty.
pub record KeyCodec : Type 0 where
  pub marshal : ApiKey → String
  pub unmarshal : String → Option ApiKey
  pub unmarshal-marshal : (k : ApiKey) → unmarshal (marshal k) ≡ some (record k { hash = "" })
  pub marshal-ne_empty : (k : ApiKey) → marshal k ≢ ""

abbrev pub KeyStore : Type 0
KeyStore = String → Option ApiKey × Err

-- `NewValidator`: a lifetime that is not positive becomes five minutes.
unfoldable pub cache_ttl : ℤ → ℕ
cache_ttl ttl = if eqb (pos_part ttl) 0 then 300 * 1000000000 else pos_part ttl

unfoldable pub validate_key_status : ℕ → ApiKey → Result ApiKey
validate_key_status now key =
    if key.status == key_status_revoked
    then err err_key_revoked
    else if is_expired now key
    then err err_key_expired
    else if not (is_active now key)
    then err err_unauthorized
    else ok key

unfoldable pub cache_key : String → String
cache_key hash = "apikey:" ^ hash

module _ (r : Redis) (codec : KeyCodec) where
  open r use {State}

  decode_hit : String × Err → Option ApiKey
  decode_hit (text, nil) = if text == "" then none else codec.unmarshal text
  decode_hit (text, e) = none

  -- Step 1: the key that the cache holds under a hash.
  unfoldable pub cached : ℕ → String → Option State → Option ApiKey
  unfolding decode_hit
  cached now hash none = none
  cached now hash (some s) = decode_hit (get r now (cache_key hash) s)

  -- Step 3: the key is written to the cache; what the write returns is dropped.
  unfoldable pub remember : ℕ → ℕ → String → ApiKey → Option State → Option State
  remember now ttl hash key none = none
  remember now ttl hash key (some s) =
      some (set_with_ttl r now (cache_key hash) (codec.marshal key) ttl s).1

  -- Steps 2 and 3, from what the store returned.
  unfoldable pub validate_stored :
      ℕ → ℕ → String → Option ApiKey × Err → Option State → Result ApiKey × Option State
  unfolding remember
  validate_stored now ttl hash (some key, nil) cache =
      (validate_key_status now key, remember now ttl hash key cache)
  validate_stored now ttl hash (_, _) cache = (err err_unauthorized, cache)

  unfoldable pub validate_from :
      ℕ → ℕ → KeyStore → String → Option ApiKey → Option State → Result ApiKey × Option State
  validate_from now ttl keys hash (some key) cache = (validate_key_status now key, cache)
  validate_from now ttl keys hash none cache = validate_stored now ttl hash (keys hash) cache

  unfoldable pub validate_hashed :
      ℕ → ℕ → KeyStore → Result String → Option State → Result ApiKey × Option State
  validate_hashed now ttl keys (err e) cache = (err err_unauthorized, cache)
  validate_hashed now ttl keys (ok hash) cache =
      validate_from now ttl keys hash (cached now hash cache) cache

  -- `Validate`
  unfoldable pub validate :
      (String → String) → ℕ → ℕ → KeyStore → String → Option State → Result ApiKey × Option State
  validate sha256_hex now ttl keys plaintext cache =
      if plaintext == ""
      then (err err_unauthorized, cache)
      else validate_hashed now ttl keys (hash_key sha256_hex plaintext) cache
