-- ===== src/Http/Admin/Granted.antt =====
-- A key that is created over HTTP, presented to the gateway, and revoked over HTTP.
use nexus_ai_gateway.Prelude.{
  ℕ, zero, suc, ◌+◌, ◌*◌, ◌≤◌, ◌<◌, String, ◌^◌, ◌≡◌, refl, ap, ◌∙◌, Option, none, some, List, [],
  ◌∷◌, ◌++◌, ◌==◌, eq_refl, arith, if◌then◌else◌,
}
use nexus_ai_gateway.Prelude.Int.{pos}
use nexus_ai_gateway.Domain.Errors.{nil, Result, ok, err, err_key_revoked}
use nexus_ai_gateway.Domain.Keys.{ApiKey, new_api_key, validate_key}
use nexus_ai_gateway.Auth.Keys.{generate_key, environment_prefix, extract_prefix}
use nexus_ai_gateway.Auth.Keys.Laws.{hash_key-generated, generated-ne_nil}
use nexus_ai_gateway.Auth.Validator.{
  KeyCodec, validate_key_status, cached, validate_stored, validate_from, validate,
}
use nexus_ai_gateway.Auth.Validator.Laws.{validate-hashed, validate_key_status-live}
use nexus_ai_gateway.Storage.Redis.{Redis}
use nexus_ai_gateway.Storage.Rows.{
  find_row, scanned, select_row, insert_row, update_found, find_row-append, find_row-update_rows,
}
use nexus_ai_gateway.Storage.Tenancy.{has_hash, set_revoked, create_key, get_by_hash, revoke}
use nexus_ai_gateway.Http.Admin.{answered, after_insert, insert_valid}
use nexus_ai_gateway.Http.Admin.Keys.{
  KeyBody, later_by, expiry_of, KeySource, key_of, store_key, post_key, delete_key, stored_answer,
  stored_keys,
}

-- A lifetime of up to 9223372036 seconds, some 292 years, is kept to the nanosecond.
pub expiry_of-exact :
    (now n : ℕ)
    → 0 < n
    → n ≤ 9223372036
    → expiry_of now (some (pos n)) ≡ some (now + n * 1000000000)
unfolding expiry_of later_by
expiry_of-exact now zero h small = absurd (omega arith)
expiry_of-exact now (suc n) h small = ap some (ground arith)

-- The next 9223372037 lifetimes wrap around: a key that is asked for with one of them has expired.
expiry_of-wrapped :
    (now n : ℕ)
    → 9223372037 ≤ n
    → n ≤ 18446744073
    → (t : ℕ) × (expiry_of now (some (pos n)) ≡ some t) × (t ≤ now)
unfolding expiry_of later_by
expiry_of-wrapped now zero large bound = absurd (omega arith)
expiry_of-wrapped now (suc n) large bound = (later_by now (suc n), refl, ground arith)

module _ (sha256_hex : String → String) (s : KeySource) (request_id : String) (body : KeyBody)
    (encoded : String) where
  abbrev pub plain_key : String
  plain_key = environment_prefix body.env ^ encoded

  -- The row of the new key.
  abbrev pub granted : ApiKey
  granted =
      key_of sha256_hex s nil request_id body (sha256_hex plain_key) (extract_prefix plain_key)

  post_key-stored :
      (rows : List ApiKey)
      → s.random ≡ some encoded
      → validate_key granted ≡ nil
      → post_key sha256_hex s nil request_id (ok body) rows ≡ (
        some (answered 201 (record { key = granted; plaintext = plain_key })),
        rows ++ (granted ∷ []),
      )
  unfolding post_key store_key generate_key insert_valid after_insert create_key insert_row key_of
  post_key-stored rows r v =
      rw (post_key, r, hash_key-generated sha256_hex body.env encoded) (rw v refl)

  -- What the repository finds under the hash of the key.
  under_hash : List ApiKey → Option ApiKey
  under_hash rows = find_row (has_hash (sha256_hex plain_key)) rows

  under_hash-stored :
      (rows : List ApiKey)
      → under_hash rows ≡ none
      → under_hash (rows ++ (granted ∷ [])) ≡ some granted
  unfolding under_hash has_hash key_of new_api_key
  under_hash-stored rows n =
      find_row-append (has_hash (sha256_hex plain_key)) rows granted n
        (eq_refl (sha256_hex plain_key))

  under_hash-revoked :
      (rows : List ApiKey)
      → under_hash rows ≡ some granted
      → under_hash (delete_key nil request_id granted.id rows).1 ≡ some (set_revoked granted)
  unfolding under_hash delete_key revoke update_found has_hash set_revoked
  under_hash-revoked rows h =
      find_row-update_rows (has_hash (sha256_hex plain_key)) (λ k. k.id == granted.id) set_revoked
        rows granted (λ b. refl) h
      ∙ ap (λ b. some (if b then set_revoked granted else granted)) (eq_refl granted.id)

  stored_keys-found :
      (rows : List ApiKey) (k : ApiKey)
      → under_hash rows ≡ some k
      → stored_keys nil rows (sha256_hex plain_key) ≡ (some k, nil)
  unfolding under_hash stored_keys stored_answer get_by_hash select_row scanned
  stored_keys-found rows k h = rw h refl

  module _ (r : Redis) (codec : KeyCodec) (ttl : ℕ) where
    open r use {State}

    -- What the gateway says to the key at a time, over a table, where the cache does not hold it.
    abbrev pub verdict : ℕ → Option State → List ApiKey → Result ApiKey
    verdict t cache rows =
        (validate r codec sha256_hex t ttl (stored_keys nil rows) plain_key cache).0

    verdict-found :
        (t : ℕ) (cache : Option State) (rows : List ApiKey) (k : ApiKey)
        → cached r codec t (sha256_hex plain_key) cache ≡ none
        → under_hash rows ≡ some k
        → verdict t cache rows ≡ validate_key_status t k
    unfolding validate_from validate_stored
    verdict-found t cache rows k miss h =
        ap (λ x. x.0)
          (validate-hashed r codec sha256_hex t ttl (stored_keys nil rows) plain_key cache
            (generated-ne_nil body.env encoded))
        ∙ rw miss (rw (stored_keys-found rows k h) refl)

    revoked-refused :
        (t : ℕ) (k : ApiKey) → validate_key_status t (set_revoked k) ≡ err err_key_revoked
    unfolding validate_key_status set_revoked
    revoked-refused t k = refl

    -- A key that is asked for with a body that validates is answered with its plaintext, and stored.
    -- The gateway accepts the plaintext at a time that is not past the key's expiry, if it has one; after
    -- DELETE of the key's ID it answers, at any time, that the key has been revoked. Both hold where the
    -- cache does not hold the key, and no other key has its hash.
    pub post_key-granted :
        (rows : List ApiKey) (t later : ℕ) (cache later_cache : Option State)
        → s.random ≡ some encoded
        → validate_key granted ≡ nil
        → find_row (has_hash (sha256_hex plain_key)) rows ≡ none
        → cached r codec t (sha256_hex plain_key) cache ≡ none
        → ((expiry : ℕ) → granted.expires_at ≡ some expiry → t ≤ expiry)
        → cached r codec later (sha256_hex plain_key) later_cache ≡ none
        → let (reply, rows') = post_key sha256_hex s nil request_id (ok body) rows in
          (reply ≡ some (answered 201 (record { key = granted; plaintext = plain_key })))
          × (verdict t cache rows' ≡ ok granted)
          × (verdict later later_cache (delete_key nil request_id granted.id rows').1
              ≡ err err_key_revoked)
    unfolding under_hash key_of new_api_key
    post_key-granted rows t later cache later_cache random valid fresh miss live later_miss =
        let found = under_hash-stored rows fresh in
        rw (post_key-stored rows random valid) (
          refl,
          verdict-found t cache (rows ++ (granted ∷ [])) granted miss found
              ∙ validate_key_status-live t granted (refl, live),
          verdict-found later later_cache
                (delete_key nil request_id granted.id (rows ++ (granted ∷ []))).1
                (set_revoked granted) later_miss (under_hash-revoked (rows ++ (granted ∷ [])) found)
              ∙ revoked-refused later granted,
        )
