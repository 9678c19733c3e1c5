-- ===== src/Auth/Validator/Laws.antt =====
-- What a validated key is, where it comes from, and what the cache does.
use nexus_ai_gateway.Prelude.{
  ℕ, ◌+◌, ◌≤◌, ◌<◌, String, ◌≡◌, ◌≢◌, refl, ap, subst, ◌↔◌, true, false, Option, none, some, ◌==◌,
  arith, eq_iff, inl, inr, Bool-cases, ◌⊎◌,
}
use nexus_ai_gateway.Domain.Errors.{Err, nil, ok}
use nexus_ai_gateway.Domain.Keys.{ApiKey, is_active, is_expired-false}
use nexus_ai_gateway.Storage.Redis.{Redis, Documented, get, set_with_ttl}
use nexus_ai_gateway.Auth.Keys.{hash_key}
use nexus_ai_gateway.Auth.Validator.{
  KeyCodec, KeyStore, validate_key_status, cache_key, cached, validate_stored, validate_from,
  validate_hashed, validate,
}

-- Active at a time: the status says so, and the time is not past the expiry, if there is one.
abbrev pub IsLive : ℕ → ApiKey → Type 0
IsLive now k = (k.status ≡ "active") × ((t : ℕ) → k.expires_at ≡ some t → now ≤ t)

is_active→IsLive : (now : ℕ) (k : ApiKey) → is_active now k ≡ true → IsLive now k
unfolding is_active
is_active→IsLive now k h =
    (ground (arith, eq_iff k.status "active"), λ t e. ground (arith, eq_iff k.status "active"))

IsLive→is_active : (now : ℕ) (k : ApiKey) → IsLive now k → is_active now k ≡ true
unfolding is_active
IsLive→is_active now k (s, live) = rw s (rw (is_expired-false now k live))

validate_key_status-ok :
    (now : ℕ) (key k : ApiKey) → validate_key_status now key ≡ ok k → (key ≡ k) × IsLive now k
unfolding validate_key_status
validate_key_status-ok now key k h =
    let e : key ≡ k = ground arith in
    let active : is_active now key ≡ true = ground arith in
    (e, is_active→IsLive now k (subst (λ x. is_active now x ≡ true) e active))

pub validate_key_status-live :
    (now : ℕ) (k : ApiKey) → IsLive now k → validate_key_status now k ≡ ok k
unfolding validate_key_status
validate_key_status-live now k (s, live) =
    let standing : (k.status == "revoked") ≡ false = rw s in
    ground (arith, is_expired-false now k live, IsLive→is_active now k (s, live))

module _ (r : Redis) (codec : KeyCodec) (sha256_hex : String → String) where
  open r use {State}

  -- Where a validated key comes from: the cache, or else the store.
  abbrev pub IsKnown : ℕ → KeyStore → String → Option State → ApiKey → Type 0
  IsKnown now keys hash cache k =
      (cached r codec now hash cache ≡ some k)
      ⊎ ((cached r codec now hash cache ≡ none) × (keys hash ≡ (some k, nil)))

  validate_stored-ok :
      (now ttl : ℕ) (hash : String) (answer : Option ApiKey × Err) (cache : Option State)
      (k : ApiKey)
      → (validate_stored r codec now ttl hash answer cache).0 ≡ ok k
      → (answer ≡ (some k, nil)) × IsLive now k
  unfolding validate_stored
  validate_stored-ok now ttl hash (some key, nil) cache k h =
      let (e, live) = validate_key_status-ok now key k h in (ap (λ x. (some x, nil)) e, live)
  validate_stored-ok now ttl hash (_, _) cache k h = cc

  validate_from-ok :
      (now ttl : ℕ) (keys : KeyStore) (hash : String) (hit : Option ApiKey) (cache : Option State)
      (k : ApiKey)
      → (validate_from r codec now ttl keys hash hit cache).0 ≡ ok k
      → ((hit ≡ some k) ⊎ ((hit ≡ none) × (keys hash ≡ (some k, nil)))) × IsLive now k
  unfolding validate_from
  validate_from-ok now ttl keys hash (some key) cache k h =
      let (e, live) = validate_key_status-ok now key k h in (inl (ap some e), live)
  validate_from-ok now ttl keys hash none cache k h =
      let (e, live) = validate_stored-ok now ttl hash (keys hash) cache k h in (inr (refl, e), live)

  validate_from-live :
      (now ttl : ℕ) (keys : KeyStore) (hash : String) (hit : Option ApiKey) (cache : Option State)
      (k : ApiKey)
      → (hit ≡ some k) ⊎ ((hit ≡ none) × (keys hash ≡ (some k, nil)))
      → IsLive now k
      → (validate_from r codec now ttl keys hash hit cache).0 ≡ ok k
  unfolding validate_from validate_stored
  validate_from-live now ttl keys hash hit cache k (inl e) live =
      rw e (validate_key_status-live now k live)
  validate_from-live now ttl keys hash hit cache k (inr (e, f)) live =
      rw e (rw f (validate_key_status-live now k live))

  pub validate-hashed :
      (now ttl : ℕ) (keys : KeyStore) (plaintext : String) (cache : Option State)
      → plaintext ≢ ""
      → validate r codec sha256_hex now ttl keys plaintext cache
        ≡ validate_from r codec now ttl keys
            (sha256_hex plaintext)
            (cached r codec now (sha256_hex plaintext) cache)
            cache
  unfolding validate validate_hashed hash_key
  validate-hashed now ttl keys plaintext cache h = elim (Bool-cases (plaintext == "")) [
    | inl empty ↦ absurd (h ((eq_iff plaintext "").0 empty))
    | inr full ↦ rw full
  ]

  -- A key is accepted exactly when it stands under the hash of the text, in the cache or, on a miss,
  -- in the store, is active, and has not expired. Nothing else in the cache or the store counts.
  pub validate-ok_iff :
      (now ttl : ℕ) (keys : KeyStore) (plaintext : String) (cache : Option State) (k : ApiKey)
      → plaintext ≢ ""
      → ((validate r codec sha256_hex now ttl keys plaintext cache).0 ≡ ok k)
        ↔ (IsKnown now keys (sha256_hex plaintext) cache k × IsLive now k)
  validate-ok_iff now ttl keys plaintext cache k h =
      rw (validate-hashed now ttl keys plaintext cache h) (
        validate_from-ok now ttl keys (sha256_hex plaintext) _ cache k,
        λ (known, live).
            validate_from-live now ttl keys (sha256_hex plaintext) _ cache k known live,
      )

  -- The cache after a key was found in the store, and what it then holds.
  module _ (now ttl : ℕ) (hash : String) (s : State) (k : ApiKey) where
    abbrev written : State
    written = (set_with_ttl r now (cache_key hash) (codec.marshal k) ttl s).1

    cached-written :
        (d : Documented r) (t : ℕ)
        → (set_with_ttl r now (cache_key hash) (codec.marshal k) ttl s).0 ≡ nil
        → now ≤ t
        → t < now + ttl
        → cached r codec t hash (some written) ≡ some (record k { hash = "" })
    unfolding cached set_with_ttl get
    cached-written d t e le lt =
        rw (d.write_lasts now t (cache_key hash) (codec.marshal k) ttl s e le lt)
          (elim (Bool-cases (codec.marshal k == "")) [
            | inl empty ↦ absurd (codec.marshal-ne_empty k ((eq_iff (codec.marshal k) "").0 empty))
            | inr full ↦ rw full (codec.unmarshal-marshal k)
          ])

    validate_from-written :
        (keys : KeyStore)
        → keys hash ≡ (some k, nil)
        → (validate_from r codec now ttl keys hash none (some s)).1 ≡ some written
    unfolding validate_from validate_stored
    validate_from-written keys e = rw e

  -- A key that the store returned on a cache miss, and whose write to Redis succeeded, is accepted again
  -- until the lifetime of the entry is over, as long as the key as it was cached is live: whatever the
  -- store holds by then, a revoked key or none, changes nothing.
  pub validate-cached :
      (d : Documented r) (now t ttl : ℕ) (old new : KeyStore) (plaintext : String) (s : State)
      (k : ApiKey)
      → plaintext ≢ ""
      → cached r codec now (sha256_hex plaintext) (some s) ≡ none
      → old (sha256_hex plaintext) ≡ (some k, nil)
      → (set_with_ttl r now (cache_key (sha256_hex plaintext)) (codec.marshal k) ttl s).0 ≡ nil
      → now ≤ t
      → t < now + ttl
      → IsLive t k
      → (validate r codec sha256_hex t ttl new plaintext
          (validate r codec sha256_hex now ttl old plaintext (some s)).1).0
        ≡ ok (record k { hash = "" })
  validate-cached d now t ttl old new plaintext s k h miss stored e le lt live =
      rw (validate-hashed now ttl old plaintext (some s) h) (
        rw miss (
          rw (validate_from-written now ttl (sha256_hex plaintext) s k old stored) (
            rw (validate-hashed t ttl new plaintext _ h) (
              rw (cached-written now ttl (sha256_hex plaintext) s k d t e le lt) (
                validate_from-live t ttl new (sha256_hex plaintext) _ _ (record k { hash = "" })
                  (inl refl) live)))))
