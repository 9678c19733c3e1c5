-- ===== src/Http/AuthCli/Laws.antt =====
-- internal/http/handlers/auth_cli.go: what the rotation of a key leaves in the table of keys.
use nexus_ai_gateway.Prelude.{
  ℕ, String, ◌^◌, ◌≡◌, refl, ap, ◌∙◌, true, false, Option, none, some, List, [], ◌∷◌, ◌++◌, ◌==◌,
  eq_refl, is_empty, if◌then◌else◌, trim_space,
}
use nexus_ai_gateway.Domain.Errors.{Err, nil, domain, upstream, wrapped, plain, ok}
use nexus_ai_gateway.Domain.Keys.{ApiKey, new_api_key, is_active, is_expired}
use nexus_ai_gateway.Auth.Keys.{generate_key, hash_key, environment_prefix, extract_prefix}
use nexus_ai_gateway.Auth.Keys.Laws.{hash_key-generated}
use nexus_ai_gateway.Storage.Rows.{
  find_row, scanned, select_row, insert_row, update_found, find_row-append, find_row-kept,
  find_row-update_rows, find_row-update_rows-none,
}
use nexus_ai_gateway.Storage.Tenancy.{has_hash, set_revoked, create_key, get_by_hash, revoke}
use nexus_ai_gateway.Http.AuthCli.{
  CliSurroundings, CliReply, rotated, bearer_token, Messages, rotate_messages, after_store,
  store_new_key, rotated_reply, replace_key, rotate_found, rotate_hashed, rotate_key,
}

-- The plaintext of a generated key.
abbrev pub plaintext_of : String → String
plaintext_of encoded = environment_prefix "live" ^ encoded

looked_up :
    (fault : Err) (hash : String) (old : ApiKey) (rows : List ApiKey)
    → fault ≡ nil
    → find_row (has_hash hash) rows ≡ some old
    → get_by_hash fault hash rows ≡ ok old
unfolding get_by_hash select_row scanned
looked_up fault hash old rows l o = rw (l, o) refl

module _ (sha256_hex : String → String) (s : CliSurroundings) (encoded : String) where
  abbrev pub new_hash : String
  new_hash = sha256_hex (plaintext_of encoded)

  -- The row that a new key gets.
  abbrev pub new_row : String → List String → ApiKey
  new_row project_id scopes =
      new_api_key s.uuid s.now project_id new_hash (extract_prefix (plaintext_of encoded)) scopes
        none

  pub store_new_key-stored :
      (m : Messages) (project_id : String) (scopes : List String) (rows : List ApiKey)
      → s.random ≡ some encoded
      → s.store_fault ≡ nil
      → store_new_key sha256_hex s m project_id scopes rows
        ≡ (ok (plaintext_of encoded), rows ++ (new_row project_id scopes ∷ []))
  unfolding store_new_key generate_key create_key insert_row after_store
  store_new_key-stored m project_id scopes rows r f =
      rw (store_new_key, r, hash_key-generated sha256_hex "live" encoded, f) refl

  -- What is found under a hash after the error of a revocation, if there is one.
  abbrev pub after_revoke : Err → ApiKey → ApiKey
  after_revoke nil old = set_revoked old
  after_revoke _ old = old

  revoked-found :
      (fault : Err) (hash : String) (old : ApiKey) (rows : List ApiKey)
      → find_row (has_hash hash) rows ≡ some old
      → find_row (has_hash hash) (revoke fault old.id rows).1 ≡ some (after_revoke fault old)
  unfolding revoke update_found has_hash set_revoked
  revoked-found nil hash old rows h =
      find_row-update_rows (has_hash hash) (λ k. k.id == old.id) set_revoked rows old (λ b. refl) h
      ∙ ap (λ b. some (if b then set_revoked old else old)) (eq_refl old.id)
  revoked-found (domain _ _ _ _) hash old rows h = h
  revoked-found (upstream _) hash old rows h = h
  revoked-found (wrapped _ _) hash old rows h = h
  revoked-found (plain _) hash old rows h = h

  revoked-missing :
      (fault : Err) (hash id : String) (rows : List ApiKey)
      → find_row (has_hash hash) rows ≡ none
      → find_row (has_hash hash) (revoke fault id rows).1 ≡ none
  unfolding revoke update_found has_hash set_revoked
  revoked-missing nil hash id rows h =
      find_row-update_rows-none (has_hash hash) (λ k. k.id == id) set_revoked rows (λ b. refl) h
  revoked-missing (domain _ _ _ _) hash id rows h = h
  revoked-missing (upstream _) hash id rows h = h
  revoked-missing (wrapped _ _) hash id rows h = h
  revoked-missing (plain _) hash id rows h = h

  -- What a rotation leaves: the reply names the new key, which is found under its hash, of the old key's
  -- project, active and without an end; under the old hash the old key is found, revoked unless the
  -- revocation failed.
  pub record IsRotated (old : ApiKey) (old_hash : String) (result : Option CliReply × List ApiKey)
      : Type 0 where
    pub reply : result.0 ≡ some (rotated (plaintext_of encoded) old.project_id)
    pub found_new : get_by_hash nil new_hash result.1 ≡ ok (new_row old.project_id old.scopes)
    pub found_old : get_by_hash nil old_hash result.1 ≡ ok (after_revoke s.revoke_fault old)
    pub alive : (t : ℕ) → is_active t (new_row old.project_id old.scopes) ≡ true
    pub dead :
        s.revoke_fault ≡ nil → (t : ℕ) → is_active t (after_revoke s.revoke_fault old) ≡ false
    pub keeps_scopes :
        is_empty old.scopes ≡ false → (new_row old.project_id old.scopes).scopes ≡ old.scopes

  replace_key-IsRotated :
      (request_id old_hash : String) (old : ApiKey) (rows : List ApiKey)
      → s.random ≡ some encoded
      → s.store_fault ≡ nil
      → find_row (has_hash old_hash) rows ≡ some old
      → find_row (has_hash new_hash) rows ≡ none
      → IsRotated old old_hash (replace_key sha256_hex s request_id old rows)
  unfolding replace_key get_by_hash select_row scanned rotated_reply has_hash new_api_key is_active
      is_expired set_revoked
  replace_key-IsRotated request_id old_hash old rows r f o n =
      let e =
        store_new_key-stored rotate_messages old.project_id old.scopes
          (revoke s.revoke_fault old.id rows).1 r f in
      record {
        reply = ap (λ x. rotated_reply sha256_hex s request_id old x.0) e;
        found_new =
            rw
              (
                ap (λ x. x.1) e,
                find_row-append (has_hash new_hash) _ (new_row old.project_id old.scopes)
                    (revoked-missing s.revoke_fault new_hash old.id rows n) (eq_refl new_hash),
              )
              refl;
        found_old =
            rw
              (
                ap (λ x. x.1) e,
                find_row-kept (has_hash old_hash) _ (new_row old.project_id old.scopes ∷ []) _
                    (revoked-found s.revoke_fault old_hash old rows o),
              )
              refl;
        alive = λ t. refl;
        dead = λ n t. rw n refl;
        keeps_scopes = λ h. rw h refl;
      }

  -- The rotation of a key that the store holds as active, with a fresh new hash, no fault but perhaps in
  -- the revocation, and random bytes: the client gets the new key. It is found under its hash, belongs
  -- to the old key's project, is active at any time, and has the old key's scopes if there are any.
  -- Under the old hash the old key is found: revoked, and active at no time, unless the revocation
  -- failed; then it is unchanged.
  pub rotate_key-IsRotated :
      (request_id authorization : String) (old : ApiKey) (rows : List ApiKey)
      → (trim_space (bearer_token authorization) == "") ≡ false
      → find_row (has_hash (sha256_hex (trim_space (bearer_token authorization)))) rows ≡ some old
      → is_active s.now old ≡ true
      → find_row (has_hash new_hash) rows ≡ none
      → s.lookup_fault ≡ nil
      → s.random ≡ some encoded
      → s.store_fault ≡ nil
      → IsRotated old
          (sha256_hex (trim_space (bearer_token authorization)))
          (rotate_key sha256_hex s request_id authorization rows)
  unfolding rotate_key rotate_hashed rotate_found hash_key
  rotate_key-IsRotated request_id authorization old rows t o a n l r f =
      rw (t, looked_up s.lookup_fault _ old rows l o, a)
        (replace_key-IsRotated request_id (sha256_hex (trim_space (bearer_token authorization))) old
          rows r f o n)
