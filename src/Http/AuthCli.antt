-- ===== src/Http/AuthCli.antt =====
-- internal/http/handlers/auth_cli.go: a key for a user of the web frontend, and the rotation of a key.
-- Supabase is a parameter; log lines are left out. `none` as a response is the panic of `writeError`
-- on nil.
pub mod Laws
pub mod Issued
use nexus_ai_gateway.Prelude.{
  ℕ, String, not, Option, none, some, List, [], ◌∷◌, ◌==◌, if◌then◌else◌, trim_space, strip_prefix,
}
use nexus_ai_gateway.Domain.Errors.{Err, nil, Code, new, Result, ok, err}
use nexus_ai_gateway.Domain.Keys.{
  ApiKey, new_api_key, is_active, scope_admin, scope_inference_write, scope_usage_read,
}
use nexus_ai_gateway.Domain.Tenancy.{Organization, Project}
use nexus_ai_gateway.Auth.Keys.{generate_key, hash_key}
use nexus_ai_gateway.Storage.Tenancy.{Tables, create_key, get_by_hash, revoke}
use nexus_ai_gateway.Http.Supabase.{SupabaseUser, Supabase, CliAuth, validate_supabase_token}
use nexus_ai_gateway.Http.Provision.{Access, ensure_organization, ensure_project}
use nexus_ai_gateway.Http.Response.{ErrorResponse, write_error}

-- `body_token` is the access token of the decoded body, `none` where the body does not decode.
pub record CliRequest : Type 0 where
  pub method : String
  pub authorization : String
  pub body_token : Option String

unfoldable pub bearer_token : String → String
bearer_token header = elim (strip_prefix header "Bearer ") [ none ↦ "" | some token ↦ token ]

unfoldable pub token_of : CliRequest → String
token_of r =
    let token = bearer_token r.authorization in
    trim_space (if token == "" then elim r.body_token [ none ↦ "" | some t ↦ t ] else token)

-- The clock, randomness and the UUID of one request, and the faults of the keys' statements.
pub record CliSurroundings : Type 0 where
  pub now : ℕ
  pub uuid : String
  pub random : Option String
  pub lookup_fault : Err
  pub revoke_fault : Err
  pub store_fault : Err

pub data CliReply : Type 0 where
  issued :
      (api_key : String) (project_id : String) (organization_id : String) (email : String)
      → CliReply
  rotated : (api_key : String) (project_id : String) → CliReply
  declined : ErrorResponse → CliReply

unfoldable pub decline : String → Err → Option CliReply
decline request_id e = elim (write_error request_id e) [ none ↦ none | some r ↦ some (declined r) ]

abbrev pub cli_scopes : List String
cli_scopes = scope_admin ∷ scope_inference_write ∷ scope_usage_read ∷ []

-- What the client is told where no key can be generated, hashed or stored.
pub record Messages : Type 0 where
  pub generating : String
  pub hashing : String
  pub storing : String

abbrev pub issue_messages : Messages
issue_messages = record {
  generating = "failed to generate api key";
  hashing = "failed to hash api key";
  storing = "failed to store api key";
}

abbrev pub rotate_messages : Messages
rotate_messages = record {
  generating = "failed to rotate api key";
  hashing = "failed to rotate api key";
  storing = "failed to store rotated api key";
}

unfoldable pub after_store : Messages → String → Err × List ApiKey → Result String × List ApiKey
after_store m plaintext (nil, rows) = (ok plaintext, rows)
after_store m plaintext (e, rows) = (err (new Code.internal m.storing), rows)

module _ (sha256_hex : String → String) (s : CliSurroundings) where
  -- A key that does not expire is generated, hashed and stored; the plaintext is returned.
  unfoldable pub store_new_key :
      Messages → String → List String → List ApiKey → Result String × List ApiKey
  store_new_key m project_id scopes rows = elim (generate_key "live" s.random) [
    | err _ ↦ (err (new Code.internal m.generating), rows)
    | ok (plaintext, prefix) ↦ elim (hash_key sha256_hex plaintext) [
      | err _ ↦ (err (new Code.internal m.hashing), rows)
      | ok hash ↦ after_store m plaintext (
          create_key s.store_fault (new_api_key s.uuid s.now project_id hash prefix scopes none)
            rows)
    ]
  ]

  module _ (request_id : String) where
    unfoldable pub issued_reply :
        SupabaseUser → Organization → Project → Result String → Option CliReply
    issued_reply user org project (err e) = decline request_id e
    issued_reply user org project (ok plaintext) =
        some (issued plaintext project.id org.id user.email)

    -- Step 5.
    unfoldable pub issue_key :
        SupabaseUser → Organization → Project → Tables → Option CliReply × Tables
    issue_key user org project t =
        let (answer, keys) = store_new_key issue_messages project.id cli_scopes t.keys in
        (issued_reply user org project answer, record t { keys = keys })

    unfoldable pub with_project :
        SupabaseUser → Organization → Tables → Option Project → Option CliReply × Tables
    with_project user org t none =
        (decline request_id (new Code.internal "failed to provision project"), t)
    with_project user org t (some project) = issue_key user org project t

    module _ (orgs : Access Organization) (projects : Access Project) where
      unfoldable pub with_organization :
          SupabaseUser → Tables → Option Organization → Option CliReply × Tables
      with_organization user t none =
          (decline request_id (new Code.internal "failed to provision organization"), t)
      with_organization user t (some org) =
          let (project, rows) = ensure_project projects s.now user org t.projects in
          with_project user org (record t { projects = rows }) project

      unfoldable pub with_user : Result SupabaseUser → Tables → Option CliReply × Tables
      with_user (err _) t =
          (decline request_id (new Code.unauthorized "invalid or expired authentication token"), t)
      with_user (ok user) t =
          let (org, rows) = ensure_organization orgs s.now user t.organizations in
          with_organization user (record t { organizations = rows }) org

      -- `ServeHTTP`
      unfoldable pub serve_cli_key :
          Supabase → CliAuth → CliRequest → Tables → Option CliReply × Tables
      serve_cli_key supabase h r t =
          if not (r.method == "POST")
          then (decline request_id (new Code.bad_request "method not allowed"), t)
          else if token_of r == ""
          then (decline request_id (new Code.unauthorized "missing authentication token"), t)
          else with_user (validate_supabase_token supabase h (token_of r)) t

    unfoldable pub rotated_reply : ApiKey → Result String → Option CliReply
    rotated_reply old (err e) = decline request_id e
    rotated_reply old (ok plaintext) = some (rotated plaintext old.project_id)

    -- The error of the revocation is dropped.
    unfoldable pub replace_key : ApiKey → List ApiKey → Option CliReply × List ApiKey
    replace_key old rows =
        let (answer, keys) =
          store_new_key rotate_messages old.project_id old.scopes
            (revoke s.revoke_fault old.id rows).1 in
        (rotated_reply old answer, keys)

    unfoldable pub rotate_found : Result ApiKey → List ApiKey → Option CliReply × List ApiKey
    rotate_found (err _) rows = (
      decline request_id (new Code.unauthorized "key is invalid, expired, or already revoked"),
      rows,
    )
    rotate_found (ok old) rows =
        if not (is_active s.now old)
        then (
          decline request_id (new Code.unauthorized "key is invalid, expired, or already revoked"),
          rows,
        )
        else replace_key old rows

    unfoldable pub rotate_hashed : Result String → List ApiKey → Option CliReply × List ApiKey
    rotate_hashed (err _) rows =
        (decline request_id (new Code.bad_request "invalid API key format"), rows)
    rotate_hashed (ok hash) rows = rotate_found (get_by_hash s.lookup_fault hash rows) rows

    -- `RotateKey`, given the Authorization header.
    unfoldable pub rotate_key : String → List ApiKey → Option CliReply × List ApiKey
    rotate_key authorization rows =
        let token = trim_space (bearer_token authorization) in
        if token == ""
        then (decline request_id (new Code.unauthorized "missing API key to rotate"), rows)
        else rotate_hashed (hash_key sha256_hex token) rows
