-- ===== src/Http/Chat/Errors.antt =====
-- The errors that the guards of `ServeHTTP` return are answered.
use nexus_ai_gateway.Prelude.{ℕ, String, ◌≡◌, subst, Option, none, some, ◌==◌, Bool-cases, inl, inr}
use nexus_ai_gateway.Domain.Errors.{
  Err, nil, Code, Result, ok, err, new, err_unauthorized, err_forbidden, err_key_revoked,
  err_key_expired, err_rate_limit_exceeded,
}
use nexus_ai_gateway.Domain.Keys.{ApiKey, key_status_revoked, is_expired, is_active}
use nexus_ai_gateway.Domain.Tenancy.{Organization, Project, status_active}
use nexus_ai_gateway.Http.Response.Laws.{IsSendable}
use nexus_ai_gateway.Storage.Redis.{Redis}
use nexus_ai_gateway.Auth.Validator.{
  KeyCodec, KeyStore, validate_key_status, validate_stored, validate_from, validate_hashed,
  validate,
}
use nexus_ai_gateway.Tenant.{
  ProjectStore, OrganizationStore, resolve, resolve_project, resolve_organization,
}

-- An error, if it is one, can be sent.
pub data IsProper {ℓ} {A : Type ℓ} : Result A → Type ℓ where
  fine : (a : A) → IsProper (ok a)
  proper : (e : Err) → IsSendable e → IsProper (err e)

pub IsProper-IsSendable {ℓ} :
    {A : Type ℓ} (x : Result A) (e : Err) → IsProper x → x ≡ err e → IsSendable e
IsProper-IsSendable _ e (fine a) h = cc
IsProper-IsSendable _ e (proper f n) h = let same : f ≡ e = cc in subst IsSendable same n

pub new-IsSendable : (c : Code) (message : String) → IsSendable (new c message)
unfolding new
new-IsSendable c message = tt

pub unauthorized-IsSendable : IsSendable err_unauthorized
unfolding err_unauthorized new
unauthorized-IsSendable = tt

pub forbidden-IsSendable : IsSendable err_forbidden
unfolding err_forbidden new
forbidden-IsSendable = tt

pub limited-IsSendable : IsSendable err_rate_limit_exceeded
unfolding err_rate_limit_exceeded new
limited-IsSendable = tt

validate_key_status-IsProper : (now : ℕ) (key : ApiKey) → IsProper (validate_key_status now key)
unfolding validate_key_status err_key_revoked err_key_expired new
validate_key_status-IsProper now key = elim (Bool-cases (key.status == key_status_revoked)) [
  | inl e ↦ rw e (proper _ tt)
  | inr e ↦ elim (Bool-cases (is_expired now key)) [
    | inl f ↦ rw (e, f) (proper _ tt)
    | inr f ↦ elim (Bool-cases (is_active now key)) [
      | inl g ↦ rw (e, f, g) (fine key)
      | inr g ↦ rw (e, f, g) (proper _ unauthorized-IsSendable)
    ]
  ]
]

module _ (r : Redis) (codec : KeyCodec) (sha256_hex : String → String) where
  open r use {State}

  validate_stored-IsProper :
      (now ttl : ℕ) (hash : String) (answer : Option ApiKey × Err) (cache : Option State)
      → IsProper (validate_stored r codec now ttl hash answer cache).0
  unfolding validate_stored
  validate_stored-IsProper now ttl hash (some key, nil) cache = validate_key_status-IsProper now key
  validate_stored-IsProper now ttl hash (_, _) cache = proper _ unauthorized-IsSendable

  validate_from-IsProper :
      (now ttl : ℕ) (keys : KeyStore) (hash : String) (hit : Option ApiKey) (cache : Option State)
      → IsProper (validate_from r codec now ttl keys hash hit cache).0
  unfolding validate_from
  validate_from-IsProper now ttl keys hash (some key) cache = validate_key_status-IsProper now key
  validate_from-IsProper now ttl keys hash none cache =
      validate_stored-IsProper now ttl hash _ cache

  validate_hashed-IsProper :
      (now ttl : ℕ) (keys : KeyStore) (hash : Result String) (cache : Option State)
      → IsProper (validate_hashed r codec now ttl keys hash cache).0
  unfolding validate_hashed
  validate_hashed-IsProper now ttl keys (err e) cache = proper _ unauthorized-IsSendable
  validate_hashed-IsProper now ttl keys (ok hash) cache =
      validate_from-IsProper now ttl keys hash _ cache

  pub validate-IsProper :
      (now ttl : ℕ) (keys : KeyStore) (plaintext : String) (cache : Option State)
      → IsProper (validate r codec sha256_hex now ttl keys plaintext cache).0
  unfolding validate
  validate-IsProper now ttl keys plaintext cache = elim (Bool-cases (plaintext == "")) [
    | inl e ↦ rw e (proper _ unauthorized-IsSendable)
    | inr e ↦ rw e (validate_hashed-IsProper now ttl keys _ cache)
  ]

resolve_organization-IsProper :
    (key : ApiKey) (project : Project) (answer : Option Organization × Err)
    → IsProper (resolve_organization key project answer)
unfolding resolve_organization new
resolve_organization-IsProper key project (none, nil) = proper _ tt
resolve_organization-IsProper key project (some org, nil) =
    elim (Bool-cases (org.status == status_active)) [
      | inl e ↦ rw e (fine _)
      | inr e ↦ rw e (proper _ tt)
    ]
resolve_organization-IsProper key project (_, e) = proper _ tt

resolve_project-IsProper :
    (orgs : OrganizationStore) (key : ApiKey) (answer : Option Project × Err)
    → IsProper (resolve_project orgs key answer)
unfolding resolve_project new
resolve_project-IsProper orgs key (none, nil) = proper _ tt
resolve_project-IsProper orgs key (some project, nil) =
    elim (Bool-cases (project.status == status_active)) [
      | inl e ↦ rw e (resolve_organization-IsProper key project _)
      | inr e ↦ rw e (proper _ tt)
    ]
resolve_project-IsProper orgs key (_, e) = proper _ tt

pub resolve-IsProper :
    (projects : ProjectStore) (orgs : OrganizationStore) (key : ApiKey)
    → IsProper (resolve projects orgs (some key))
unfolding resolve
resolve-IsProper projects orgs key = resolve_project-IsProper orgs key _
