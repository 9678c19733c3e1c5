-- ===== src/Http/Admin.antt =====
-- internal/http/handlers/organizations.go, projects.go, providers.go, api_keys.go, requests.go and
-- usage.go. A decoded body comes as what `decodeJSON` returns; `none` as a response is the panic of
-- `writeError` on nil.
pub mod Keys
pub mod Usage
pub mod Granted
pub mod Totals
use nexus_ai_gateway.Prelude.{ℕ, String, Option, none, some, List, ◌==◌, if◌then◌else◌}
use nexus_ai_gateway.Domain.Errors.{Err, nil, Code, new, Result, ok, err}
use nexus_ai_gateway.Domain.Tenancy.{
  Organization, Project, new_organization, validate_organization, new_project, validate_project,
}
use nexus_ai_gateway.Domain.Models.{
  ProviderConnection, new_provider_connection, validate_connection,
}
use nexus_ai_gateway.Domain.Requests.{RequestRecord}
use nexus_ai_gateway.Storage.Tenancy.{
  create_organization, get_organization, create_project, get_project,
}
use nexus_ai_gateway.Storage.Catalog.{create_connection, list_connections}
use nexus_ai_gateway.Storage.Records.{get_by_request_id}
use nexus_ai_gateway.Http.Response.{ErrorResponse, write_error}

-- `writeJSON` with a status and a value, or `writeError`.
pub data Answer (A : Type 0) : Type 0 where
  answered : ℕ → A → Answer A
  denied : ErrorResponse → Answer A

module _ {A : Type 0} (request_id : String) where
  unfoldable pub deny : Err → Option (Answer A)
  deny e = elim (write_error request_id e) [ none ↦ none | some r ↦ some (denied r) ]

  unfoldable pub answer : ℕ → Result A → Option (Answer A)
  answer status (ok a) = some (answered status a)
  answer status (err e) = deny e

module _ {A B : Type 0} (request_id : String) where
  -- After the statement: 201 with what the handler shows of the new row.
  unfoldable pub after_insert : B → Err × List A → Option (Answer B) × List A
  after_insert shown (nil, rows) = (some (answered 201 shown), rows)
  after_insert shown (e, rows) = (deny request_id e, rows)

  -- After `Validate`.
  unfoldable pub insert_valid :
      (List A → Err × List A) → B → Err → List A → Option (Answer B) × List A
  insert_valid insert shown nil rows = after_insert shown (insert rows)
  insert_valid insert shown e rows = (deny request_id e, rows)

-- POST /organizations
unfoldable pub post_organization :
    Err
    → String
    → String
    → ℕ
    → Result String
    → List Organization
    → Option (Answer Organization) × List Organization
post_organization fault request_id uuid now (err e) rows = (deny request_id e, rows)
post_organization fault request_id uuid now (ok name) rows =
    let org = new_organization uuid now name in
    insert_valid request_id (create_organization fault org) org (validate_organization org) rows

-- GET /organizations/{id}
unfoldable pub show_organization :
    Err → String → String → List Organization → Option (Answer Organization)
show_organization fault request_id id rows = answer request_id 200 (get_organization fault id rows)

pub record ProjectBody : Type 0 where
  pub organization_id : String
  pub name : String
  pub environment : String

-- POST /projects
unfoldable pub post_project :
    Err
    → String
    → String
    → ℕ
    → Result ProjectBody
    → List Project
    → Option (Answer Project) × List Project
post_project fault request_id uuid now (err e) rows = (deny request_id e, rows)
post_project fault request_id uuid now (ok body) rows =
    let p = new_project uuid now body.organization_id body.name body.environment in
    insert_valid request_id (create_project fault p) p (validate_project p) rows

-- GET /projects/{id}
unfoldable pub show_project : Err → String → String → List Project → Option (Answer Project)
show_project fault request_id id rows = answer request_id 200 (get_project fault id rows)

pub record ConnectionBody : Type 0 where
  pub project_id : String
  pub provider : String
  pub secret_ref : String

-- POST /providers
unfoldable pub post_connection :
    Err
    → String
    → String
    → ℕ
    → Result ConnectionBody
    → List ProviderConnection
    → Option (Answer ProviderConnection) × List ProviderConnection
post_connection fault request_id uuid now (err e) rows = (deny request_id e, rows)
post_connection fault request_id uuid now (ok body) rows =
    let conn = new_provider_connection uuid now body.project_id body.provider body.secret_ref in
    insert_valid request_id (create_connection fault conn) conn (validate_connection conn) rows

-- GET /providers
unfoldable pub show_connections :
    Err → String → String → List ProviderConnection → Option (Answer (List ProviderConnection))
show_connections fault request_id project_id rows =
    if project_id == ""
    then deny request_id (new Code.bad_request "project_id query param is required")
    else answer request_id 200 (list_connections fault project_id rows)

-- GET /requests/{requestID}
unfoldable pub show_request :
    Err → String → String → List RequestRecord → Option (Answer RequestRecord)
show_request fault request_id target_id rows =
    answer request_id 200 (get_by_request_id fault target_id rows)
