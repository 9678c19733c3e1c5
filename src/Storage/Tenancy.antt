-- ===== src/Storage/Tenancy.antt =====
-- internal/storage/postgres/organization_repo.go, project_repo.go and api_key_repo.go, over the tables
-- of Rows. A name like `create_key` is `Create` of the keys' repository.
use nexus_ai_gateway.Prelude.{ℕ, String, Bool, not, ◌&&◌, List, ◌==◌}
use nexus_ai_gateway.Domain.Errors.{Err, Result}
use nexus_ai_gateway.Domain.Keys.{ApiKey, key_status_revoked}
use nexus_ai_gateway.Domain.Tenancy.{Organization, Project, status_deleted}
use nexus_ai_gateway.Storage.Rows.{select_row, insert_row, update_found, select_newest}

-- The three tables that a handler shares.
pub record Tables : Type 0 where
  pub organizations : List Organization
  pub projects : List Project
  pub keys : List ApiKey

unfoldable pub create_key : Err → ApiKey → List ApiKey → Err × List ApiKey
create_key fault key rows = insert_row fault key rows

unfoldable pub get_key_by_id : Err → String → List ApiKey → Result ApiKey
get_key_by_id fault id rows = select_row fault (λ k. k.id == id) rows

unfoldable pub has_hash : String → ApiKey → Bool
has_hash hash k = k.hash == hash

unfoldable pub get_by_hash : Err → String → List ApiKey → Result ApiKey
get_by_hash fault hash rows = select_row fault (has_hash hash) rows

unfoldable pub list_keys : Err → String → List ApiKey → Result (List ApiKey)
list_keys fault project_id rows =
    select_newest fault (λ k. k.created_at) (λ k. k.project_id == project_id) rows

unfoldable pub set_revoked : ApiKey → ApiKey
set_revoked k = record k { status = key_status_revoked }

unfoldable pub revoke : Err → String → List ApiKey → Err × List ApiKey
revoke fault id rows = update_found fault (λ k. k.id == id) set_revoked rows

unfoldable pub create_organization :
    Err → Organization → List Organization → Err × List Organization
create_organization fault o rows = insert_row fault o rows

unfoldable pub is_organization : String → Organization → Bool
is_organization id o = o.id == id

unfoldable pub get_organization : Err → String → List Organization → Result Organization
get_organization fault id rows = select_row fault (is_organization id) rows

-- `Update` stamps the entity with the clock and writes its name and status.
unfoldable pub update_organization :
    Err → ℕ → Organization → List Organization → Err × List Organization
update_organization fault now o rows =
    update_found fault (λ row. row.id == o.id)
      (λ row. record row { name = o.name; status = o.status; updated_at = now }) rows

-- `Delete` is an update of the status.
unfoldable pub delete_organization : Err → ℕ → String → List Organization → Err × List Organization
delete_organization fault now id rows =
    update_found fault (λ row. row.id == id)
      (λ row. record row { status = status_deleted; updated_at = now }) rows

unfoldable pub create_project : Err → Project → List Project → Err × List Project
create_project fault p rows = insert_row fault p rows

unfoldable pub is_project : String → Project → Bool
is_project id p = p.id == id

unfoldable pub get_project : Err → String → List Project → Result Project
get_project fault id rows = select_row fault (is_project id) rows

unfoldable pub list_projects : Err → String → List Project → Result (List Project)
list_projects fault org_id rows =
    select_newest fault (λ p. p.created_at)
      (λ p. p.organization_id == org_id && not (p.status == status_deleted)) rows

unfoldable pub update_project : Err → ℕ → Project → List Project → Err × List Project
update_project fault now p rows =
    update_found fault (λ row. row.id == p.id)
      (λ row. record row {
        name = p.name;
        environment = p.environment;
        status = p.status;
        updated_at = now;
      })
      rows

unfoldable pub delete_project : Err → ℕ → String → List Project → Err × List Project
delete_project fault now id rows =
    update_found fault (λ row. row.id == id)
      (λ row. record row { status = status_deleted; updated_at = now }) rows
