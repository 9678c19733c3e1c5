-- ===== src/Domain/Tenancy.antt =====
-- internal/domain/organization.go and project.go.
use nexus_ai_gateway.Prelude.{ℕ, String, ◌^◌, not, ◌&&◌, ◌==◌, if◌then◌else◌, trim_space}
use nexus_ai_gateway.Domain.Errors.{Err, nil, new, Code}

abbrev pub status_active : String
status_active = "active"

abbrev pub status_suspended : String
status_suspended = "suspended"

abbrev pub status_deleted : String
status_deleted = "deleted"

abbrev pub env_production : String
env_production = "production"

pub record Organization : Type 0 where
  pub id : String
  pub name : String
  pub status : String
  pub created_at : ℕ
  pub updated_at : ℕ

pub record Project : Type 0 where
  pub id : String
  pub organization_id : String
  pub name : String
  pub environment : String
  pub status : String
  pub created_at : ℕ
  pub updated_at : ℕ

unfoldable pub new_organization : String → ℕ → String → Organization
new_organization uuid now name = record {
  id = "org_" ^ uuid;
  name = trim_space name;
  status = status_active;
  created_at = now;
  updated_at = now;
}

unfoldable pub validate_organization : Organization → Err
validate_organization o =
    if trim_space o.name == ""
    then new Code.bad_request "organization name is required"
    else if not (o.status == status_active)
        && not (o.status == status_suspended)
        && not (o.status == status_deleted)
    then new Code.bad_request "invalid organization status"
    else nil

unfoldable pub new_project : String → ℕ → String → String → String → Project
new_project uuid now org_id name env = record {
  id = "prj_" ^ uuid;
  organization_id = org_id;
  name = trim_space name;
  environment = if env == "" then env_production else env;
  status = status_active;
  created_at = now;
  updated_at = now;
}

unfoldable pub validate_project : Project → Err
validate_project p =
    if trim_space p.organization_id == ""
    then new Code.bad_request "organization_id is required"
    else if trim_space p.name == ""
    then new Code.bad_request "project name is required"
    else if not (p.environment == env_production)
        && not (p.environment == "development")
        && not (p.environment == "staging")
    then new Code.bad_request "invalid environment"
    else nil
