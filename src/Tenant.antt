-- ===== src/Tenant.antt =====
-- internal/tenant/resolver.go. A store is a function from identifiers to what its query returns.
pub mod Laws
use nexus_ai_gateway.Prelude.{String, ◌^◌, Option, none, some, not, ◌==◌, if◌then◌else◌}
use nexus_ai_gateway.Domain.Errors.{Err, nil, wrapped, new, Code, err_unauthorized, Result, ok, err}
use nexus_ai_gateway.Domain.Keys.{ApiKey}
use nexus_ai_gateway.Domain.Tenancy.{Organization, Project, status_active}

pub record TenantContext : Type 0 where
  pub organization : Organization
  pub project : Project
  pub api_key : ApiKey

abbrev pub ProjectStore : Type 0
ProjectStore = String → Option Project × Err

abbrev pub OrganizationStore : Type 0
OrganizationStore = String → Option Organization × Err

unfoldable pub resolve_organization :
    ApiKey → Project → Option Organization × Err → Result TenantContext
resolve_organization key project (none, nil) =
    err (new Code.forbidden "organization is inactive or suspended")
resolve_organization key project (some org, nil) =
    if not (org.status == status_active)
    then err (new Code.forbidden "organization is inactive or suspended")
    else ok (record { organization = org; project = project; api_key = key })
resolve_organization key project (_, e) =
    err (wrapped ("failed to resolve organization " ^ project.organization_id) e)

unfoldable pub resolve_project :
    OrganizationStore → ApiKey → Option Project × Err → Result TenantContext
resolve_project orgs key (none, nil) = err (new Code.forbidden "project is inactive or suspended")
resolve_project orgs key (some project, nil) =
    if not (project.status == status_active)
    then err (new Code.forbidden "project is inactive or suspended")
    else resolve_organization key project (orgs project.organization_id)
resolve_project orgs key (_, e) = err (wrapped ("failed to resolve project " ^ key.project_id) e)

-- `Resolve`; `none` is a nil key.
unfoldable pub resolve : ProjectStore → OrganizationStore → Option ApiKey → Result TenantContext
resolve projects orgs none = err err_unauthorized
resolve projects orgs (some key) = resolve_project orgs key (projects key.project_id)
