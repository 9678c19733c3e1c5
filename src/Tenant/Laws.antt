-- ===== src/Tenant/Laws.antt =====
-- A resolved tenant is the active project of the key and the active organization of the project.
use nexus_ai_gateway.Prelude.{
  ◌≡◌, ap, ◌∙◌, sym, Option, none, some, ◌==◌, eq_iff, arith, ◌↔◌, Bool-cases, inl, inr,
}
use nexus_ai_gateway.Domain.Errors.{Err, nil, ok, err}
use nexus_ai_gateway.Domain.Keys.{ApiKey}
use nexus_ai_gateway.Domain.Tenancy.{Organization, Project}
use nexus_ai_gateway.Tenant.{
  TenantContext, ProjectStore, OrganizationStore, resolve_organization, resolve_project, resolve,
}

abbrev pub IsTenant : ProjectStore → OrganizationStore → ApiKey → TenantContext → Type 0
IsTenant projects orgs key tc =
    (tc.api_key ≡ key)
    × (projects key.project_id ≡ (some tc.project, nil))
    × (tc.project.status ≡ "active")
    × (orgs tc.project.organization_id ≡ (some tc.organization, nil))
    × (tc.organization.status ≡ "active")

resolve_organization-ok :
    (key : ApiKey) (project : Project) (answer : Option Organization × Err) (tc : TenantContext)
    → resolve_organization key project answer ≡ ok tc
    → (tc.api_key ≡ key)
      × (tc.project ≡ project)
      × (answer ≡ (some tc.organization, nil))
      × (tc.organization.status ≡ "active")
unfolding resolve_organization
resolve_organization-ok key project (none, nil) tc h = cc
resolve_organization-ok key project (some org, nil) tc h =
    ground (arith, eq_iff org.status "active")
resolve_organization-ok key project (_, e) tc h = cc

resolve_project-ok :
    (orgs : OrganizationStore) (key : ApiKey) (answer : Option Project × Err) (tc : TenantContext)
    → resolve_project orgs key answer ≡ ok tc
    → (tc.api_key ≡ key)
      × (answer ≡ (some tc.project, nil))
      × (tc.project.status ≡ "active")
      × (orgs tc.project.organization_id ≡ (some tc.organization, nil))
      × (tc.organization.status ≡ "active")
unfolding resolve_project
resolve_project-ok orgs key (none, nil) tc h = cc
resolve_project-ok orgs key (some project, nil) tc h =
    elim (Bool-cases (project.status == "active")) [
      | inr idle ↦ absurd (refused (rw idle at h))
      | inl active ↦
          let (k, pe, o, os) = resolve_organization-ok key project _ tc (rw active at h) in
          (
            k,
            ap (λ x. (some x, nil)) (sym pe),
            ap (λ x. x.status) pe ∙ (eq_iff project.status "active").0 active,
            ap (λ x. orgs x.organization_id) pe ∙ o,
            os,
          )
    ]
  where
    refused : {e : Err} → err e ≡ ok tc → ⊥
    refused q = cc
resolve_project-ok orgs key (_, e) tc h = cc

resolve-tenant :
    (projects : ProjectStore) (orgs : OrganizationStore) (key : ApiKey) (tc : TenantContext)
    → IsTenant projects orgs key tc
    → resolve projects orgs (some key) ≡ ok tc
unfolding resolve resolve_project resolve_organization
resolve-tenant projects orgs key tc (k, p, ps, o, os) =
    let e = (eq_iff tc.project.status "active").1 ps in
    let f = (eq_iff tc.organization.status "active").1 os in
    rw p (rw e (rw o (rw f (ap (λ x. ok (record tc { api_key = x })) (sym k)))))

-- A key resolves to a tenant exactly if both stores answer without an error and project and
-- organization are active; the tenant is then those of the stores.
pub resolve-ok_iff :
    (projects : ProjectStore) (orgs : OrganizationStore) (key : ApiKey) (tc : TenantContext)
    → (resolve projects orgs (some key) ≡ ok tc) ↔ IsTenant projects orgs key tc
unfolding resolve
resolve-ok_iff projects orgs key tc =
    (resolve_project-ok orgs key (projects key.project_id) tc, resolve-tenant projects orgs key tc)
