-- ===== src/Http/Provision.antt =====
-- internal/http/handlers/auth_cli.go, steps 3 and 4 of `ServeHTTP`: the organization and the project of
-- a user.
use nexus_ai_gateway.Prelude.{
  ℕ, String, ◌^◌, Bool, Option, none, some, List, ◌==◌, if◌then◌else◌, before_char, first_chars,
}
use nexus_ai_gateway.Domain.Errors.{Err, nil, Result, ok, err}
use nexus_ai_gateway.Domain.Tenancy.{Organization, Project, status_active, env_production}
use nexus_ai_gateway.Storage.Rows.{select_row, insert_row}
use nexus_ai_gateway.Storage.Tenancy.{is_organization, is_project}
use nexus_ai_gateway.Http.Supabase.{SupabaseUser}

unfoldable pub organization_name : SupabaseUser → String
organization_name user =
    if user.email == ""
    then "User-" ^ first_chars 8 user.id
    else elim (before_char b'@' user.email) [
      | none ↦ user.email
      | some name ↦ if name == "" then user.email else name ^ "'s Org"
    ]

-- The faults of the statements on one table, and what others do to it before the row is created.
pub record Access (A : Type 0) : Type 0 where
  pub read_fault : Err
  pub create_fault : Err
  pub reread_fault : Err
  pub others : List A → List A

unfoldable pub organization_of : ℕ → SupabaseUser → Organization
organization_of now user = record {
  id = "org_" ^ user.id;
  name = organization_name user;
  status = status_active;
  created_at = now;
  updated_at = now;
}

unfoldable pub project_of : ℕ → SupabaseUser → Organization → Project
project_of now user org = record {
  id = "prj_" ^ user.id;
  organization_id = org.id;
  name = "Default Project";
  environment = env_production;
  status = status_active;
  created_at = now;
  updated_at = now;
}

-- A row that could not be created may have been created by another request.
unfoldable pub created_or :
    {A : Type 0} → A → (List A → Result A) → Err × List A → Option A × List A
created_or a reread (nil, rows) = (some a, rows)
created_or a reread (e, rows) = elim (reread rows) [
  | ok fetched ↦ (some fetched, rows)
  | err _ ↦ (none, rows)
]

-- A row is read, and created if it cannot be. `none` is a failure.
unfoldable pub ensure_row :
    {A : Type 0} → Err → Err → Err → (List A → List A) → (A → Bool) → A → List A → Option A × List A
ensure_row read_fault create_fault reread_fault others named fresh rows =
    elim (select_row read_fault named rows) [
      | ok a ↦ (some a, rows)
      | err _ ↦
          created_or fresh (select_row reread_fault named)
            (insert_row create_fault fresh (others rows))
    ]

-- Steps 3 and 4, with `GetByID` and `Create` of the repositories of Storage.Tenancy.
unfoldable pub ensure_organization :
    Access Organization
    → ℕ
    → SupabaseUser
    → List Organization
    → Option Organization × List Organization
ensure_organization a now user rows =
    ensure_row a.read_fault a.create_fault a.reread_fault a.others
      (is_organization ("org_" ^ user.id)) (organization_of now user) rows

unfoldable pub ensure_project :
    Access Project → ℕ → SupabaseUser → Organization → List Project → Option Project × List Project
ensure_project a now user org rows =
    ensure_row a.read_fault a.create_fault a.reread_fault a.others (is_project ("prj_" ^ user.id))
      (project_of now user org) rows
