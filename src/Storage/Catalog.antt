-- ===== src/Storage/Catalog.antt =====
-- internal/storage/postgres/provider_repo.go, routing_policy_repo.go and model_alias_repo.go. The JSON
-- columns of a policy come back as they were stored.
pub mod Laws
pub mod Found
use nexus_ai_gateway.Prelude.{
  ℕ, ◌+◌, String, Bool, true, false, ◌&&◌, some, none, List, [], ◌∷◌, ◌==◌, eqb, ltb, if◌then◌else◌,
}
use Prim.Native.Char.{code}
use Prim.Native.String.{[] as ε, ◌∷◌ as ◌⊳◌}
use nexus_ai_gateway.Domain.Errors.{Err, nil, Result, ok, err}
use nexus_ai_gateway.Domain.Models.{ProviderConnection, ModelAlias, default_model_aliases}
use nexus_ai_gateway.Domain.Policy.{RoutingPolicy}
use nexus_ai_gateway.Storage.Rows.{scanned, select_row, insert_row, update_found, select_newest}
use nexus_ai_gateway.Storage.Merging.{upsert_row, delete_found, select_ordered}

unfoldable pub is_connection : String → String → ProviderConnection → Bool
is_connection project_id provider c = c.project_id == project_id && c.provider == provider

unfoldable pub merge_connection : ProviderConnection → ProviderConnection → ProviderConnection
merge_connection p row = record row { secret_ref = p.secret_ref; enabled = p.enabled }

unfoldable pub create_connection :
    Err → ProviderConnection → List ProviderConnection → Err × List ProviderConnection
create_connection fault p rows =
    upsert_row fault (is_connection p.project_id p.provider) (merge_connection p) p rows

unfoldable pub get_connection : Err → String → List ProviderConnection → Result ProviderConnection
get_connection fault id rows = select_row fault (λ c. c.id == id) rows

unfoldable pub get_by_project_and_provider :
    Err → String → String → List ProviderConnection → Result ProviderConnection
get_by_project_and_provider fault project_id provider rows =
    select_row fault (is_connection project_id provider) rows

unfoldable pub list_connections :
    Err → String → List ProviderConnection → Result (List ProviderConnection)
list_connections fault project_id rows =
    select_ordered fault (λ c d. ltb c.created_at d.created_at) (λ c. c.project_id == project_id)
      rows

unfoldable pub delete_connection :
    Err → String → List ProviderConnection → Err × List ProviderConnection
delete_connection fault id rows = delete_found fault (λ c. c.id == id) rows

unfoldable pub create_policy : Err → RoutingPolicy → List RoutingPolicy → Err × List RoutingPolicy
create_policy fault p rows = insert_row fault p rows

unfoldable pub get_policy : Err → String → List RoutingPolicy → Result RoutingPolicy
get_policy fault id rows = select_row fault (λ p. p.id == id) rows

unfoldable pub first_row : {A : Type 0} → Result (List A) → Result A
first_row (ok []) = scanned none
first_row (ok (a ∷ rows)) = scanned (some a)
first_row (err e) = err e

unfoldable pub is_active_policy : String → RoutingPolicy → Bool
is_active_policy project_id p = p.project_id == project_id && p.active

-- ORDER BY created_at DESC LIMIT 1
unfoldable pub get_active_by_project : Err → String → List RoutingPolicy → Result RoutingPolicy
get_active_by_project fault project_id rows =
    first_row (select_newest fault (λ p. p.created_at) (is_active_policy project_id) rows)

unfoldable pub deactivate : Err → ℕ → String → List RoutingPolicy → Err × List RoutingPolicy
deactivate fault now id rows =
    update_found fault (λ p. p.id == id) (λ p. record p { active = false; updated_at = now }) rows

unfoldable pub is_alias : String → ModelAlias → Bool
is_alias alias m = m.alias == alias

-- ON CONFLICT (alias) DO NOTHING
unfoldable pub create_alias : Err → ModelAlias → List ModelAlias → Err × List ModelAlias
create_alias fault m rows = upsert_row fault (is_alias m.alias) (λ row. row) m rows

unfoldable pub get_by_alias : Err → String → List ModelAlias → Result ModelAlias
get_by_alias fault alias rows = select_row fault (is_alias alias) rows

-- The order of texts by their code points, which is that of the "C" collation.
unfoldable pub text_before : String → String → Bool
text_before ε ε = false
text_before ε (_ ⊳ _) = true
text_before (_ ⊳ _) ε = false
text_before (c ⊳ s) (d ⊳ t) =
    let rest = text_before s t in
    if ltb (code c) (code d) then true else if eqb (code c) (code d) then rest else false

unfoldable pub list_active : Err → List ModelAlias → Result (List ModelAlias)
list_active fault rows =
    select_ordered fault (λ m n. text_before m.alias n.alias) (λ m. m.active) rows

-- The loop of `SeedDefaults`; `faults n` is that of the n-th statement.
unfoldable pub go_on :
    (List ModelAlias → Err × List ModelAlias) → Err × List ModelAlias → Err × List ModelAlias
go_on next (nil, rows) = next rows
go_on next (e, rows) = (e, rows)

unfoldable pub seed_each : (ℕ → Err) → ℕ → List ModelAlias → List ModelAlias → Err × List ModelAlias
seed_each faults n [] rows = (nil, rows)
seed_each faults n (m ∷ ms) rows =
    go_on (seed_each faults (n + 1) ms) (create_alias (faults n) m rows)

unfoldable pub seed_defaults :
    (ℕ → Err) → (ℕ → String) → ℕ → List ModelAlias → Err × List ModelAlias
seed_defaults faults uuid now rows = seed_each faults 0 (default_model_aliases uuid now) rows
