-- ===== src/Storage/Catalog/Found.antt =====
-- What is read back from the tables of provider connections and of routing policies.
use nexus_ai_gateway.Prelude.{
  ℕ, ◌<◌, ◌≡◌, refl, ap, Bool, true, false, List, [], ◌∷◌, ◌++◌, All, eq_refl, leb, arith,
  Bool-cases, inl, inr,
}
use nexus_ai_gateway.Domain.Errors.{nil, ok}
use nexus_ai_gateway.Domain.Models.{ProviderConnection}
use nexus_ai_gateway.Domain.Policy.{RoutingPolicy}
use nexus_ai_gateway.Storage.Rows.{
  find_row, scanned, select_row, insert_row, insert_newest, newest_first, select_newest,
}
use nexus_ai_gateway.Storage.Merging.Laws.{merged_with, find_row-upsert_row}
use nexus_ai_gateway.Storage.Catalog.{
  is_connection, merge_connection, create_connection, get_by_project_and_provider, create_policy,
  first_row, is_active_policy, get_active_by_project,
}

-- A connection is read back under its project and provider. One that is there keeps its ID and time,
-- and takes the new secret.
pub create_connection-get :
    (c : ProviderConnection) (rows : List ProviderConnection)
    → get_by_project_and_provider nil c.project_id c.provider (create_connection nil c rows).1
      ≡ ok (
          merged_with
            (merge_connection c)
            c
            (find_row (is_connection c.project_id c.provider) rows))
unfolding get_by_project_and_provider select_row scanned create_connection is_connection
    merge_connection
create_connection-get c rows = ap scanned (
    find_row-upsert_row (is_connection c.project_id c.provider) (merge_connection c) c rows
      (λ b. refl) (rw (eq_refl c.project_id, eq_refl c.provider) refl))

newest_first-last :
    {A : Type 0} (time : A → ℕ) (p : A → Bool) (rows : List A) (a : A)
    → p a ≡ true
    → All (λ b. time b < time a) rows
    → newest_first time p (rows ++ (a ∷ [])) ≡ a ∷ newest_first time p rows
unfolding newest_first insert_newest
newest_first-last time p [] a h _ = rw h refl
newest_first-last time p (b ∷ rows) a h (lt, later) =
    let e = newest_first-last time p rows a h later in
    let late : leb (time a) (time b) ≡ false = ground arith in
    rw e (elim (Bool-cases (p b)) [ inl k ↦ rw (k, late) refl | inr k ↦ rw k refl ])

-- An active policy that is stored after all others is the one that its project's requests are routed by.
pub create_policy-governs :
    (p : RoutingPolicy) (rows : List RoutingPolicy)
    → p.active ≡ true
    → All (λ q. q.created_at < p.created_at) rows
    → get_active_by_project nil p.project_id (create_policy nil p rows).1 ≡ ok p
unfolding get_active_by_project create_policy insert_row select_newest first_row scanned
    is_active_policy
create_policy-governs p rows active later =
    ap (λ r. first_row (ok r))
      (newest_first-last (λ q. q.created_at) (is_active_policy p.project_id) rows p
        (governs p active) later)
  where
    governs : (q : RoutingPolicy) → q.active ≡ true → is_active_policy q.project_id q ≡ true
    governs q a = rw (a, eq_refl q.project_id) refl
