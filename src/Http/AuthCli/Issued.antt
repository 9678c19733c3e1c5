-- ===== src/Http/AuthCli/Issued.antt =====
-- internal/http/handlers/auth_cli.go: what `ServeHTTP` provisions for a user.
use nexus_ai_gateway.Prelude.{
  ℕ, String, ◌^◌, ◌≡◌, refl, ap, ◌∙◌, subst, Bool, true, false, Option, none, some, List, [], ◌∷◌,
  ◌==◌, eq_refl, eq_iff, Bool-cases, Option-cases, inl, inr,
}
use nexus_ai_gateway.Domain.Errors.{Err, nil, ok}
use nexus_ai_gateway.Domain.Keys.{new_api_key, is_active, is_expired}
use nexus_ai_gateway.Domain.Tenancy.{Organization, Project}
use nexus_ai_gateway.Storage.Rows.{find_row, scanned, select_row, insert_row, find_row-append}
use nexus_ai_gateway.Storage.Tenancy.{Tables, has_hash, get_by_hash, is_organization, is_project}
use nexus_ai_gateway.Http.Provision.{
  Access, organization_of, project_of, created_or, ensure_row, ensure_organization, ensure_project,
}
use nexus_ai_gateway.Http.Supabase.{Supabase, SupabaseUser, CliAuth, validate_supabase_token}
use nexus_ai_gateway.Http.AuthCli.{
  CliRequest, CliSurroundings, CliReply, issued, cli_scopes, issue_messages, token_of, issued_reply,
  issue_key, with_project, with_organization, with_user, serve_cli_key,
}
use nexus_ai_gateway.Http.AuthCli.Laws.{plaintext_of, new_hash, new_row, store_new_key-stored}

module _ {A : Type 0} where
  some-inj : {a b : A} → some a ≡ some b → a ≡ b
  some-inj h = cc

  none≢some : {a : A} {o : Option A} → o ≡ none → o ≡ some a → ⊥
  none≢some h k = cc

  find_row-holds : (p : A → Bool) (rows : List A) (a : A) → find_row p rows ≡ some a → p a ≡ true
  unfolding find_row
  find_row-holds p [] a h = cc h
  find_row-holds p (b ∷ rows) a h = elim (Bool-cases (p b)) [
    | inl e ↦ let h' : some b ≡ some a = rw e at h in subst (λ x. p x ≡ true) (some-inj h') e
    | inr e ↦ let h' : find_row p rows ≡ some a = rw e at h in find_row-holds p rows a h'
  ]

  -- The row stands in the table, which is as before if the row stood there then.
  record Ensured (named : A → Bool) (before : List A) (result : Option A × List A) : Type 0 where
    row : A
    given : result.0 ≡ some row
    stands : find_row named result.1 ≡ some row
    unchanged : (old : A) → find_row named before ≡ some old → result.1 ≡ before

  ensure_row-Ensured :
      (read_fault create_fault reread_fault : Err) (others : List A → List A) (named : A → Bool)
      (fresh : A) (rows : List A)
      → read_fault ≡ nil
      → create_fault ≡ nil
      → (find_row named rows ≡ none → find_row named (others rows) ≡ none)
      → named fresh ≡ true
      → Ensured named rows (ensure_row read_fault create_fault reread_fault others named fresh rows)
  unfolding ensure_row select_row scanned created_or insert_row
  ensure_row-Ensured read_fault create_fault reread_fault others named fresh rows r c q e =
      elim (Option-cases (find_row named rows)) [
        | inl n ↦ record {
          row = fresh;
          given = rw (ensure_row, r, n, c) refl;
          stands = rw (ensure_row, r, n, c) (find_row-append named (others rows) fresh (q n) e);
          unchanged = λ old h. absurd (none≢some n h);
        }
        | inr (a, h) ↦ record {
          row = a;
          given = rw (ensure_row, r, h) refl;
          stands = rw (ensure_row, r, h) h;
          unchanged = λ old _. rw (ensure_row, r, h) refl;
        }
      ]

module _ (sha256_hex : String → String) (s : CliSurroundings) (encoded : String) where
  abbrev organization_id : SupabaseUser → String
  organization_id user = "org_" ^ user.id

  abbrev project_id : SupabaseUser → String
  project_id user = "prj_" ^ user.id

  -- The reply names the key, the project and the organization. All three stand in the tables: the
  -- organization and the project under identifiers that depend on the user alone, and the key under
  -- its hash, of that project, active at any time. Rows that were there are not touched.
  pub record IsIssued (user : SupabaseUser) (before : Tables) (result : Option CliReply × Tables)
      : Type 0 where
    pub reply :
        result.0
        ≡ some (issued (plaintext_of encoded) (project_id user) (organization_id user) user.email)
    pub organization :
        (o : Organization) × (find_row
            (is_organization (organization_id user))
            result.1.organizations
          ≡ some o)
    pub project :
        (p : Project) × (find_row (is_project (project_id user)) result.1.projects ≡ some p)
    pub key :
        get_by_hash nil (new_hash sha256_hex s encoded) result.1.keys
        ≡ ok (new_row sha256_hex s encoded (project_id user) cli_scopes)
    pub alive :
        (t : ℕ) → is_active t (new_row sha256_hex s encoded (project_id user) cli_scopes) ≡ true
    pub organizations_kept :
        (o : Organization)
        → find_row (is_organization (organization_id user)) before.organizations ≡ some o
        → result.1.organizations ≡ before.organizations
    pub projects_kept :
        (p : Project)
        → find_row (is_project (project_id user)) before.projects ≡ some p
        → result.1.projects ≡ before.projects

  module _ (request_id : String) (orgs : Access Organization) (projects : Access Project)
      (user : SupabaseUser) (t : Tables) (random : s.random ≡ some encoded)
      (stored : s.store_fault ≡ nil)
      (fresh : find_row (has_hash (new_hash sha256_hex s encoded)) t.keys ≡ none) where
    Ensured-organization :
        orgs.read_fault ≡ nil
        → orgs.create_fault ≡ nil
        → (find_row (is_organization (organization_id user)) t.organizations ≡ none
            → find_row (is_organization (organization_id user)) (orgs.others t.organizations)
              ≡ none)
        → Ensured
            (is_organization (organization_id user))
            t.organizations
            (ensure_organization orgs s.now user t.organizations)
    unfolding ensure_organization organization_of is_organization
    Ensured-organization r c q =
        ensure_row-Ensured orgs.read_fault orgs.create_fault orgs.reread_fault orgs.others
          (is_organization (organization_id user)) (organization_of s.now user) t.organizations r c
          q (eq_refl (organization_id user))

    Ensured-project :
        (org : Organization)
        → projects.read_fault ≡ nil
        → projects.create_fault ≡ nil
        → (find_row (is_project (project_id user)) t.projects ≡ none
            → find_row (is_project (project_id user)) (projects.others t.projects) ≡ none)
        → Ensured
            (is_project (project_id user))
            t.projects
            (ensure_project projects s.now user org t.projects)
    unfolding ensure_project project_of is_project
    Ensured-project org r c q =
        ensure_row-Ensured projects.read_fault projects.create_fault projects.reread_fault
          projects.others (is_project (project_id user)) (project_of s.now user org) t.projects r c
          q (eq_refl (project_id user))

    with_user-IsIssued :
        (o : Ensured
          (is_organization (organization_id user))
          t.organizations
          (ensure_organization orgs s.now user t.organizations))
        (p : Ensured
          (is_project (project_id user))
          t.projects
          (ensure_project projects s.now user o.row t.projects))
        → IsIssued user t (with_user sha256_hex s request_id orgs projects (ok user) t)
    unfolding with_user with_organization with_project issue_key issued_reply get_by_hash select_row
        scanned is_organization is_project has_hash new_api_key is_active is_expired
    with_user-IsIssued o p =
        let io : o.row.id ≡ organization_id user =
          (eq_iff o.row.id (organization_id user)).0
            (find_row-holds (is_organization (organization_id user)) _ o.row o.stands) in
        let ip : p.row.id ≡ project_id user =
          (eq_iff p.row.id (project_id user)).0
            (find_row-holds (is_project (project_id user)) _ p.row p.stands) in
        let e =
          store_new_key-stored sha256_hex s encoded issue_messages p.row.id cli_scopes t.keys random
            stored in
        rw (o.given, p.given)
          (record {
            reply =
                ap (λ x. issued_reply sha256_hex s request_id user o.row p.row x.0) e
                ∙ ap (λ x. some (issued (plaintext_of encoded) x o.row.id user.email)) ip
                ∙ ap (λ x. some (issued (plaintext_of encoded) (project_id user) x user.email)) io;
            organization = (o.row, o.stands);
            project = (p.row, p.stands);
            key =
                ap (λ x. scanned (find_row (has_hash (new_hash sha256_hex s encoded)) x.1)) e
                ∙ ap scanned (
                    find_row-append (has_hash (new_hash sha256_hex s encoded)) t.keys
                      (new_row sha256_hex s encoded p.row.id cli_scopes) fresh
                      (eq_refl (new_hash sha256_hex s encoded)))
                ∙ ap (λ x. ok (new_row sha256_hex s encoded x cli_scopes)) ip;
            alive = λ t. refl;
            organizations_kept = o.unchanged;
            projects_kept = p.unchanged;
          })

    -- A POST with a token that Supabase accepts, of any user, with random bytes, a fresh hash and no
    -- fault of the stores, issues a key: see `IsIssued`. Others may change the tables before a row is
    -- created, as long as they do not create that row.
    pub serve_cli_key-IsIssued :
        (supabase : Supabase) (h : CliAuth) (r : CliRequest)
        → (r.method == "POST") ≡ true
        → (token_of r == "") ≡ false
        → validate_supabase_token supabase h (token_of r) ≡ ok user
        → (orgs.read_fault ≡ nil) × (orgs.create_fault ≡ nil)
        → (projects.read_fault ≡ nil) × (projects.create_fault ≡ nil)
        → (find_row (is_organization (organization_id user)) t.organizations ≡ none
            → find_row (is_organization (organization_id user)) (orgs.others t.organizations)
              ≡ none)
        → (find_row (is_project (project_id user)) t.projects ≡ none
            → find_row (is_project (project_id user)) (projects.others t.projects) ≡ none)
        → IsIssued user t (serve_cli_key sha256_hex s request_id orgs projects supabase h r t)
    unfolding serve_cli_key
    serve_cli_key-IsIssued supabase h r m k v (or, oc) (pr, pc) oq pq =
        let o = Ensured-organization or oc oq in
        rw (m, k, v) (with_user-IsIssued o (Ensured-project o.row pr pc pq))
