-- ===== src/Http/Admin/Totals.antt =====
-- What GET /usage reports.
use nexus_ai_gateway.Prelude.{
  ℕ, zero, suc, ◌≤◌, String, ◌≡◌, ◌≢◌, refl, sym, ◌∙◌, true, some, List, [], ◌∷◌, ◌==◌, length, All,
  eq_false,
}
use nexus_ai_gateway.Prelude.Int.{ℤ, pos, negsuc, ◌+ℤ◌, zero_addℤ, add_zeroℤ, add_assocℤ}
use nexus_ai_gateway.Domain.Errors.{Err, nil}
use nexus_ai_gateway.Domain.Requests.{RequestRecord}
use nexus_ai_gateway.Storage.Rows.{newest_first}
use nexus_ai_gateway.Storage.Merging.{page, select_page}
use nexus_ai_gateway.Storage.Merging.Laws.{page-length, All-page, All-newest_first}
use nexus_ai_gateway.Storage.Records.{page_limit, list_records}
use nexus_ai_gateway.Http.Admin.{answered}
use nexus_ai_gateway.Http.Admin.Usage.{Usage, totals, usage_of, usage_answer, limit_of, show_usage}

abbrev pub sum_of : (RequestRecord → ℤ) → List RequestRecord → ℤ
sum_of f [] = pos 0
sum_of f (r ∷ rs) = f r +ℤ sum_of f rs

triple :
    {a a' b b' c c' : ℤ} → a ≡ a' → b ≡ b' → c ≡ c' → ◌≡◌ {A = ℤ × ℤ × ℤ} (a, b, c) (a', b', c')
triple e f g = cc

totals-sums :
    (i o c : ℤ) (rs : List RequestRecord)
    → totals i o c rs ≡ (
      i +ℤ sum_of (λ r. r.input_tokens) rs,
      o +ℤ sum_of (λ r. r.output_tokens) rs,
      c +ℤ sum_of (λ r. r.estimated_cost) rs,
    )
unfolding totals
totals-sums i o c [] = triple (sym (add_zeroℤ i)) (sym (add_zeroℤ o)) (sym (add_zeroℤ c))
totals-sums i o c (r ∷ rs) =
    totals-sums (i +ℤ r.input_tokens) (o +ℤ r.output_tokens) (c +ℤ r.estimated_cost) rs
    ∙ triple (add_assocℤ i r.input_tokens (sum_of (λ r. r.input_tokens) rs))
        (add_assocℤ o r.output_tokens (sum_of (λ r. r.output_tokens) rs))
        (add_assocℤ c r.estimated_cost (sum_of (λ r. r.estimated_cost) rs))

-- The records are the project's, at most as many as the limit, which is 50 unless a positive one is
-- given, and the totals are the sums over these records.
pub record IsUsage (project_id : String) (limit : ℤ) (u : Usage) : Type 0 where
  pub project : u.project_id ≡ project_id
  pub owned : All (λ r. r.project_id == project_id ≡ true) u.records
  pub bounded : length u.records ≤ page_limit limit
  pub requests : u.total_requests ≡ length u.records
  pub input : u.total_input_tokens ≡ sum_of (λ r. r.input_tokens) u.records
  pub output : u.total_output_tokens ≡ sum_of (λ r. r.output_tokens) u.records
  pub both : u.total_tokens ≡ u.total_input_tokens +ℤ u.total_output_tokens
  pub cost : u.total_cost ≡ sum_of (λ r. r.estimated_cost) u.records

page_limit-limit_of : (limit : ℤ) → page_limit (limit_of limit) ≡ page_limit limit
unfolding page_limit limit_of
page_limit-limit_of (pos zero) = refl
page_limit-limit_of (pos (suc n)) = refl
page_limit-limit_of (negsuc n) = refl

module _ (project_id : String) (limit : ℤ) (offset : ℕ) (rows : List RequestRecord) where
  -- The page of the table.
  abbrev shown : List RequestRecord
  shown =
      page (page_limit limit) offset
        (newest_first (λ r. r.created_at) (λ r. r.project_id == project_id) rows)

  usage_of-IsUsage : IsUsage project_id limit (usage_of project_id shown)
  unfolding usage_of
  usage_of-IsUsage = rw (totals-sums (pos 0) (pos 0) (pos 0) shown) (record {
    project = refl;
    owned =
        All-page (λ r. r.project_id == project_id ≡ true) (page_limit limit) offset _
          (All-newest_first (λ r. r.created_at) (λ r. r.project_id == project_id) rows);
    bounded = page-length (page_limit limit) offset _;
    requests = refl;
    input = zero_addℤ _;
    output = zero_addℤ _;
    both = refl;
    cost = zero_addℤ _;
  })

  -- With a project and an offset that is not negative, GET /usage answers 200, for any limit: the
  -- records are the project's, at most as many as the limit, which is 50 unless a positive one is given,
  -- and the totals are the sums over these records.
  pub show_usage-IsUsage :
      (negative : Err) (request_id : String)
      → project_id ≢ ""
      → (u : Usage) × (show_usage nil negative request_id project_id limit (pos offset) rows
          ≡ some (answered 200 u))
        × IsUsage project_id limit u
  unfolding show_usage list_records select_page usage_answer
  show_usage-IsUsage negative request_id h = (
    usage_of project_id shown,
    rw (show_usage, eq_false project_id "" h, page_limit-limit_of limit) refl,
    usage_of-IsUsage,
  )
