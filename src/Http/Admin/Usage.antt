-- ===== src/Http/Admin/Usage.antt =====
-- internal/http/handlers/usage.go: GET /usage. Sums are within 64 bits; costs are in thousand-millionths of a dollar.
use nexus_ai_gateway.Prelude.{
  ℕ, suc, String, Option, some, List, [], ◌∷◌, ◌==◌, length, if◌then◌else◌,
}
use nexus_ai_gateway.Prelude.Int.{ℤ, pos, ◌+ℤ◌}
use nexus_ai_gateway.Domain.Errors.{Err, Code, new, Result, ok, err}
use nexus_ai_gateway.Domain.Requests.{RequestRecord}
use nexus_ai_gateway.Storage.Records.{list_records}
use nexus_ai_gateway.Http.Admin.{Answer, answered, deny}

pub record Usage : Type 0 where
  pub project_id : String
  pub total_requests : ℕ
  pub total_input_tokens : ℤ
  pub total_output_tokens : ℤ
  pub total_tokens : ℤ
  pub total_cost : ℤ
  pub records : List RequestRecord

-- The loop over the records, from the sums so far.
unfoldable pub totals : ℤ → ℤ → ℤ → List RequestRecord → ℤ × ℤ × ℤ
totals input output cost [] = (input, output, cost)
totals input output cost (r ∷ rs) =
    totals (input +ℤ r.input_tokens) (output +ℤ r.output_tokens) (cost +ℤ r.estimated_cost) rs

unfoldable pub usage_of : String → List RequestRecord → Usage
usage_of project_id records =
    let (input, output, cost) = totals (pos 0) (pos 0) (pos 0) records in
    record {
      project_id = project_id;
      total_requests = length records;
      total_input_tokens = input;
      total_output_tokens = output;
      total_tokens = input +ℤ output;
      total_cost = cost;
      records = records;
    }

unfoldable pub usage_answer : String → String → Result (List RequestRecord) → Option (Answer Usage)
usage_answer request_id project_id (ok records) = some (answered 200 (usage_of project_id records))
usage_answer request_id project_id (err e) = deny request_id e

unfoldable pub limit_of : ℤ → ℤ
limit_of (pos (suc n)) = pos (suc n)
limit_of _ = pos 50

-- `limit` and `offset` are the numbers that Atoi returns for the parameters; its errors are dropped.
unfoldable pub show_usage :
    Err → Err → String → String → ℤ → ℤ → List RequestRecord → Option (Answer Usage)
show_usage fault negative request_id project_id limit offset rows =
    if project_id == ""
    then deny request_id (new Code.bad_request "project_id query param is required")
    else usage_answer request_id project_id
        (list_records fault negative project_id (limit_of limit) offset rows)
