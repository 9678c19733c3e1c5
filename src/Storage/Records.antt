-- ===== src/Storage/Records.antt =====
-- internal/storage/postgres/request_record_repo.go, over the table of request records.
pub mod Laws
use nexus_ai_gateway.Prelude.{ℕ, suc, String, Bool, List, ◌==◌}
use nexus_ai_gateway.Prelude.Int.{ℤ, pos}
use nexus_ai_gateway.Domain.Errors.{Err, Result}
use nexus_ai_gateway.Domain.Requests.{RequestRecord}
use nexus_ai_gateway.Storage.Rows.{select_row, stored_time}
use nexus_ai_gateway.Storage.Merging.{upsert_row, select_page}

unfoldable pub is_request : String → RequestRecord → Bool
is_request request_id r = r.request_id == request_id

-- What ON CONFLICT (request_id) writes into the row that is there.
unfoldable pub merge_record : RequestRecord → RequestRecord → RequestRecord
merge_record rec row = record row {
  provider = rec.provider;
  model = rec.model;
  status = rec.status;
  latency_ms = rec.latency_ms;
  input_tokens = rec.input_tokens;
  output_tokens = rec.output_tokens;
  total_tokens = rec.total_tokens;
  estimated_cost = rec.estimated_cost;
  fallback_used = rec.fallback_used;
  retry_count = rec.retry_count;
  error_code = rec.error_code;
}

-- The row that a record becomes.
unfoldable pub stored_record : RequestRecord → RequestRecord
stored_record rec = record rec { created_at = stored_time rec.created_at }

unfoldable pub create_record : Err → RequestRecord → List RequestRecord → Err × List RequestRecord
create_record fault rec rows =
    upsert_row fault (is_request rec.request_id) (merge_record rec) (stored_record rec) rows

unfoldable pub get_by_request_id : Err → String → List RequestRecord → Result RequestRecord
get_by_request_id fault request_id rows = select_row fault (is_request request_id) rows

unfoldable pub page_limit : ℤ → ℕ
page_limit (pos (suc n)) = suc n
page_limit _ = 50

-- `negative` is what the server answers a negative offset with.
unfoldable pub list_records :
    Err → Err → String → ℤ → ℤ → List RequestRecord → Result (List RequestRecord)
list_records fault negative project_id limit offset rows =
    select_page fault negative (λ r. r.created_at) (λ r. r.project_id == project_id)
      (page_limit limit) offset rows
