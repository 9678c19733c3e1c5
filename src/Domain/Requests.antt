-- ===== src/Domain/Requests.antt =====
-- internal/domain/request_record.go and usage_event.go. Costs are in thousand-millionths of a
-- dollar, latencies in milliseconds.
use nexus_ai_gateway.Prelude.{ℕ, String, ◌^◌, Bool, false}
use nexus_ai_gateway.Prelude.Int.{ℤ, pos}
use nexus_ai_gateway.Domain.Errors.{Code, code_text}

pub record TokenUsage : Type 0 where
  pub input_tokens : ℤ
  pub output_tokens : ℤ
  pub total_tokens : ℤ

pub record RequestRecord : Type 0 where
  pub id : String
  pub request_id : String
  pub project_id : String
  pub provider : String
  pub model : String
  pub routing_strategy : String
  pub status : String
  pub latency_ms : ℕ
  pub input_tokens : ℤ
  pub output_tokens : ℤ
  pub total_tokens : ℤ
  pub estimated_cost : ℤ
  pub fallback_used : Bool
  pub retry_count : ℕ
  pub error_code : String
  pub created_at : ℕ

unfoldable pub new_request_record : String → ℕ → String → String → RequestRecord
new_request_record uuid now request_id project_id = record {
  id = "rec_" ^ uuid;
  request_id = request_id;
  project_id = project_id;
  provider = "";
  model = "";
  routing_strategy = "";
  status = "success";
  latency_ms = 0;
  input_tokens = pos 0;
  output_tokens = pos 0;
  total_tokens = pos 0;
  estimated_cost = pos 0;
  fallback_used = false;
  retry_count = 0;
  error_code = "";
  created_at = now;
}

unfoldable pub complete : RequestRecord → String → String → TokenUsage → ℕ → ℤ → RequestRecord
complete r provider model usage latency_ms cost = record r {
  provider = provider;
  model = model;
  input_tokens = usage.input_tokens;
  output_tokens = usage.output_tokens;
  total_tokens = usage.total_tokens;
  latency_ms = latency_ms;
  estimated_cost = cost;
  status = "success";
}

unfoldable pub failed_status : Code → String
failed_status Code.provider_timeout = "timed_out"
failed_status Code.rate_limit_exceeded = "rate_limited"
failed_status Code.budget_exceeded = "budget_exceeded"
failed_status _ = "failed"

unfoldable pub fail : RequestRecord → Code → ℕ → RequestRecord
unfolding failed_status code_text
fail r code latency_ms = record r {
  latency_ms = latency_ms;
  error_code = code_text code;
  status = failed_status code;
}

pub record UsageEvent : Type 0 where
  pub event_id : String
  pub request_id : String
  pub project_id : String
  pub provider : String
  pub model : String
  pub routing_strategy : String
  pub latency_ms : ℕ
  pub input_tokens : ℤ
  pub output_tokens : ℤ
  pub total_tokens : ℤ
  pub estimated_cost : ℤ
  pub fallback_used : Bool
  pub retry_count : ℕ
  pub status : String
  pub timestamp : ℕ

unfoldable pub new_usage_event : String → ℕ → RequestRecord → UsageEvent
new_usage_event uuid now r = record {
  event_id = "evt_" ^ uuid;
  request_id = r.request_id;
  project_id = r.project_id;
  provider = r.provider;
  model = r.model;
  routing_strategy = r.routing_strategy;
  latency_ms = r.latency_ms;
  input_tokens = r.input_tokens;
  output_tokens = r.output_tokens;
  total_tokens = r.total_tokens;
  estimated_cost = r.estimated_cost;
  fallback_used = r.fallback_used;
  retry_count = r.retry_count;
  status = r.status;
  timestamp = now;
}
