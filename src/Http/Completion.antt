-- ===== src/Http/Completion.antt =====
-- internal/http/handlers/chat.go, steps 10 to 13 of `ServeHTTP`, `toOpenAIResponse` and `estimateCost`:
-- what the client is sent and what is recorded. A float that is printed stays a number here.
use nexus_ai_gateway.Prelude.{
  ℕ, eqb, String, ◌^◌, Bool, not, ◌&&◌, true, Option, none, some, List, [], ◌∷◌, ◌++◌, length,
  if◌then◌else◌, decimal, lookup,
}
use nexus_ai_gateway.Prelude.Int.{ℤ, pos, ◌+ℤ◌, times, is_negative}
use nexus_ai_gateway.Domain.Requests.{TokenUsage, RequestRecord, new_request_record, complete}
use nexus_ai_gateway.Domain.Policy.{RoutingPolicy}
use nexus_ai_gateway.Provider.{ChatResponse, Choice}
use nexus_ai_gateway.Routing.{Candidate, FallbackAttempt, Decision}

-- The prices of a token in thousand-millionths of a dollar: input and output.
unfoldable pub prices : List (String × (ℕ × ℕ))
prices =
    ("gpt-4o", (2500, 10000))
    ∷ ("gpt-4o-mini", (150, 600))
    ∷ ("claude-3-5-sonnet-20241022", (3000, 15000))
    ∷ ("claude-3-haiku-20240307", (250, 1250))
    ∷ ("gemini-3.7-flash", (150, 600))
    ∷ ("gemini-3.6-flash", (75, 300))
    ∷ ("gemini-2.0-flash", (75, 300))
    ∷ ("gemini-2.5-pro", (1250, 5000))
    ∷ ("gemini-1.5-pro", (1250, 5000))
    ∷ []

cost_at : Option (ℕ × ℕ) → TokenUsage → ℤ
cost_at none usage = pos 0
cost_at (some (input, output)) usage =
    times usage.input_tokens input +ℤ times usage.output_tokens output

unfoldable pub estimate_cost : String → TokenUsage → ℤ
unfolding cost_at
estimate_cost model usage = cost_at (lookup model prices) usage

-- Counters of Prometheus only go up: `Add` panics at a count below zero.
unfoldable pub is_counted : TokenUsage → Bool
is_counted usage = not (is_negative usage.input_tokens) && not (is_negative usage.output_tokens)

-- The plan after the loop: the candidate that answered, and the attempts that failed before it.
unfoldable pub settle : Decision → ℕ → Candidate → List FallbackAttempt → Decision
settle plan i c trace = record plan {
  selected_model = c.model;
  provider_id = c.provider_id;
  fallback_trace = plan.fallback_trace ++ trace;
  redirect_summary =
      if eqb i 0
      then plan.redirect_summary
      else "Redirected to "
        ^ (c.model ^ (" (" ^ (c.provider_id ^ (") after " ^ (decimal i ^ " failed attempt(s)")))));
}

unfoldable pub strategy_of : Option RoutingPolicy → String
strategy_of none = ""
strategy_of (some policy) = policy.strategy

with_fallbacks : List FallbackAttempt → RequestRecord → RequestRecord
with_fallbacks [] r = r
with_fallbacks (a ∷ trace) r = record r { fallback_used = true; retry_count = length (a ∷ trace) }

-- Step 10: the audit record of a request that a candidate answered.
unfoldable pub completed_record :
    String
    → ℕ
    → String
    → String
    → Option RoutingPolicy
    → Candidate
    → ChatResponse
    → ℕ
    → List FallbackAttempt
    → RequestRecord
unfolding with_fallbacks
completed_record uuid now request_id project_id policy c resp latency_ms trace =
    let r = record (new_request_record uuid now request_id project_id) {
      routing_strategy = strategy_of policy;
    } in
    with_fallbacks trace
      (complete r c.provider_id c.model resp.usage latency_ms (estimate_cost c.model resp.usage))

-- `text v` is a string; `fixed_2 n` is n / 100 printed with `%.2f`, and `fixed_6 n` is n / (4 * 10^9)
-- printed with `%.6f`.
pub data HeaderValue : Type 0 where
  text : String → HeaderValue
  fixed_2 : ℕ → HeaderValue
  fixed_6 : ℕ → HeaderValue

fallback_headers : Decision → List FallbackAttempt → List (String × HeaderValue)
fallback_headers plan [] = []
fallback_headers plan (a ∷ trace) =
    ("X-Nexus-Fallback-Count", text (decimal (length (a ∷ trace))))
    ∷ ("X-Nexus-Redirect-Summary", text plan.redirect_summary)
    ∷ []

-- Step 11
unfoldable pub route_headers : Decision → List (String × HeaderValue)
unfolding fallback_headers
route_headers plan =
    (("X-Nexus-Route-Model", text plan.selected_model)
      ∷ ("X-Nexus-Route-Provider", text plan.provider_id)
      ∷ ("X-Nexus-Route-Preset", text plan.preset)
      ∷ ("X-Nexus-Route-Tier", text plan.tier)
      ∷ ("X-Nexus-Route-Complexity", fixed_2 plan.complexity)
      ∷ ("X-Nexus-Route-Confidence", text (decimal plan.confidence))
      ∷ ("X-Nexus-Route-Intent", text plan.intent)
      ∷ ("X-Nexus-Route-Rationale", text plan.rationale)
      ∷ ("X-Nexus-Route-EstCost", fixed_6 plan.estimated_cost)
      ∷ ("X-Nexus-Route-BaselineCost", fixed_6 plan.baseline_cost)
      ∷ [])
    ++ fallback_headers plan plan.fallback_trace

-- The part "nexus_routing"; `fallback` is there if an attempt failed.
pub record RoutingInfo : Type 0 where
  pub requested_model : String
  pub selected_model : String
  pub provider : String
  pub preset : String
  pub tier : String
  pub complexity_score : ℕ
  pub confidence_percent : ℕ
  pub intent : String
  pub rationale : String
  pub context_chars : ℕ
  pub estimated_cost : ℕ
  pub baseline_cost : ℕ
  pub fallback : Option (List FallbackAttempt × String)

pub record OpenAiResponse : Type 0 where
  pub id : String
  pub object : String
  pub created : ℕ
  pub model : String
  pub choices : List Choice
  pub prompt_tokens : ℤ
  pub completion_tokens : ℤ
  pub total_tokens : ℤ
  pub x_request_id : String
  pub nexus_routing : Option RoutingInfo

fallback_of : Decision → List FallbackAttempt → Option (List FallbackAttempt × String)
fallback_of decision [] = none
fallback_of decision (a ∷ trace) = some (a ∷ trace, decision.redirect_summary)

routing_info : Decision → RoutingInfo
unfolding fallback_of
routing_info d = record {
  requested_model = d.requested_model;
  selected_model = d.selected_model;
  provider = d.provider_id;
  preset = d.preset;
  tier = d.tier;
  complexity_score = d.complexity;
  confidence_percent = d.confidence;
  intent = d.intent;
  rationale = d.rationale;
  context_chars = d.context_chars;
  estimated_cost = d.estimated_cost;
  baseline_cost = d.baseline_cost;
  fallback = fallback_of d d.fallback_trace;
}

-- `toOpenAIResponse`; a nil decision is `none`.
unfoldable pub to_open_ai_response : ChatResponse → String → Option Decision → OpenAiResponse
unfolding routing_info
to_open_ai_response resp request_id decision = record {
  id = resp.id;
  object = "chat.completion";
  created = resp.created;
  model = resp.model;
  choices = resp.choices;
  prompt_tokens = resp.usage.input_tokens;
  completion_tokens = resp.usage.output_tokens;
  total_tokens = resp.usage.total_tokens;
  x_request_id = request_id;
  nexus_routing = elim decision [ none ↦ none | some d ↦ some (routing_info d) ];
}
