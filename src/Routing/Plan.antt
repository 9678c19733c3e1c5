-- ===== src/Routing/Plan.antt =====
-- `RoutePlan` of internal/routing/engine.go: from the request to the decision.
use nexus_ai_gateway.Prelude.{
  ℕ, ◌*◌, String, ◌^◌, Option, List, [], ◌∷◌, ◌==◌, ltb, if◌then◌else◌, decimal, length,
}
use nexus_ai_gateway.Domain.Errors.{Code, new, Result, ok, err}
use nexus_ai_gateway.Domain.Policy.{RoutingPolicy}
use nexus_ai_gateway.Provider.{ChatRequest, Provider}
use nexus_ai_gateway.Provider.Registry.{Registry}
use nexus_ai_gateway.Routing.{Candidate, Decision, deduplicate_candidates}
use nexus_ai_gateway.Routing.Complexity.{count_chars, analyze_complexity}
use nexus_ai_gateway.Routing.Pools.{candidates_of}
use nexus_ai_gateway.Routing.Select.{Selection, select}

unfoldable pub model_or_auto : String → String
model_or_auto model = if model == "" then "auto" else model

-- Estimated input, in quarters of a token, at least 50 tokens.
unfoldable pub estimated_input : ℕ → ℕ
estimated_input ctx_chars = if ltb ctx_chars 200 then 200 else ctx_chars

-- The decision for a chain that is not empty, given as its head and tail.
unfoldable pub decide : String → ℕ → Selection → Candidate → List Candidate → Decision
decide model ctx_chars s c cs = record {
  requested_model = model;
  selected_model = c.model;
  provider_id = c.provider_id;
  preset = s.preset;
  tier = s.initial_tier;
  complexity = s.complexity;
  confidence = s.confidence;
  intent = s.intent;
  rationale = s.rationale;
  context_chars = ctx_chars;
  estimated_cost = estimated_input ctx_chars * (if s.initial_tier == "fast" then 75 else 2500);
  baseline_cost = estimated_input ctx_chars * 3000;
  candidates = c ∷ cs;
  fallback_trace = [];
  redirect_summary = "";
}

-- The last lines of `RoutePlan`; `first` is the first of `All()`.
unfoldable pub finish : Provider → String → ℕ → Selection → List Candidate → Decision
finish first model ctx_chars s [] =
    decide model ctx_chars s
      (record {
        provider = first;
        provider_id = first.id;
        model = "gemini-3.6-flash";
        tier = "fallback";
      })
      []
finish first model ctx_chars s (c ∷ cs) = decide model ctx_chars s c cs

unfoldable pub decide_policy : ChatRequest → Candidate → List Candidate → Decision
decide_policy req c cs = record {
  requested_model = req.model;
  selected_model = c.model;
  provider_id = c.provider_id;
  preset = "";
  tier = "custom-policy";
  complexity = 50;
  confidence = 0;
  intent = "Custom Project Policy";
  rationale = "Policy defined with " ^ (decimal (length (c ∷ cs)) ^ " failover candidates");
  context_chars = count_chars req.messages;
  estimated_cost = 0;
  baseline_cost = 0;
  candidates = c ∷ cs;
  fallback_trace = [];
  redirect_summary = "";
}

unfoldable pub plan_dynamic : Registry → Provider → List (String × String) → ChatRequest → Decision
plan_dynamic reg first keywords req =
    let model = model_or_auto req.model in
    let s = select reg (analyze_complexity keywords req.messages) model in
    finish first model (count_chars req.messages) s (deduplicate_candidates s.candidates)

unfoldable pub plan_for :
    Registry → Provider → List (String × String) → ChatRequest → List Candidate → Decision
plan_for reg first keywords req [] = plan_dynamic reg first keywords req
plan_for reg first keywords req (c ∷ cs) = decide_policy req c cs

-- `all` is the result of `All()`, and `keywords` the heavy keywords in the order ranged over.
unfoldable pub route_plan :
    Registry
    → List Provider
    → List (String × String)
    → ChatRequest
    → Option RoutingPolicy
    → Result Decision
unfolding new
route_plan reg [] keywords req policy =
    err (new Code.provider_unavailable "no providers registered")
route_plan reg (first ∷ rest) keywords req policy =
    ok (plan_for reg first keywords req (candidates_of reg policy))
