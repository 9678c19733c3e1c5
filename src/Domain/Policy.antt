-- ===== src/Domain/Policy.antt =====
-- internal/domain/routing_policy.go. The weight of a candidate is not modelled: a float that
-- nothing reads.
use nexus_ai_gateway.Prelude.{
  ℕ, String, ◌^◌, Bool, true, Option, some, List, [], ◌∷◌, ◌==◌, is_empty, if◌then◌else◌,
  trim_space,
}
use nexus_ai_gateway.Domain.Errors.{Err, nil, new, Code}

pub record PolicyCandidate : Type 0 where
  pub provider : String
  pub model : String
  pub priority : ℕ

pub record FallbackPolicy : Type 0 where
  pub enabled : Bool
  pub max_fallbacks : ℕ
  pub eligible_on_status : List ℕ

pub record RoutingPolicy : Type 0 where
  pub id : String
  pub project_id : String
  pub name : String
  pub strategy : String
  pub candidates : List PolicyCandidate
  pub fallback_policy : Option FallbackPolicy
  pub active : Bool
  pub created_at : ℕ
  pub updated_at : ℕ

unfoldable pub new_routing_policy :
    String → ℕ → String → String → String → List PolicyCandidate → RoutingPolicy
new_routing_policy uuid now project_id name strategy candidates = record {
  id = "pol_" ^ uuid;
  project_id = project_id;
  name = trim_space name;
  strategy = if strategy == "" then "balanced" else strategy;
  candidates = candidates;
  fallback_policy = some (record {
    enabled = true;
    max_fallbacks = 2;
    eligible_on_status = 429 ∷ 500 ∷ 502 ∷ 503 ∷ 504 ∷ [];
  });
  active = true;
  created_at = now;
  updated_at = now;
}

-- The loop over the candidates of `Validate`.
unfoldable pub validate_models : List PolicyCandidate → Err
validate_models [] = nil
validate_models (c ∷ cs) =
    let rest = validate_models cs in
    if trim_space c.model == "" then new Code.bad_request "candidate model is required" else rest

unfoldable pub validate_policy : RoutingPolicy → Err
unfolding validate_models
validate_policy p =
    if trim_space p.project_id == ""
    then new Code.bad_request "project_id is required"
    else if trim_space p.name == ""
    then new Code.bad_request "policy name is required"
    else if is_empty p.candidates
    then new Code.bad_request "at least one candidate is required"
    else validate_models p.candidates
