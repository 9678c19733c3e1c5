-- ===== src/Routing/Pools.antt =====
-- `RoutePlan` of internal/routing/engine.go: the policy's candidates and the two model pools.
use nexus_ai_gateway.Prelude.{
  ℕ, suc, String, Option, none, some, List, [], ◌∷◌, ◌++◌, eqb, if◌then◌else◌,
}
use nexus_ai_gateway.Domain.Policy.{PolicyCandidate, RoutingPolicy}
use nexus_ai_gateway.Provider.{Provider}
use nexus_ai_gateway.Provider.Registry.{Registry, get}
use nexus_ai_gateway.Routing.{Candidate}

-- The candidate of a provider, if the registry has it.
unfoldable pub offer : Option Provider → String → String → String → List Candidate
offer none provider_id model tier = []
offer (some p) provider_id model tier =
    record { provider = p; provider_id = provider_id; model = model; tier = tier } ∷ []

-- The loop over the policy's candidates, `i` their index.
unfoldable pub policy_candidates : Registry → ℕ → List PolicyCandidate → List Candidate
policy_candidates reg i [] = []
policy_candidates reg i (c ∷ cs) =
    offer (get reg c.provider) c.provider c.model (if eqb i 0 then "primary" else "policy-fallback")
    ++ policy_candidates reg (suc i) cs

unfoldable pub candidates_of : Registry → Option RoutingPolicy → List Candidate
candidates_of reg none = []
candidates_of reg (some policy) = policy_candidates reg 0 policy.candidates

unfoldable pub fast_pool : Registry → List Candidate
fast_pool reg =
    offer (get reg "gemini") "gemini" "gemini-3.6-flash" "fast"
    ++ (offer (get reg "openai") "openai" "gpt-4o-mini" "fast"
        ++ offer (get reg "anthropic") "anthropic" "claude-3-haiku-20240307" "fast")

unfoldable pub smart_pool : Registry → List Candidate
smart_pool reg =
    offer (get reg "openai") "openai" "gpt-4o" "smart"
    ++ (offer (get reg "anthropic") "anthropic" "claude-3-5-sonnet-20241022" "smart"
        ++ offer (get reg "gemini") "gemini" "gemini-3.7-flash" "smart")
