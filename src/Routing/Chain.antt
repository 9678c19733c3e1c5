-- ===== src/Routing/Chain.antt =====
-- The chain of a plan: never empty, led by the selected model, without repetition, with both pools
-- behind the choice, and taken from the project's policy where that names a registered provider.
use nexus_ai_gateway.Prelude.{
  ℕ, suc, ◌≤◌, String, ◌≡◌, ◌≢◌, refl, sym, ap, subst, ◌∙◌, ◌==◌, Bool-cases, Option, none, some,
  List, [], ◌∷◌, arith, if◌then◌else◌, is_some, In, map, ◌⊎◌, inl, inr, Option-cases,
}
use nexus_ai_gateway.Domain.Errors.{ok}
use nexus_ai_gateway.Domain.Policy.{PolicyCandidate, RoutingPolicy}
use nexus_ai_gateway.Provider.{ChatRequest, Provider}
use nexus_ai_gateway.Provider.Registry.{Registry, get}
use nexus_ai_gateway.Routing.{Candidate, Decision, key, deduplicate_candidates}
use nexus_ai_gateway.Routing.Unique.{
  IsUnique, HasKey, deduplicate_candidates-IsUnique, deduplicate_candidates-covers,
}
use nexus_ai_gateway.Routing.Complexity.{analyze_complexity}
use nexus_ai_gateway.Routing.Pools.{offer, policy_candidates, candidates_of, fast_pool, smart_pool}
use nexus_ai_gateway.Routing.Select.{Selection, select}
use nexus_ai_gateway.Routing.Shape.{select-Shape, Shape-pools}
use nexus_ai_gateway.Routing.Plan.{
  finish, decide, plan_dynamic, decide_policy, plan_for, route_plan, model_or_auto,
}

-- The chain has a head, which is the selected model of the selected provider.
abbrev pub IsLed : Decision → Type 0
IsLed d =
    (c : Candidate) × (cs : List Candidate) × (d.candidates ≡ c ∷ cs)
    × (d.selected_model ≡ c.model)
    × (d.provider_id ≡ c.provider_id)

finish-IsLed :
    (first : Provider) (model : String) (n : ℕ) (s : Selection) (cs : List Candidate)
    → IsLed (finish first model n s cs)
unfolding finish decide
finish-IsLed first model n s [] = (_, _, refl, refl, refl)
finish-IsLed first model n s (c ∷ cs) = (c, cs, refl, refl, refl)

pub plan_for-IsLed :
    (reg : Registry) (first : Provider) (keywords : List (String × String)) (req : ChatRequest)
    (cs : List Candidate)
    → IsLed (plan_for reg first keywords req cs)
unfolding plan_for plan_dynamic decide_policy
plan_for-IsLed reg first keywords req [] = finish-IsLed first _ _ _ _
plan_for-IsLed reg first keywords req (c ∷ cs) = (c, cs, refl, refl, refl)

-- Planning succeeds whenever a provider is registered, with a chain that is not empty and starts
-- with the selected model and provider.
pub route_plan-IsLed :
    (reg : Registry) (listed : List Provider) (keywords : List (String × String))
    (req : ChatRequest) (policy : Option RoutingPolicy)
    → listed ≢ []
    → (d : Decision) × (route_plan reg listed keywords req policy ≡ ok d) × IsLed d
unfolding route_plan
route_plan-IsLed reg [] keywords req policy h = absurd (h refl)
route_plan-IsLed reg (first ∷ rest) keywords req policy h =
    (_, refl, plan_for-IsLed reg first keywords req (candidates_of reg policy))

finish-IsUnique :
    (first : Provider) (model : String) (n : ℕ) (s : Selection) (cs : List Candidate)
    → IsUnique cs
    → IsUnique (finish first model n s cs).candidates
unfolding finish decide
finish-IsUnique first model n s [] u = (λ d i. elim i [ ], tt)
finish-IsUnique first model n s (c ∷ cs) u = u

-- Without a usable policy no provider and model is tried twice.
pub plan_dynamic-IsUnique :
    (reg : Registry) (first : Provider) (keywords : List (String × String)) (req : ChatRequest)
    → IsUnique (plan_dynamic reg first keywords req).candidates
unfolding plan_dynamic
plan_dynamic-IsUnique reg first keywords req =
    finish-IsUnique first _ _ _ _ (deduplicate_candidates-IsUnique _)

finish-HasKey :
    (first : Provider) (model : String) (n : ℕ) (s : Selection) (k : String) (cs : List Candidate)
    → HasKey k cs
    → HasKey k (finish first model n s cs).candidates
unfolding finish decide
finish-HasKey first model n s k [] (d, i, e) = elim i [ ]
finish-HasKey first model n s k (c ∷ cs) h = h

-- The cross-tier safety net: whatever the requested model, each model of the fast and of the smart
-- pool is a candidate.
pub plan_dynamic-pools :
    (reg : Registry) (first : Provider) (keywords : List (String × String)) (req : ChatRequest)
    (c : Candidate)
    → In c (fast_pool reg) ⊎ In c (smart_pool reg)
    → HasKey (key c) (plan_dynamic reg first keywords req).candidates
unfolding plan_dynamic
plan_dynamic-pools reg first keywords req c i = finish-HasKey first _ _ _ (key c) _ (
    deduplicate_candidates-covers _ c (
      Shape-pools c
        (select-Shape reg (analyze_complexity keywords req.messages) (model_or_auto req.model)) i))

abbrev IsCheaper : Decision → Type 0
IsCheaper d = d.estimated_cost ≤ d.baseline_cost

decide_cost :
    (model : String) (n : ℕ) (s : Selection) (c : Candidate) (cs : List Candidate)
    → (decide model n s c cs).estimated_cost ≤ (decide model n s c cs).baseline_cost
unfolding decide
decide_cost model n s c cs = elim (Bool-cases (s.initial_tier == "fast")) [
  | inl cheap ↦ rw cheap (omega arith)
  | inr dear ↦ rw dear (omega arith)
]

plan_for_cost :
    (reg : Registry) (first : Provider) (keywords : List (String × String)) (req : ChatRequest)
    (cs : List Candidate) (d : Decision)
    → plan_for reg first keywords req cs ≡ d
    → d.estimated_cost ≤ d.baseline_cost
unfolding plan_for plan_dynamic decide_policy
plan_for_cost reg first keywords req (c ∷ cs) d e = subst IsCheaper e (omega arith)
plan_for_cost reg first keywords req [] d e =
    subst IsCheaper e
      (finish_cost _ _ (select reg _ (model_or_auto req.model)) (deduplicate_candidates _))
  where
    finish_cost :
        (model : String) (n : ℕ) (s : Selection) (cs : List Candidate)
        → IsCheaper (finish first model n s cs)
    finish_cost model n s [] = unfold finish in decide_cost model n s _ []
    finish_cost model n s (c ∷ cs) = unfold finish in decide_cost model n s c cs

-- A request that is planned is never estimated above the baseline.
pub estimated_cost-le-baseline_cost :
    (reg : Registry) (listed : List Provider) (keywords : List (String × String))
    (req : ChatRequest) (policy : Option RoutingPolicy) (d : Decision)
    → route_plan reg listed keywords req policy ≡ ok d
    → d.estimated_cost ≤ d.baseline_cost
unfolding route_plan
estimated_cost-le-baseline_cost reg [] keywords req policy d e = cc
estimated_cost-le-baseline_cost reg (first ∷ rest) keywords req policy d e =
    plan_for_cost reg first keywords req (candidates_of reg policy) d (cc e)

-- The policy's candidates whose provider is registered.
abbrev pub registered : Registry → List PolicyCandidate → List PolicyCandidate
registered reg [] = []
registered reg (c ∷ cs) =
    let rest = registered reg cs in if is_some (get reg c.provider) then c ∷ rest else rest

abbrev pub target : Candidate → String × String
target c = (c.provider_id, c.model)

abbrev pub policy_target : PolicyCandidate → String × String
policy_target c = (c.provider, c.model)

policy_candidates-registered :
    (reg : Registry) (i : ℕ) (cs : List PolicyCandidate)
    → map target (policy_candidates reg i cs) ≡ map policy_target (registered reg cs)
unfolding policy_candidates offer
policy_candidates-registered reg i [] = refl
policy_candidates-registered reg i (c ∷ cs) = elim (Option-cases (get reg c.provider)) [
  | inl e ↦ rw e (policy_candidates-registered reg (suc i) cs)
  | inr (p, e) ↦
      rw e (ap (λ l. (c.provider, c.model) ∷ l) (policy_candidates-registered reg (suc i) cs))
]

plan_for-policy :
    (reg : Registry) (first : Provider) (keywords : List (String × String)) (req : ChatRequest)
    (cs : List Candidate) (targets : List (String × String))
    → map target cs ≡ targets
    → targets ≢ []
    → map target (plan_for reg first keywords req cs).candidates ≡ targets
unfolding plan_for decide_policy
plan_for-policy reg first keywords req [] targets e h = absurd (h (sym e))
plan_for-policy reg first keywords req (c ∷ cs) targets e h = e

-- The policy wins: where it names a registered provider, the chain is the policy's candidates with
-- a registered provider, in the policy's order.
pub route_plan-policy :
    (reg : Registry) (first : Provider) (rest : List Provider) (keywords : List (String × String))
    (req : ChatRequest) (policy : RoutingPolicy)
    → registered reg policy.candidates ≢ []
    → (d : Decision) × (route_plan reg (first ∷ rest) keywords req (some policy) ≡ ok d)
      × (map target d.candidates ≡ map policy_target (registered reg policy.candidates))
unfolding route_plan candidates_of
route_plan-policy reg first rest keywords req policy h = (
  _,
  refl,
  plan_for-policy reg first keywords req _ _ (policy_candidates-registered reg 0 policy.candidates)
      (map-ne_nil (registered reg policy.candidates) h),
)
  where
    map-ne_nil : (cs : List PolicyCandidate) → cs ≢ [] → map policy_target cs ≢ []
    map-ne_nil [] n e = n refl
    map-ne_nil (c ∷ cs) n e = cc

-- A policy none of whose providers is registered changes nothing.
pub route_plan-unusable_policy :
    (reg : Registry) (listed : List Provider) (keywords : List (String × String))
    (req : ChatRequest) (policy : RoutingPolicy)
    → registered reg policy.candidates ≡ []
    → route_plan reg listed keywords req (some policy) ≡ route_plan reg listed keywords req none
unfolding route_plan candidates_of
route_plan-unusable_policy reg [] keywords req policy h = refl
route_plan-unusable_policy reg (first ∷ rest) keywords req policy h =
    ap (λ cs. ok (plan_for reg first keywords req cs))
      (empty (policy_candidates reg 0 policy.candidates)
        (policy_candidates-registered reg 0 policy.candidates ∙ ap (map policy_target) h))
  where
    empty : (cs : List Candidate) → map target cs ≡ [] → cs ≡ []
    empty [] e = refl
    empty (c ∷ cs) e = cc
