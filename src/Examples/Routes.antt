-- ===== src/Examples/Routes.antt =====
-- The theorems on the registry, the routing engine and the conversation, at concrete inputs.
use mathlib.Core.List.{cons≢nil}
use nexus_ai_gateway.Prelude.{
  lookup, has_prefix, ◌≡◌, ◌≢◌, refl, true, none, some, [], ◌∷◌, map, if◌then◌else◌, ◌++◌, In, here,
  there, All,
}
use nexus_ai_gateway.Domain.Errors.{ok}
use nexus_ai_gateway.Provider.{Provider}
use nexus_ai_gateway.Provider.Registry.{get, all}
use nexus_ai_gateway.Provider.Registry.Laws.{IsKeyed}
use nexus_ai_gateway.Routing.{Decision, key, deduplicate_candidates}
use nexus_ai_gateway.Routing.Complexity.{heavy_keywords, analyze_complexity}
use nexus_ai_gateway.Routing.Pools.{offer, candidates_of, fast_pool, smart_pool}
use nexus_ai_gateway.Routing.Select.{Pin, select_auto}
use nexus_ai_gateway.Routing.Plan.{route_plan, plan_dynamic, plan_for}
use nexus_ai_gateway.Routing.Unique.{
  IsUnique, HasKey, deduplicate_candidates-IsUnique, deduplicate_candidates-covers,
}
use nexus_ai_gateway.Routing.Registered.{IsRegistered, route_plan-IsRegistered}
use nexus_ai_gateway.Routing.Chain.{
  IsLed, route_plan-IsLed, plan_dynamic-IsUnique, route_plan-policy, registered, target,
  policy_target,
}
use nexus_ai_gateway.Routing.Pinned.{StartsWith, family, server, route_plan-pinned}
use nexus_ai_gateway.Routing.Auto.{is_heavy, select_auto-tier}
use nexus_ai_gateway.Examples.Data.{
  gemini, openai, registry, listed, keywords, question, chat_request, up, down, routing_policy,
}

pub registry-IsKeyed : IsKeyed registry
registry-IsKeyed = unfold nexus_ai_gateway.Prelude.lookup in (refl, refl, (refl, refl, tt))

pub listed-all : (p : Provider) → In p listed → In p (all registry)
unfolding all
listed-all p i = i

deduplicate_candidates-IsUnique_example : IsUnique (deduplicate_candidates (up ∷ down ∷ up ∷ []))
deduplicate_candidates-IsUnique_example = deduplicate_candidates-IsUnique (up ∷ down ∷ up ∷ [])

deduplicate_candidates-covers_example :
    HasKey (key up) (deduplicate_candidates (down ∷ down ∷ up ∷ []))
deduplicate_candidates-covers_example =
    deduplicate_candidates-covers (down ∷ down ∷ up ∷ []) up (there (there here))

route_plan-IsLed_example :
    (d : Decision) × (route_plan registry listed keywords (chat_request "gpt-4o") none ≡ ok d)
    × IsLed d
route_plan-IsLed_example =
    route_plan-IsLed registry listed keywords (chat_request "gpt-4o") none cons≢nil

plan_dynamic-IsUnique_example :
    IsUnique (plan_dynamic registry gemini keywords (chat_request "auto")).candidates
plan_dynamic-IsUnique_example = plan_dynamic-IsUnique registry gemini keywords (chat_request "auto")

abbrev planned : Decision
planned = plan_dynamic registry gemini keywords (chat_request "auto")

plan-planned : route_plan registry listed keywords (chat_request "auto") none ≡ ok planned
unfolding route_plan candidates_of plan_for
plan-planned = refl

route_plan-IsRegistered_example : All (IsRegistered registry) planned.candidates
route_plan-IsRegistered_example =
    route_plan-IsRegistered registry listed keywords (chat_request "auto") none planned
      registry-IsKeyed listed-all plan-planned

down-pooled : In down (fast_pool registry)
unfolding fast_pool offer get lookup
down-pooled = here

policy-usable : registered registry (routing_policy "openai").candidates ≢ []
unfolding get lookup
policy-usable = cons≢nil

policy-unusable : registered registry (routing_policy "mistral").candidates ≡ []
unfolding get lookup
policy-unusable = refl

gpt-pinned : has_prefix "gpt-4.1" (family Pin.gpt) ≡ true
unfolding has_prefix
gpt-pinned = refl

gpt-served : get registry (server Pin.gpt) ≡ some openai
unfolding get lookup
gpt-served = refl

route_plan-policy_example :
    (d : Decision) × (route_plan registry
        (gemini ∷ openai ∷ [])
        keywords
        (chat_request "")
        (some (routing_policy "openai"))
      ≡ ok d)
    × (map target d.candidates
        ≡ map policy_target (registered registry (routing_policy "openai").candidates))
route_plan-policy_example =
    route_plan-policy registry gemini (openai ∷ []) keywords (chat_request "")
      (routing_policy "openai") policy-usable

route_plan-pinned_example :
    (d : Decision) × (route_plan registry
        (gemini ∷ openai ∷ [])
        keywords
        (chat_request "gpt-4.1")
        none
      ≡ ok d)
    × StartsWith (server Pin.gpt) "gpt-4.1" d
route_plan-pinned_example =
    route_plan-pinned registry gemini (openai ∷ []) keywords (chat_request "gpt-4.1") Pin.gpt openai
      gpt-pinned gpt-served

select_auto-tier_example :
    ((select_auto registry (analyze_complexity heavy_keywords (question ∷ []))).candidates ≡ (
      if is_heavy (question ∷ [])
      then smart_pool registry ++ fast_pool registry
      else fast_pool registry ++ smart_pool registry))
    × ((select_auto registry (analyze_complexity heavy_keywords (question ∷ []))).initial_tier
        ≡ (if is_heavy (question ∷ []) then "smart" else "fast"))
select_auto-tier_example =
    select_auto-tier registry heavy_keywords question [] (λ e. ((λ i. i), (λ i. i)))
