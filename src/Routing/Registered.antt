-- ===== src/Routing/Registered.antt =====
-- Every candidate of a plan names an adapter of the registry.
use nexus_ai_gateway.Prelude.{
  ℕ, suc, String, ◌≡◌, refl, subst, Option, none, some, List, [], ◌∷◌, All, All-append, In, here,
}
use nexus_ai_gateway.Domain.Errors.{Result, ok, err}
use nexus_ai_gateway.Domain.Policy.{PolicyCandidate, RoutingPolicy}
use nexus_ai_gateway.Provider.{ChatRequest, Provider}
use nexus_ai_gateway.Provider.Registry.{Registry, get, all}
use nexus_ai_gateway.Provider.Registry.Laws.{IsKeyed, get_of_all}
use nexus_ai_gateway.Routing.{Candidate, Decision, deduplicate_candidates}
use nexus_ai_gateway.Routing.Unique.{All-deduplicate_from}
use nexus_ai_gateway.Routing.Shape.{Shape-All, select-Shape}
use nexus_ai_gateway.Routing.Complexity.{analyze_complexity}
use nexus_ai_gateway.Routing.Pools.{offer, policy_candidates, candidates_of}
use nexus_ai_gateway.Routing.Select.{Selection, select}
use nexus_ai_gateway.Routing.Plan.{
  finish, decide, plan_dynamic, decide_policy, plan_for, route_plan, model_or_auto,
}

-- The registry has the candidate's adapter under the candidate's provider.
abbrev pub IsRegistered : Registry → Candidate → Type 0
IsRegistered reg c = get reg c.provider_id ≡ some c.provider

abbrev AllOk : Registry → Result Decision → Type 0
AllOk reg (ok d) = All (IsRegistered reg) d.candidates
AllOk reg (err e) = Unit

module _ (reg : Registry) where
  finish-IsRegistered :
      (first : Provider) (model : String) (n : ℕ) (s : Selection) (cs : List Candidate)
      → get reg first.id ≡ some first
      → All (IsRegistered reg) cs
      → All (IsRegistered reg) (finish first model n s cs).candidates
  unfolding finish decide
  finish-IsRegistered first model n s [] h k = (h, tt)
  finish-IsRegistered first model n s (c ∷ cs) h k = k

  offer-IsRegistered :
      (id model tier : String) → All (IsRegistered reg) (offer (get reg id) id model tier)
  offer-IsRegistered id model tier = go (get reg id) refl
    where
      go : (o : Option Provider) → get reg id ≡ o → All (IsRegistered reg) (offer o id model tier)
      go none e = unfold offer in tt
      go (some p) e = unfold offer in (e, tt)

  policy_candidates-IsRegistered :
      (i : ℕ) (cs : List PolicyCandidate) → All (IsRegistered reg) (policy_candidates reg i cs)
  unfolding policy_candidates
  policy_candidates-IsRegistered i [] = tt
  policy_candidates-IsRegistered i (c ∷ cs) =
      All-append (IsRegistered reg) _ _ (offer-IsRegistered c.provider c.model _)
        (policy_candidates-IsRegistered (suc i) cs)

  pub candidates_of-IsRegistered :
      (policy : Option RoutingPolicy) → All (IsRegistered reg) (candidates_of reg policy)
  unfolding candidates_of
  candidates_of-IsRegistered none = tt
  candidates_of-IsRegistered (some policy) = policy_candidates-IsRegistered 0 policy.candidates

  pub plan_dynamic-IsRegistered :
      (first : Provider) (keywords : List (String × String)) (req : ChatRequest)
      → get reg first.id ≡ some first
      → All (IsRegistered reg) (plan_dynamic reg first keywords req).candidates
  unfolding plan_dynamic deduplicate_candidates
  plan_dynamic-IsRegistered first keywords req h =
      let s = select reg (analyze_complexity keywords req.messages) (model_or_auto req.model) in
      finish-IsRegistered first _ _ s _ h (
        All-deduplicate_from (IsRegistered reg) [] _
          (Shape-All reg (IsRegistered reg) offer-IsRegistered (select-Shape reg _ _)))

  plan_for-IsRegistered :
      (first : Provider) (keywords : List (String × String)) (req : ChatRequest)
      (cs : List Candidate)
      → get reg first.id ≡ some first
      → All (IsRegistered reg) cs
      → All (IsRegistered reg) (plan_for reg first keywords req cs).candidates
  unfolding plan_for decide_policy
  plan_for-IsRegistered first keywords req [] h k = plan_dynamic-IsRegistered first keywords req h
  plan_for-IsRegistered first keywords req (c ∷ cs) h k = k

-- If the registry is keyed by identifiers and `All` lists only its adapters, every candidate of a plan has the adapter that the registry holds under the candidate's provider,
-- whatever the policy, the messages and the order in which `All` lists the registered adapters.
pub route_plan-IsRegistered :
    (reg : Registry) (listed : List Provider) (keywords : List (String × String))
    (req : ChatRequest) (policy : Option RoutingPolicy) (d : Decision)
    → IsKeyed reg
    → ((p : Provider) → In p listed → In p (all reg))
    → route_plan reg listed keywords req policy ≡ ok d
    → All (IsRegistered reg) d.candidates
unfolding route_plan
route_plan-IsRegistered reg [] keywords req policy d k sub e = cc
route_plan-IsRegistered reg (first ∷ rest) keywords req policy d k sub e =
    subst (λ r. AllOk reg r) e
      (plan_for-IsRegistered reg first keywords req _ (get_of_all reg first k (sub first here))
        (candidates_of-IsRegistered reg policy))
