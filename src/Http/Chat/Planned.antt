-- ===== src/Http/Chat/Planned.antt =====
-- Steps 6 to 13 of `ServeHTTP` for a request that the engine has planned.
use mathlib.Core.List.{cons≢nil}
use nexus_ai_gateway.Prelude.{
  true, ℕ, ◌+◌, String, ◌≡◌, ◌≢◌, refl, sym, ap, subst, ◌∙◌, Option, List, [], ◌∷◌, ◌++◌, length,
}
use nexus_ai_gateway.Domain.Errors.{Err, nil, Result, ok, err}
use nexus_ai_gateway.Domain.Policy.{RoutingPolicy}
use nexus_ai_gateway.Provider.{ChatRequest, ChatResponse, Provider}
use nexus_ai_gateway.Provider.Registry.{Registry}
use nexus_ai_gateway.Routing.{Candidate, FallbackAttempt, Decision}
use nexus_ai_gateway.Routing.Plan.{
  route_plan, plan_for, plan_dynamic, decide_policy, decide, finish,
}
use nexus_ai_gateway.Routing.Select.{Selection}
use nexus_ai_gateway.Routing.Chain.{plan_for-IsLed}
use nexus_ai_gateway.Http.Prompt.{Headers, ChatBody, provider_request}
use nexus_ai_gateway.Http.Completion.{is_counted}
use nexus_ai_gateway.Http.Failover.{served, execute, call, success}
use nexus_ai_gateway.Http.Failover.Laws.{Fails, Fails-length, execute-Explains, execute-served}
use nexus_ai_gateway.Http.Chat.{Gateway, Surroundings, conclude, serve_plan, serve_body}
use nexus_ai_gateway.Http.Chat.Completed.{
  IsAnswered, Ends, conclude-served, conclude-Ends, zero_add,
}

finish-untraced :
    (first : Provider) (model : String) (n : ℕ) (s : Selection) (cs : List Candidate)
    → (finish first model n s cs).fallback_trace ≡ []
unfolding finish decide
finish-untraced first model n s [] = refl
finish-untraced first model n s (c ∷ cs) = refl

plan_for-untraced :
    (reg : Registry) (first : Provider) (keywords : List (String × String)) (req : ChatRequest)
    (cs : List Candidate)
    → (plan_for reg first keywords req cs).fallback_trace ≡ []
unfolding plan_for plan_dynamic decide_policy
plan_for-untraced reg first keywords req [] = finish-untraced first _ _ _ _
plan_for-untraced reg first keywords req (c ∷ cs) = refl

abbrev IsFresh : Result Decision → Type 0
IsFresh (ok d) = (d.candidates ≢ []) × (d.fallback_trace ≡ [])
IsFresh (err e) = Unit

plan_for-filled :
    (reg : Registry) (first : Provider) (keywords : List (String × String)) (req : ChatRequest)
    (cs : List Candidate)
    → (plan_for reg first keywords req cs).candidates ≢ []
plan_for-filled reg first keywords req cs h =
    let (c, rest, e, _, _) = plan_for-IsLed reg first keywords req cs in cons≢nil (sym e ∙ h)

-- A plan has candidates, and no failures yet.
route_plan-IsFresh :
    (reg : Registry) (listed : List Provider) (keywords : List (String × String))
    (req : ChatRequest) (policy : Option RoutingPolicy)
    → IsFresh (route_plan reg listed keywords req policy)
unfolding route_plan
route_plan-IsFresh reg [] keywords req policy = tt
route_plan-IsFresh reg (first ∷ rest) keywords req policy =
    (plan_for-filled reg first keywords req _, plan_for-untraced reg first keywords req _)

-- The request as the providers get it, but for the model.
abbrev pub sent : String → String → Headers → ChatBody → ChatRequest
sent = provider_request

module _ (g : Gateway) (env : Surroundings) (request_id project_id : String) (headers : Headers)
    (body : ChatBody) where
  abbrev pub policy : Option RoutingPolicy
  policy = (g.policies project_id).0

  abbrev pub request : ChatRequest
  request = provider_request request_id project_id headers body

  -- The engine's answer for this request.
  abbrev pub IsPlan : Decision → Type 0
  IsPlan plan = route_plan g.registry env.listed env.keywords request policy ≡ ok plan

  module _ (plan : Decision) where
    serve_body-conclude :
        IsPlan plan
        → serve_body g env request_id project_id headers body
          ≡ conclude env request_id project_id policy plan
              (execute 0 request nil [] plan.candidates)
    unfolding serve_body serve_plan
    serve_body-conclude p = rw p

    fresh : IsPlan plan → IsFresh (ok plan)
    fresh p = subst IsFresh p (route_plan-IsFresh g.registry env.listed env.keywords request policy)

    -- An admitted and planned request ends in one of three ways: some candidates fail and the next one
    -- answers, and the client gets that answer; or all fail, and the client gets the last error; or a
    -- provider returns neither an answer nor an error, and the handler panics.
    pub serve_body-Ends :
        IsPlan plan
        → Ends env request_id project_id plan request
            (serve_body g env request_id project_id headers body)
    serve_body-Ends p =
        let (filled, untraced) = fresh p in
        subst (Ends env request_id project_id plan request) (sym (serve_body-conclude p)) (
          conclude-Ends env request_id project_id policy plan untraced request _ filled
            (execute-Explains request 0 nil [] plan.candidates))

    -- If some candidates of the plan fail and the next one answers, with counts that are not negative, the client gets that answer.
    pub serve_body-IsAnswered :
        (failed rest : List Candidate) (c : Candidate) (trace : List FallbackAttempt) (last : Err)
        (resp : ChatResponse)
        → IsPlan plan
        → plan.candidates ≡ failed ++ (c ∷ rest)
        → Fails request 0 failed trace nil last
        → call (length failed) request c ≡ success resp
        → is_counted resp.usage ≡ true
        → IsAnswered request_id project_id
            (length failed)
            c
            resp
            (serve_body g env request_id project_id headers body)
    serve_body-IsAnswered failed rest c trace last resp p split f s counted =
        let (filled, untraced) = fresh p in
        let z = zero_add (length failed) in
        let run =
          execute-served [] c rest f (subst (λ k. call k request c ≡ success resp) (sym z) s) in
        let outcome = conclude env request_id project_id policy plan in
        let ends = ap (execute 0 request nil []) split ∙ run in
        subst (IsAnswered request_id project_id (length failed) c resp)
          (sym (serve_body-conclude p ∙ ap outcome ends))
          (subst
            (λ k.
              IsAnswered request_id project_id k c resp
                (outcome (served (0 + length failed) resp c trace)))
            (Fails-length f)
            (conclude-served env request_id project_id policy plan untraced _ resp c trace counted))
