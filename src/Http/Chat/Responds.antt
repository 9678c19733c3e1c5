-- ===== src/Http/Chat/Responds.antt =====
-- `ServeHTTP` does not panic, as long as the providers' answers and errors do not make it.
use nexus_ai_gateway.Http.Chat.Errors.{
  IsProper, IsProper-IsSendable, new-IsSendable, unauthorized-IsSendable, forbidden-IsSendable,
  limited-IsSendable, validate-IsProper, resolve-IsProper,
}
use nexus_ai_gateway.Prelude.{
  ℕ, String, ◌≡◌, ◌≢◌, refl, sym, ap, ◌∙◌, ◌⊎◌, subst, true, none, not, ◌&&◌, Option, some, List,
  [], ◌∷◌, ◌++◌, In, here, In-append_right, All, All-In, ◌==◌, Bool-cases, is_some, is_empty, inl,
  inr, length,
}
use mathlib.Core.Bool.{true≢false}
use nexus_ai_gateway.Domain.Errors.{Err, Code, Result, ok, err}
use nexus_ai_gateway.Domain.Keys.{ApiKey, has_scope, scope_inference_write, scope_admin}
use nexus_ai_gateway.Provider.{Provider, ChatRequest}
use nexus_ai_gateway.Provider.Registry.{Registry, get, all}
use nexus_ai_gateway.Provider.Registry.Laws.{IsKeyed}
use nexus_ai_gateway.Storage.Redis.{Redis}
use nexus_ai_gateway.Auth.Validator.{KeyCodec}
use nexus_ai_gateway.Tenant.{TenantContext}
use nexus_ai_gateway.RateLimit.{check}
use nexus_ai_gateway.Routing.{Candidate, FallbackAttempt, Decision}
use nexus_ai_gateway.Http.Prompt.{ChatBody, Headers}
use nexus_ai_gateway.Routing.Registered.{IsRegistered, route_plan-IsRegistered}
use nexus_ai_gateway.Routing.Chain.{route_plan-IsLed}
use nexus_ai_gateway.Http.Response.{ErrorResponse}
use nexus_ai_gateway.Http.Response.Laws.{IsSendable, write_error-some}
use nexus_ai_gateway.Http.Failover.{Attempt, success, failure, crash, call, classify}
use nexus_ai_gateway.Http.Failover.Laws.{Fails, done, next}
use nexus_ai_gateway.Http.Completion.{HeaderValue, is_counted}
use nexus_ai_gateway.Http.Chat.{
  Gateway, Surroundings, Request, failed as failed_with, Outcome, refuse, refuse_limited,
  respond_error, serve, serve_token, serve_key, serve_tenant, serve_decoded, serve_body,
  request_id_of, extract_bearer_token,
}
use nexus_ai_gateway.Http.Chat.Completed.{respond_error-some, IsFailed, IsFatal, Ends}
use nexus_ai_gateway.Http.Chat.Planned.{policy, request, serve_body-Ends}

-- The client gets a response.
abbrev pub Responds : Outcome → Type 0
Responds o = is_some o.response ≡ true

respond_error-responds :
    (headers : List (String × HeaderValue)) (request_id : String) (e : Err)
    → IsSendable e
    → is_some (respond_error headers request_id e) ≡ true
respond_error-responds headers request_id e h =
    let (reply, w) = write_error-some request_id e h in
    ap is_some (respond_error-some headers request_id e reply w)

refuse-Responds : (request_id : String) (e : Err) → IsSendable e → Responds (refuse request_id e)
unfolding refuse
refuse-Responds request_id e h = respond_error-responds [] request_id e h

-- An answer with counts of tokens that are not negative, or an error that can be sent.
abbrev pub IsAnswerable : Attempt → Type 0
IsAnswerable (success resp) = is_counted resp.usage ≡ true
IsAnswerable (failure e) = IsSendable e
IsAnswerable crash = ⊥

fatal : (x : Attempt) → IsAnswerable x → IsFatal x → ⊥
fatal (success resp) a f = true≢false (sym a ∙ f)
fatal (failure e) a f = f
fatal crash a f = a

-- Whatever a plan's candidates are asked, they return one of the two.
abbrev pub IsSound : List Candidate → Type 0
IsSound cs = All (λ c. (i : ℕ) (req : ChatRequest) → IsAnswerable (call i req c)) cs

split_sound :
    (failed : List Candidate) (c : Candidate) (rest cs : List Candidate)
    → cs ≡ failed ++ (c ∷ rest)
    → IsSound cs
    → (i : ℕ) (req : ChatRequest) → IsAnswerable (call i req c)
split_sound failed c rest cs e h =
    All-In (λ d. (i : ℕ) (req : ChatRequest) → IsAnswerable (call i req d)) cs h c
      (subst (In c) (sym e) (In-append_right failed (c ∷ rest) here))

last-IsSendable :
    {req : ChatRequest} {i : ℕ} {cs : List Candidate} {trace : List FallbackAttempt}
    {before last : Err}
    → Fails req i cs trace before last
    → IsSound cs
    → (last ≡ before) ⊎ IsSendable last
last-IsSendable done s = inl refl
last-IsSendable {req = req} {i = i} (next e f) (s, ss) = elim (last-IsSendable f ss) [
  | inl same ↦ inr (subst IsSendable (sym same) (subst IsAnswerable e (s i req)))
  | inr h ↦ inr h
]

-- Every registered provider returns one of the two, whatever it is asked.
abbrev pub IsSoundRegistry : Registry → Type 0
IsSoundRegistry reg =
    (id : String) (p : Provider)
    → get reg id ≡ some p
    → (i : ℕ) (req : ChatRequest) → IsAnswerable (classify (p.chat i req))

IsSound-candidates :
    (reg : Registry) (cs : List Candidate)
    → IsSoundRegistry reg
    → All (IsRegistered reg) cs
    → IsSound cs
unfolding call
IsSound-candidates reg [] s h = tt
IsSound-candidates reg (c ∷ cs) s (r, h) = (
  λ i req. s c.provider_id c.provider r i (record req { model = c.model }),
  IsSound-candidates reg cs s h,
)

failed-Responds :
    (id project_id : String) (e : Err) (o : Outcome)
    → IsSendable e
    → IsFailed id project_id e o
    → Responds o
failed-Responds id project_id e o h a = answered a.answer (a.sendable h) a.replied
  where
    answered :
        (answer : Option ErrorResponse)
        → is_some answer ≡ true
        → o.response ≡ elim answer [ none ↦ none | some reply ↦ some (failed_with [] reply) ]
        → Responds o
    answered none h r = absurd (true≢false (sym h))
    answered (some reply) h r = ap is_some r

Ends-Responds :
    (env : Surroundings) (id project_id : String) (plan : Decision) (req : ChatRequest)
    (o : Outcome)
    → IsSound plan.candidates
    → Ends env id project_id plan req o
    → Responds o
Ends-Responds env id project_id plan req o s
      (inl (before, c, rest, trace, last, resp, p, f, q, n, a)) =
    ap is_some a.replied
Ends-Responds env id project_id plan req o s (inr (inl (trace, last, f, a))) =
    elim (last-IsSendable f s) [
      | inl e ↦ absurd (a.proper e)
      | inr h ↦ failed-Responds id project_id last o h a
    ]
Ends-Responds env id project_id plan req o s (inr (inr (before, c, rest, p, q, n, m))) =
    absurd (fatal _ (split_sound before c rest plan.candidates p s (length before) req) q)

module _ (g : Gateway) (env : Surroundings) (sound : IsSoundRegistry g.registry)
    (keyed : IsKeyed g.registry) (sub : (p : Provider) → In p env.listed → In p (all g.registry))
    (filled : env.listed ≢ []) where
  body-Responds :
      (id project_id : String) (hs : Headers) (body : ChatBody)
      → Responds (serve_body g env id project_id hs body)
  body-Responds id project_id hs body =
      let (plan, p, _) =
        route_plan-IsLed g.registry env.listed env.keywords (request g env id project_id hs body)
          (policy g env id project_id hs body) filled in
      Ends-Responds env id project_id plan (request g env id project_id hs body) _
        (IsSound-candidates g.registry plan.candidates sound
          (route_plan-IsRegistered g.registry env.listed env.keywords _ _ plan keyed sub p))
        (serve_body-Ends g env id project_id hs body plan p)

  decoded-Responds :
      (id project_id : String) (hs : Headers) (answer : Result ChatBody)
      → ((e : Err) → answer ≡ err e → IsSendable e)
      → Responds (serve_decoded g env id project_id hs answer)
  unfolding serve_decoded
  decoded-Responds id project_id hs (err e) h = refuse-Responds id e (h e refl)
  decoded-Responds id project_id hs (ok body) h = elim (Bool-cases (is_empty body.messages)) [
    | inl e ↦ rw e (
        refuse-Responds id _
          (new-IsSendable Code.bad_request "messages is required and must not be empty"))
    | inr e ↦ rw e (body-Responds id project_id hs body)
  ]

  module _ (r : Redis) (codec : KeyCodec) (sha256_hex : String → String) (req : Request)
      (decoded : (e : Err) → req.decoded ≡ err e → IsSendable e) where
    open r use {State}

    tenant-Responds :
        (id : String) (key : ApiKey) (answer : Result TenantContext) (cache : Option State)
        → IsProper answer
        → Responds (serve_tenant r codec sha256_hex g env id req key answer cache).0
    unfolding serve_tenant refuse_limited
    tenant-Responds id key (err e) cache h = refuse-Responds id e (IsProper-IsSendable _ e h refl)
    tenant-Responds id key (ok tc) cache h =
        elim (Bool-cases
          (not (has_scope key scope_inference_write) && not (has_scope key scope_admin))) [
            | inl e ↦ rw e (refuse-Responds id _ forbidden-IsSendable)
            | inr e ↦
                elim (Bool-cases
                  (check r env.limited_at "project" tc.project.id g.default_limit
                    cache).0.allowed) [
                      | inl f ↦
                          rw (e, f)
                            (decoded-Responds id tc.project.id req.headers req.decoded decoded)
                      | inr f ↦ rw (e, f) (respond_error-responds _ id _ limited-IsSendable)
                    ]
          ]

    key-Responds :
        (id : String) (answer : Result ApiKey) (cache : Option State)
        → IsProper answer
        → Responds (serve_key r codec sha256_hex g env id req answer cache).0
    unfolding serve_key
    key-Responds id (err e) cache h = refuse-Responds id e (IsProper-IsSendable _ e h refl)
    key-Responds id (ok key) cache h =
        tenant-Responds id key _ cache (resolve-IsProper g.projects g.organizations key)

    token-Responds :
        (id token : String) (cache : Option State)
        → Responds (serve_token r codec sha256_hex g env id req token cache).0
    unfolding serve_token
    token-Responds id token cache = elim (Bool-cases (token == "")) [
      | inl e ↦ rw e (refuse-Responds id _ unauthorized-IsSendable)
      | inr e ↦ rw e (
          key-Responds id _ _
            (validate-IsProper r codec sha256_hex env.validated_at g.cache_ttl g.keys token cache))
    ]

    -- Every request is answered and the handler does not panic, whatever the request holds and whatever the
    -- stores and the caches return, if some provider is registered, the registry is keyed by identifiers
    -- and `All` lists only its adapters, a body that is not decoded comes with an error that can be sent,
    -- and a registered provider returns an answer without negative counts of input and output tokens, or
    -- an error that can be sent. An error can be sent if it is not nil, and has, if it is a provider's, no
    -- status or one from 100 to 999.
    pub serve-Responds :
        (cache : Option State) → Responds (serve r codec sha256_hex g env req cache).0
    unfolding serve
    serve-Responds cache = elim (Bool-cases (req.method == "POST")) [
      | inl e ↦
          rw e (
            token-Responds (request_id_of env req.headers) (extract_bearer_token req.headers) cache)
      | inr e ↦ rw e refl
    ]
