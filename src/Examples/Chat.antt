-- ===== src/Examples/Chat.antt =====
-- One chat completion: the first candidate is down, and the second answers.
use mathlib.Core.List.{cons≢nil}
use text.Mathlib.TextLemmas.{cons≢nil as full_text}
use nexus_ai_gateway.Prelude.{
  Bool-cases, subst, inl, none, ◌==◌, ℕ, String, ◌^◌, ◌≡◌, ◌≢◌, refl, sym, ◌∙◌, true, some, [], ◌∷◌,
  ◌++◌, arith, inr, length, strip_prefix, decimal, here, lookup,
}
use nexus_ai_gateway.Domain.Errors.{Err, nil, err}
use nexus_ai_gateway.Provider.{ChatRequest, Provider}
use nexus_ai_gateway.Provider.Registry.{get}
use nexus_ai_gateway.Domain.Keys.{ApiKey}
use nexus_ai_gateway.Storage.Redis.{get as redis_get, set_with_ttl, increment_with_expiry}
use nexus_ai_gateway.Auth.Validator.{
  cached, cache_key, validate, validate_hashed, validate_from, validate_stored, remember,
}
use nexus_ai_gateway.Auth.Keys.{hash_key}
use nexus_ai_gateway.Auth.Validator.Laws.{IsKnown}
use nexus_ai_gateway.Tenant.{TenantContext}
use nexus_ai_gateway.RateLimit.{check, check_counter, judge, bucket, window_seconds, bucket_key}
use nexus_ai_gateway.Routing.{Candidate, Decision}
use nexus_ai_gateway.Routing.Pools.{policy_candidates, candidates_of, offer}
use nexus_ai_gateway.Routing.Plan.{route_plan, plan_for, decide_policy}
use nexus_ai_gateway.Http.Prompt.{header, ChatBody, provider_request}
use nexus_ai_gateway.Http.Failover.{
  classify, call, success, failure, execute, attempt_of, exhausted,
}
use nexus_ai_gateway.Http.Failover.Laws.{
  Fails, done, next, Explains, execute-Explains, execute-exhausted,
}
use nexus_ai_gateway.Http.Response.Laws.{IsSendable}
use nexus_ai_gateway.Http.Completion.{is_counted}
use nexus_ai_gateway.Provider.Adapter.Laws.{err≢ok}
use nexus_ai_gateway.Http.Chat.{serve, request_id_of, extract_bearer_token}
use nexus_ai_gateway.Http.Chat.Admission.{Admission, saved-Admission}
use nexus_ai_gateway.Http.Chat.Completed.{IsAnswered, Ends}
use nexus_ai_gateway.Http.Chat.Planned.{IsPlan}
use nexus_ai_gateway.Http.Chat.Responds.{IsAnswerable, IsSoundRegistry, Responds, serve-Responds}
use nexus_ai_gateway.Provider.Registry.{get as provider_get}
use nexus_ai_gateway.Examples.Routes.{registry-IsKeyed, listed-all}
use nexus_ai_gateway.Http.Chat.Served.{serve-Ends, serve-IsAnswered}
use nexus_ai_gateway.Examples.Codec.{key_codec}
use nexus_ai_gateway.Examples.Cache.{redis, empty_redis}
use nexus_ai_gateway.Examples.Data.{
  api_key, project, organization, gateway, surroundings, request, chat_body, chat_request, up, down,
  outage, greeting, registry, gemini, openai,
}

abbrev hash : String → String
hash s = "h:" ^ s

down-fails : (i : ℕ) (req : ChatRequest) → call i req down ≡ failure outage
unfolding call
down-fails i req = refl

up-answers : (i : ℕ) (req : ChatRequest) → call i req up ≡ success greeting
unfolding call
up-answers i req = refl

first-fails : (req : ChatRequest) → call 0 req (record down { tier = "primary" }) ≡ failure outage
unfolding call
first-fails req = refl

second_try-answers :
    (req : ChatRequest) → call 1 req (record up { tier = "policy-fallback" }) ≡ success greeting
unfolding call
second_try-answers req = refl

down-Fails : (req : ChatRequest) → Fails req 0 (down ∷ []) (attempt_of down outage ∷ []) nil outage
down-Fails req = next (down-fails 0 req) done

execute-Explains_example :
    Explains
      (chat_request "auto")
      0
      (down ∷ up ∷ [])
      nil
      []
      (execute 0 (chat_request "auto") nil [] (down ∷ up ∷ []))
execute-Explains_example = execute-Explains (chat_request "auto") 0 nil [] (down ∷ up ∷ [])

execute-exhausted_example :
    execute 0 (chat_request "auto") nil [] (down ∷ [])
    ≡ exhausted outage ([] ++ (attempt_of down outage ∷ []))
execute-exhausted_example = execute-exhausted [] (down-Fails (chat_request "auto"))

greeting-counted : is_counted greeting.usage ≡ true
unfolding is_counted
greeting-counted = refl

abbrev tenant : TenantContext
tenant = record { organization = organization; project = project; api_key = api_key }

token : extract_bearer_token request.headers ≡ "ngk_live_a"
unfolding extract_bearer_token strip_prefix header lookup
token = refl

token-ne_nil : extract_bearer_token request.headers ≢ ""
unfolding extract_bearer_token strip_prefix header lookup
token-ne_nil = full_text

api_key-IsKnown :
    IsKnown redis key_codec hash 10 gateway.keys
      (hash (extract_bearer_token request.headers))
      (some empty_redis)
      api_key
unfolding extract_bearer_token strip_prefix header lookup cached redis_get
api_key-IsKnown = inr (refl, refl)

first_request-allowed :
    (check redis 10 "project" "p1" gateway.default_limit
      (validate redis key_codec hash 10 300 gateway.keys
        (extract_bearer_token request.headers)
        (some empty_redis)).1).0.allowed
    ≡ true
unfolding check check_counter judge increment_with_expiry bucket bucket_key window_seconds validate
    validate_hashed validate_from validate_stored remember set_with_ttl hash_key cached redis_get
    extract_bearer_token strip_prefix header lookup decimal cache_key
first_request-allowed = refl

admitted :
    Admission redis key_codec hash gateway surroundings request
      (some empty_redis)
      api_key
      tenant
      chat_body
admitted = record {
  posted = refl;
  has_token = token-ne_nil;
  known = api_key-IsKnown;
  live = (refl, λ t e. ground arith);
  tenant = (refl, refl, refl, refl, refl);
  scoped = inr here;
  within_limit = first_request-allowed;
  decodes = refl;
  has_messages = cons≢nil;
}

abbrev first : Candidate
first = record down { tier = "primary" }

abbrev second_try : Candidate
second_try = record up { tier = "policy-fallback" }

abbrev sent : ChatRequest
sent = provider_request "r1" "p1" request.headers chat_body

abbrev plan : Decision
plan = decide_policy sent first (second_try ∷ [])

plan-IsPlan :
    IsPlan gateway surroundings
      (request_id_of surroundings request.headers)
      "p1"
      request.headers
      chat_body
      plan
unfolding route_plan candidates_of policy_candidates plan_for offer get lookup provider_request
    decide_policy
plan-IsPlan = refl

serve-Ends_example :
    (d : Decision) × IsPlan gateway surroundings
      (request_id_of surroundings request.headers)
      "p1"
      request.headers
      chat_body
      d
    × Ends surroundings
        (request_id_of surroundings request.headers)
        "p1"
        d
        (provider_request
          (request_id_of surroundings request.headers)
          "p1"
          request.headers
          chat_body)
        (serve redis key_codec hash gateway surroundings request (some empty_redis)).0
serve-Ends_example =
    serve-Ends redis key_codec hash gateway surroundings request (some empty_redis) api_key tenant
      chat_body admitted cons≢nil

plan-split : plan.candidates ≡ (first ∷ []) ++ (second_try ∷ [])
unfolding decide_policy
plan-split = refl

answered :
    IsAnswered
      (request_id_of surroundings request.headers)
      "p1"
      (length (first ∷ []))
      second_try
      greeting
      (serve redis key_codec hash gateway surroundings request (some empty_redis)).0
answered =
    serve-IsAnswered redis key_codec hash gateway surroundings request (some empty_redis) api_key
      tenant chat_body plan (first ∷ []) [] second_try (attempt_of first outage ∷ []) outage
      greeting admitted plan-IsPlan plan-split (next (first-fails _) done) (second_try-answers _)
      greeting-counted

saved-Admission_example :
    (key : ApiKey) × (tc : TenantContext) × (body : ChatBody) × Admission redis key_codec hash
      gateway surroundings request
      (some empty_redis)
      key
      tc
      body
saved-Admission_example =
    saved-Admission redis key_codec hash gateway surroundings request (some empty_redis)
      (λ e. cons≢nil (sym answered.saved ∙ e))

outage-IsSendable : IsSendable outage
outage-IsSendable = inr (omega arith, omega arith)

gemini-IsSound : (i : ℕ) (req : ChatRequest) → IsAnswerable (classify (gemini.chat i req))
unfolding classify
gemini-IsSound i req = outage-IsSendable

openai-IsSound : (i : ℕ) (req : ChatRequest) → IsAnswerable (classify (openai.chat i req))
unfolding classify is_counted
openai-IsSound i req = refl

some-inj : {p q : Provider} → some p ≡ some q → p ≡ q
some-inj h = cc

none≢some : {p : Provider} → none ≡ some p → ⊥
none≢some h = cc

registry-IsSound : IsSoundRegistry registry
unfolding provider_get lookup
registry-IsSound id p h i req = elim (Bool-cases ("gemini" == id)) [
  | inl e ↦
      let same : some gemini ≡ some p = rw e at h in
      subst (λ q. IsAnswerable (classify (q.chat i req))) (some-inj same) (gemini-IsSound i req)
  | inr e ↦ elim (Bool-cases ("openai" == id)) [
    | inl f ↦
        let same : some openai ≡ some p = rw (e, f) at h in
        subst (λ q. IsAnswerable (classify (q.chat i req))) (some-inj same) (openai-IsSound i req)
    | inr f ↦ let missing : none ≡ some p = rw (e, f) at h in absurd (none≢some missing)
  ]
]

request-decodes : (e : Err) → request.decoded ≡ err e → IsSendable e
request-decodes e h = absurd (err≢ok (sym h))

serve-Responds_example :
    Responds (serve redis key_codec hash gateway surroundings request (some empty_redis)).0
serve-Responds_example =
    serve-Responds gateway surroundings registry-IsSound registry-IsKeyed listed-all cons≢nil redis
      key_codec hash request request-decodes (some empty_redis)
