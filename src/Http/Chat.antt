-- ===== src/Http/Chat.antt =====
-- internal/http/handlers/chat.go: `ServeHTTP`. `none` as a response is a panic. The goroutine of
-- `saveAndEmit` is given by what it stores and emits; log lines are left out.
pub mod Admission
pub mod Completed
pub mod Planned
pub mod Errors
pub mod Served
pub mod Responds
pub mod Adapters
use nexus_ai_gateway.Prelude.{
  ℕ, suc, ◌/◌, String, ◌^◌, not, ◌&&◌, Option, none, some, List, [], ◌∷◌, ◌++◌, ◌==◌, if◌then◌else◌,
  decimal, map, is_empty, strip_prefix,
}
use nexus_ai_gateway.Prelude.Int.{ℤ, pos, negsuc, is_negative}
use nexus_ai_gateway.Domain.Errors.{
  Err, nil, Code, new, code_of, err_unauthorized, err_forbidden, err_rate_limit_exceeded, Result,
  ok, err,
}
use nexus_ai_gateway.Domain.Keys.{ApiKey, has_scope, scope_inference_write, scope_admin}
use nexus_ai_gateway.Domain.Policy.{RoutingPolicy}
use nexus_ai_gateway.Domain.Requests.{
  RequestRecord, new_request_record, fail, UsageEvent, new_usage_event,
}
use nexus_ai_gateway.Provider.{ChatRequest, ChatResponse, Provider}
use nexus_ai_gateway.Provider.Registry.{Registry}
use nexus_ai_gateway.Storage.Redis.{Redis}
use nexus_ai_gateway.Auth.Validator.{KeyCodec, KeyStore, validate}
use nexus_ai_gateway.Tenant.{TenantContext, ProjectStore, OrganizationStore, resolve}
use nexus_ai_gateway.RateLimit.{Limit, check, second}
use nexus_ai_gateway.RateLimit
use nexus_ai_gateway.Routing.{Candidate, FallbackAttempt, Decision}
use nexus_ai_gateway.Routing.Plan.{route_plan}
use nexus_ai_gateway.Http.Response.{ErrorResponse, write_error}
use nexus_ai_gateway.Http.Prompt.{ChatBody, Headers, header, provider_request}
use nexus_ai_gateway.Http.Failover.{Execution, served, exhausted, panicked, execute}
use nexus_ai_gateway.Http.Completion.{
  HeaderValue, text, OpenAiResponse, is_counted, settle, completed_record, route_headers,
  to_open_ai_response,
}

-- The fields of the handler. A policy store returns a policy and an error.
pub record Gateway : Type 0 where
  pub keys : KeyStore
  pub cache_ttl : ℕ
  pub projects : ProjectStore
  pub organizations : OrganizationStore
  pub default_limit : Limit
  pub policies : String → Option RoutingPolicy × Err
  pub registry : Registry

-- What one request meets: the clock at each reading, fresh identifiers, the measured latency, and the
-- orders in which maps are ranged over.
pub record Surroundings : Type 0 where
  pub started_at : ℕ
  pub validated_at : ℕ
  pub limited_at : ℕ
  pub recorded_at : ℕ
  pub emitted_at : ℕ
  pub latency_ms : ℕ
  pub fresh_uuid : String
  pub record_uuid : String
  pub event_uuid : String
  pub listed : List Provider
  pub keywords : List (String × String)

-- `decoded` is what `decodeJSON` returns.
pub record Request : Type 0 where
  pub method : String
  pub headers : Headers
  pub decoded : Result ChatBody

pub data Response : Type 0 where
  not_allowed : Response
  failed : List (String × HeaderValue) → ErrorResponse → Response
  completed : List (String × HeaderValue) → OpenAiResponse → Response

-- The counters and histograms, with their labels; a duration is in milliseconds.
pub data Metric : Type 0 where
  rate_limit_rejections : String → Metric
  provider_fallback : String → String → Metric
  provider_requests : String → String → String → Metric
  provider_request_duration : String → String → ℕ → Metric
  llm_tokens : String → String → String → ℤ → Metric

pub record Outcome : Type 0 where
  pub response : Option Response
  pub saved : List (RequestRecord × UsageEvent)
  pub metrics : List Metric

-- `writeError` after some headers.
unfoldable pub respond_error : List (String × HeaderValue) → String → Err → Option Response
respond_error headers request_id e = elim (write_error request_id e) [
  | none ↦ none
  | some reply ↦ some (failed headers reply)
]

-- `writeError` and return.
unfoldable pub refuse : String → Err → Outcome
refuse request_id e = record { response = respond_error [] request_id e; saved = []; metrics = [] }

decimal_int : ℤ → String
decimal_int (pos n) = decimal n
decimal_int (negsuc n) = "-" ^ decimal (suc n)

-- Step 4, for a result that is not allowed.
unfoldable pub refuse_limited : String → RateLimit.Result → Outcome
unfolding decimal_int
refuse_limited request_id result = record {
  response =
      respond_error
        (("X-RateLimit-Limit", text (decimal_int result.limit))
          ∷ ("X-RateLimit-Remaining", text "0")
          ∷ ("X-RateLimit-Reset", text (decimal (result.reset_at / second)))
          ∷ [])
        request_id err_rate_limit_exceeded;
  saved = [];
  metrics = rate_limit_rejections "project" ∷ [];
}

unfoldable pub save_and_emit : Surroundings → RequestRecord → List (RequestRecord × UsageEvent)
save_and_emit env r = (r, new_usage_event env.event_uuid env.emitted_at r) ∷ []

unfoldable pub fallback_metrics : List FallbackAttempt → List Metric
fallback_metrics trace = map (λ a. provider_fallback a.provider_id "fallback") trace

-- Step 10 for an answer with a negative count of tokens: the counters before it are updated, and the
-- handler panics.
unfoldable pub miscounted : Surroundings → ChatResponse → Candidate → List FallbackAttempt → Outcome
miscounted env resp c trace = record {
  response = none;
  saved = [];
  metrics =
      fallback_metrics trace
      ++ (provider_requests c.provider_id c.model "success"
          ∷ provider_request_duration c.provider_id c.model env.latency_ms
          ∷ (if is_negative resp.usage.input_tokens
              then []
              else llm_tokens "input" c.provider_id c.model resp.usage.input_tokens ∷ []));
}

-- What follows the loop of step 9.
unfoldable pub conclude :
    Surroundings → String → String → Option RoutingPolicy → Decision → Execution → Outcome
conclude env request_id project_id policy plan (served i resp c trace) =
    let settled = settle plan i c trace in
    if not (is_counted resp.usage) then miscounted env resp c trace else record {
      response =
          some (
            completed (route_headers settled) (to_open_ai_response resp request_id (some settled)));
      saved = save_and_emit env (
          completed_record env.record_uuid env.recorded_at request_id project_id policy c resp
            env.latency_ms settled.fallback_trace);
      metrics =
          fallback_metrics trace
          ++ (provider_requests c.provider_id c.model "success"
              ∷ provider_request_duration c.provider_id c.model env.latency_ms
              ∷ llm_tokens "input" c.provider_id c.model resp.usage.input_tokens
              ∷ llm_tokens "output" c.provider_id c.model resp.usage.output_tokens
              ∷ []);
    }
conclude env request_id project_id policy plan (exhausted e trace) = record {
  response = respond_error [] request_id e;
  saved = save_and_emit env (
      fail (new_request_record env.record_uuid env.recorded_at request_id project_id) (code_of e)
        env.latency_ms);
  metrics = fallback_metrics trace;
}
conclude env request_id project_id policy plan (panicked trace) = record {
  response = none;
  saved = [];
  metrics = fallback_metrics trace;
}

-- The plan of step 8 is executed.
unfoldable pub serve_plan :
    Surroundings → String → String → ChatRequest → Option RoutingPolicy → Result Decision → Outcome
serve_plan env request_id project_id req policy (err e) = refuse request_id e
serve_plan env request_id project_id req policy (ok plan) =
    conclude env request_id project_id policy plan (execute 0 req nil [] plan.candidates)

-- Steps 6 to 8: the policy's error is only logged.
unfoldable pub serve_body : Gateway → Surroundings → String → String → Headers → ChatBody → Outcome
serve_body g env request_id project_id headers body =
    let req = provider_request request_id project_id headers body in
    let policy = (g.policies project_id).0 in
    serve_plan env request_id project_id req policy
      (route_plan g.registry env.listed env.keywords req policy)

-- Step 5
unfoldable pub serve_decoded :
    Gateway → Surroundings → String → String → Headers → Result ChatBody → Outcome
serve_decoded g env request_id project_id headers (err e) = refuse request_id e
serve_decoded g env request_id project_id headers (ok body) =
    if is_empty body.messages
    then refuse request_id (new Code.bad_request "messages is required and must not be empty")
    else serve_body g env request_id project_id headers body

-- The text after "Bearer ", and "" where there is none.
unfoldable pub extract_bearer_token : Headers → String
extract_bearer_token headers = elim (strip_prefix (header headers "Authorization") "Bearer ") [
  | none ↦ ""
  | some token ↦ token
]

-- An empty header is replaced by the identifier of a fresh record.
unfoldable pub request_id_of : Surroundings → Headers → String
request_id_of env headers =
    if header headers "X-Request-Id" == ""
    then (new_request_record env.fresh_uuid env.started_at "" "").request_id
    else header headers "X-Request-Id"

module _ (r : Redis) (codec : KeyCodec) (sha256_hex : String → String) where
  open r use {State}

  -- Step 3 and 4
  unfoldable pub serve_tenant :
      Gateway
      → Surroundings
      → String
      → Request
      → ApiKey
      → Result TenantContext
      → Option State
      → Outcome × Option State
  serve_tenant g env request_id req key (err e) cache = (refuse request_id e, cache)
  serve_tenant g env request_id req key (ok tc) cache =
      if not (has_scope key scope_inference_write) && not (has_scope key scope_admin)
      then (refuse request_id err_forbidden, cache)
      else (
        let result = (check r env.limited_at "project" tc.project.id g.default_limit cache).0 in
            if not result.allowed
            then refuse_limited request_id result
            else serve_decoded g env request_id tc.project.id req.headers req.decoded,
        (check r env.limited_at "project" tc.project.id g.default_limit cache).1,
      )

  -- Step 2
  unfoldable pub serve_key :
      Gateway
      → Surroundings
      → String
      → Request
      → Result ApiKey
      → Option State
      → Outcome × Option State
  serve_key g env request_id req (err e) cache = (refuse request_id e, cache)
  serve_key g env request_id req (ok key) cache =
      serve_tenant g env request_id req key (resolve g.projects g.organizations (some key)) cache

  -- Step 1
  unfoldable pub serve_token :
      Gateway → Surroundings → String → Request → String → Option State → Outcome × Option State
  serve_token g env request_id req token cache =
      if token == ""
      then (refuse request_id err_unauthorized, cache)
      else serve_key g env request_id req
          (validate r codec sha256_hex env.validated_at g.cache_ttl g.keys token cache).0
          (validate r codec sha256_hex env.validated_at g.cache_ttl g.keys token cache).1

  -- `ServeHTTP`
  unfoldable pub serve : Gateway → Surroundings → Request → Option State → Outcome × Option State
  serve g env req cache =
      if not (req.method == "POST")
      then (record { response = some not_allowed; saved = []; metrics = [] }, cache)
      else serve_token g env (request_id_of env req.headers) req (extract_bearer_token req.headers)
          cache
