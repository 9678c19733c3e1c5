-- ===== src/Http/Chat/Served.antt =====
-- `ServeHTTP` as a whole, for requests that pass its guards.
use nexus_ai_gateway.Prelude.{
  true, String, ◌≡◌, ◌≢◌, sym, subst, Option, List, [], ◌∷◌, ◌++◌, ◌==◌, length, eq_iff, Bool-cases,
  inl, inr,
}
use nexus_ai_gateway.Domain.Errors.{Err, nil}
use nexus_ai_gateway.Domain.Keys.{ApiKey}
use nexus_ai_gateway.Domain.Requests.{new_request_record}
use nexus_ai_gateway.Provider.{ChatResponse}
use nexus_ai_gateway.Storage.Redis.{Redis}
use nexus_ai_gateway.Auth.Validator.{KeyCodec}
use nexus_ai_gateway.Tenant.{TenantContext}
use nexus_ai_gateway.Routing.{Candidate, FallbackAttempt, Decision}
use nexus_ai_gateway.Routing.Chain.{route_plan-IsLed}
use nexus_ai_gateway.Http.Prompt.{Headers, header, ChatBody}
use nexus_ai_gateway.Http.Failover.{call, success}
use nexus_ai_gateway.Http.Completion.{is_counted}
use nexus_ai_gateway.Http.Failover.Laws.{Fails}
use nexus_ai_gateway.Http.Chat.{Gateway, Surroundings, Request, request_id_of, serve}
use nexus_ai_gateway.Http.Chat.Admission.{Admission, serve-admitted}
use nexus_ai_gateway.Http.Chat.Completed.{IsAnswered, Ends}
use nexus_ai_gateway.Http.Chat.Planned.{
  IsPlan, policy, request, serve_body-Ends, serve_body-IsAnswered,
}

-- A request is known by its header, and by the empty text if the header is missing: the identifier
-- that is to replace it is taken from a record made with an empty one.
pub request_id_of-header :
    (env : Surroundings) (hs : Headers) → request_id_of env hs ≡ header hs "X-Request-Id"
unfolding request_id_of new_request_record
request_id_of-header env hs = elim (Bool-cases (header hs "X-Request-Id" == "")) [
  | inl e ↦ rw e (sym ((eq_iff (header hs "X-Request-Id") "").0 e))
  | inr e ↦ rw e
]

module _ (r : Redis) (codec : KeyCodec) (sha256_hex : String → String) (g : Gateway)
    (env : Surroundings) (req : Request) (cache : Option r.State) (key : ApiKey)
    (tc : TenantContext) (body : ChatBody) where
  abbrev id : String
  id = request_id_of env req.headers

  -- With a provider registered, a request that passes the guards is planned, and its plan is executed
  -- to one of three ends. The first candidate that answers is answered from, after failures of all
  -- before it. Or all candidates failed, which is recorded, and the last error is sent, or the handler
  -- panics as the error's status cannot be sent, which only an upstream error's can fail to be. Or a
  -- provider returned neither an answer nor an error, or an answer with a negative count of tokens, and the
  -- handler panics and saves nothing.
  pub serve-Ends :
      Admission r codec sha256_hex g env req cache key tc body
      → env.listed ≢ []
      → (plan : Decision) × IsPlan g env id tc.project.id req.headers body plan
        × Ends env id tc.project.id plan
            (request g env id tc.project.id req.headers body)
            (serve r codec sha256_hex g env req cache).0
  serve-Ends a h =
      let (plan, p, _) =
        route_plan-IsLed g.registry env.listed env.keywords
          (request g env id tc.project.id req.headers body)
          (policy g env id tc.project.id req.headers body) h in
      (
        plan,
        p,
        subst (Ends env id tc.project.id plan (request g env id tc.project.id req.headers body))
            (sym (serve-admitted r codec sha256_hex g env req cache key tc body a))
            (serve_body-Ends g env id tc.project.id req.headers body plan p),
      )

  pub serve-IsAnswered :
      (plan : Decision) (failed rest : List Candidate) (c : Candidate)
      (trace : List FallbackAttempt) (last : Err) (resp : ChatResponse)
      → Admission r codec sha256_hex g env req cache key tc body
      → IsPlan g env id tc.project.id req.headers body plan
      → plan.candidates ≡ failed ++ (c ∷ rest)
      → Fails (request g env id tc.project.id req.headers body) 0 failed trace nil last
      → call (length failed) (request g env id tc.project.id req.headers body) c ≡ success resp
      → is_counted resp.usage ≡ true
      → IsAnswered id tc.project.id
          (length failed)
          c
          resp
          (serve r codec sha256_hex g env req cache).0
  serve-IsAnswered plan failed rest c trace last resp a p split f s counted =
      subst (IsAnswered id tc.project.id (length failed) c resp)
        (sym (serve-admitted r codec sha256_hex g env req cache key tc body a))
        (serve_body-IsAnswered g env id tc.project.id req.headers body plan failed rest c trace last
          resp p split f s counted)
