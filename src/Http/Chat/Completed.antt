-- ===== src/Http/Chat/Completed.antt =====
-- How an admitted request ends: what follows the failover loop of `ServeHTTP`.
use nexus_ai_gateway.Prelude.{
  ℕ, ◌+◌, ◌<◌, String, ◌≡◌, ◌≢◌, refl, ap, subst, ◌∙◌, ◌⊎◌, inl, inr, true, false, sym, is_some,
  Bool-cases, Option, none, some, List, [], ◌∷◌, ◌++◌, arith, length, lookup,
}
use nexus_ai_gateway.Domain.Errors.{Err, nil, code_of, code_text}
use nexus_ai_gateway.Domain.Policy.{RoutingPolicy}
use nexus_ai_gateway.Domain.Requests.{
  RequestRecord, UsageEvent, complete, fail, failed_status, new_request_record, new_usage_event,
}
use nexus_ai_gateway.Provider.{ChatRequest, ChatResponse}
use nexus_ai_gateway.Routing.{Candidate, FallbackAttempt, Decision}
use nexus_ai_gateway.Http.Response.{ErrorResponse, write_error}
use nexus_ai_gateway.Http.Failover.{
  Execution, Attempt, served, exhausted, panicked, call, success, failure, crash,
}
use nexus_ai_gateway.Http.Response.Laws.{IsSendable, write_error-some}
use nexus_ai_gateway.Http.Failover.Laws.{Fails, Fails-length, Fails-ne_nil, Explains}
use nexus_ai_gateway.Http.Completion.{
  HeaderValue, text, OpenAiResponse, is_counted, settle, completed_record, route_headers,
  to_open_ai_response,
}
use nexus_ai_gateway.Http.Chat.{
  Surroundings, Outcome, completed, failed as failed_with, conclude, miscounted, save_and_emit,
  respond_error,
}

-- The client is sent the answer of `c`, under its name, and the record and the event say who answered
-- and after how many failures.
pub record IsAnswered (request_id project_id : String) (failures : ℕ) (c : Candidate)
    (resp : ChatResponse) (o : Outcome) : Type 0 where
  pub headers : List (String × HeaderValue)
  pub body : OpenAiResponse
  pub entry : RequestRecord
  pub event : UsageEvent
  pub replied : o.response ≡ some (completed headers body)
  pub saved : o.saved ≡ (entry, event) ∷ []
  pub content : body.choices ≡ resp.choices
  pub identified : body.x_request_id ≡ request_id
  pub routed :
      (lookup "X-Nexus-Route-Model" headers ≡ some (text c.model))
      × (lookup "X-Nexus-Route-Provider" headers ≡ some (text c.provider_id))
  pub recorded :
      (entry.status ≡ "success")
      × (entry.request_id ≡ request_id)
      × (entry.project_id ≡ project_id)
      × (entry.model ≡ c.model)
      × (entry.provider ≡ c.provider_id)
      × (entry.total_tokens ≡ resp.usage.total_tokens)
  pub retried : entry.retry_count ≡ failures
  pub flagged :
      (failures ≡ 0 → entry.fallback_used ≡ false) × (0 < failures → entry.fallback_used ≡ true)
  pub emitted :
      (event.status ≡ "success") × (event.model ≡ c.model) × (event.retry_count ≡ failures)

-- The request is recorded and emitted under the last error's code. The client is sent that error, if its
-- status can be sent; otherwise the handler panics when it writes the status.
pub record IsFailed (request_id project_id : String) (e : Err) (o : Outcome) : Type 0 where
  pub entry : RequestRecord
  pub event : UsageEvent
  pub answer : Option ErrorResponse
  pub proper : e ≢ nil
  pub written : write_error request_id e ≡ answer
  pub replied : o.response ≡ elim answer [ none ↦ none | some reply ↦ some (failed_with [] reply) ]
  pub sendable : IsSendable e → is_some answer ≡ true
  pub saved : o.saved ≡ (entry, event) ∷ []
  pub recorded :
      (entry.request_id ≡ request_id)
      × (entry.project_id ≡ project_id)
      × (entry.error_code ≡ code_text (code_of e))
      × (entry.status ≡ failed_status (code_of e))
      × (event.status ≡ failed_status (code_of e))

pub respond_error-some :
    (headers : List (String × HeaderValue)) (request_id : String) (e : Err) (reply : ErrorResponse)
    → write_error request_id e ≡ some reply
    → respond_error headers request_id e ≡ some (failed_with headers reply)
unfolding respond_error
respond_error-some headers request_id e reply w = rw (w, respond_error)

-- What makes the handler panic: neither an answer nor an error, or an answer with a negative count of
-- input or output tokens.
abbrev pub IsFatal : Attempt → Type 0
IsFatal crash = Unit
IsFatal (success resp) = is_counted resp.usage ≡ false
IsFatal (failure e) = ⊥

pub zero_add : (n : ℕ) → 0 + n ≡ n
zero_add n = omega arith

module _ (env : Surroundings) (request_id project_id : String) (plan : Decision) where
  -- The three ways in which a plan's execution ends, for a chain that is not empty.
  abbrev pub Ends : ChatRequest → Outcome → Type 0
  Ends req o =
      ((failed : List Candidate) × (c : Candidate) × (rest : List Candidate) × (trace : List
          FallbackAttempt)
        × (last : Err) × (resp : ChatResponse) × (plan.candidates ≡ failed ++ (c ∷ rest))
        × Fails req 0 failed trace nil last
        × (call (length failed) req c ≡ success resp)
        × (is_counted resp.usage ≡ true)
        × IsAnswered request_id project_id (length failed) c resp o)
      ⊎ (((trace : List FallbackAttempt) × (last : Err) × Fails req 0 plan.candidates trace nil last
            × IsFailed request_id project_id last o)
          ⊎ ((failed : List Candidate) × (c : Candidate) × (rest : List Candidate)
              × (plan.candidates ≡ failed ++ (c ∷ rest))
              × IsFatal (call (length failed) req c)
              × (o.response ≡ none)
              × (o.saved ≡ [])))

module _ (env : Surroundings) (request_id project_id : String) (policy : Option RoutingPolicy)
    (plan : Decision) (untraced : plan.fallback_trace ≡ []) where
  pub conclude-served :
      (i : ℕ) (resp : ChatResponse) (c : Candidate) (trace : List FallbackAttempt)
      → is_counted resp.usage ≡ true
      → IsAnswered request_id project_id
          (length trace)
          c
          resp
          (conclude env request_id project_id policy plan (served i resp c trace))
  unfolding conclude completed_record settle route_headers to_open_ai_response save_and_emit
      complete new_request_record new_usage_event lookup
  conclude-served i resp c [] counted =
      rw (untraced, conclude, counted)
        (record {
          headers = _;
          body = _;
          entry = _;
          event = _;
          replied = refl;
          saved = refl;
          content = refl;
          identified = refl;
          routed = (refl, refl);
          recorded = (refl, refl, refl, refl, refl, refl);
          retried = refl;
          flagged = (λ _. refl, λ h. absurd (omega arith));
          emitted = (refl, refl, refl);
        })
  conclude-served i resp c (a ∷ trace) counted =
      rw (untraced, conclude, counted)
        (record {
          headers = _;
          body = _;
          entry = _;
          event = _;
          replied = refl;
          saved = refl;
          content = refl;
          identified = refl;
          routed = (refl, refl);
          recorded = (refl, refl, refl, refl, refl, refl);
          retried = refl;
          flagged = (λ h. absurd (omega arith), λ _. refl);
          emitted = (refl, refl, refl);
        })

  conclude-exhausted :
      (e : Err) (trace : List FallbackAttempt)
      → e ≢ nil
      → IsFailed request_id project_id e
          (conclude env request_id project_id policy plan (exhausted e trace))
  unfolding conclude save_and_emit fail new_request_record new_usage_event
  conclude-exhausted e trace h = record {
    proper = h;
    entry = _;
    event = _;
    answer = write_error request_id e;
    written = refl;
    replied = unfold respond_error in refl;
    sendable = λ h. let (reply, w) = write_error-some request_id e h in rw w refl;
    saved = refl;
    recorded = (refl, refl, refl, refl, refl);
  }

  conclude-miscounted :
      (i : ℕ) (resp : ChatResponse) (c : Candidate) (trace : List FallbackAttempt)
      → is_counted resp.usage ≡ false
      → let o = conclude env request_id project_id policy plan (served i resp c trace) in
        (o.response ≡ none) × (o.saved ≡ [])
  unfolding conclude miscounted
  conclude-miscounted i resp c trace e = rw (conclude, e) (refl, refl)

  pub conclude-Ends :
      (req : ChatRequest) (x : Execution)
      → plan.candidates ≢ []
      → Explains req 0 plan.candidates nil [] x
      → Ends env request_id project_id plan req (conclude env request_id project_id policy plan x)
  conclude-Ends req (served j resp c trace) h (failed, rest, new, last, p, q, f, n, s) =
      let s' = subst (λ k. call k req c ≡ success resp) (n ∙ zero_add (length failed)) s in
      elim (Bool-cases (is_counted resp.usage)) [
        | inl counted ↦ inl (
          failed,
          c,
          rest,
          new,
          last,
          resp,
          p,
          f,
          s',
          counted,
          subst
              (λ k.
                IsAnswered request_id project_id k c resp
                  (conclude env request_id project_id policy plan (served j resp c trace)))
              (ap length q ∙ Fails-length f) (conclude-served j resp c trace counted),
        )
        | inr e ↦
            let (response, saved) = conclude-miscounted j resp c trace e in
            inr (inr (failed, c, rest, p, subst IsFatal (sym s') e, response, saved))
      ]
  conclude-Ends req (exhausted e trace) h (new, q, f) =
      inr (inl (new, e, f, conclude-exhausted e trace (Fails-ne_nil f (inr h))))
  conclude-Ends req (panicked trace) h (failed, c, rest, new, last, p, q, f, s) = inr (
      inr (
        failed,
        c,
        rest,
        p,
        subst IsFatal (sym (subst (λ k. call k req c ≡ crash) (zero_add (length failed)) s)) tt,
        unfold conclude in refl,
        unfold conclude in refl,
      ))
