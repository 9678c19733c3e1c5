-- ===== src/Http/Failover.antt =====
-- internal/http/handlers/chat.go, step 9 of `ServeHTTP`: the candidates are tried in turn.
pub mod Laws
use nexus_ai_gateway.Prelude.{ℕ, suc, none, some, List, [], ◌∷◌, ◌++◌}
use nexus_ai_gateway.Domain.Errors.{Err, nil, error_text}
use nexus_ai_gateway.Provider.{ChatRequest, ChatResponse, Answer}
use nexus_ai_gateway.Routing.{Candidate, FallbackAttempt}

-- The tests on `resp, err`. `crash` is an answer of two nils: the text of the nil error is asked for,
-- which panics.
pub data Attempt : Type 0 where
  success : ChatResponse → Attempt
  failure : Err → Attempt
  crash : Attempt

unfoldable pub classify : Answer → Attempt
classify (some resp, nil) = success resp
classify (none, nil) = crash
classify (_, e) = failure e

unfoldable pub attempt_of : Candidate → Err → FallbackAttempt
attempt_of c e = record {
  model = c.model;
  provider_id = c.provider_id;
  tier = c.tier;
  error = error_text e;
  reason = "Provider call returned error, redirecting to next available candidate in pool";
}

-- The call of one candidate: `provReq.Model` is set first.
unfoldable pub call : ℕ → ChatRequest → Candidate → Attempt
unfolding classify
call i req c = classify (c.provider.chat i (record req { model = c.model }))

-- How the loop ends: with an answer, the candidate that gave it and its index, without one, or in a
-- panic. `trace` holds the failed attempts.
pub data Execution : Type 0 where
  served : ℕ → ChatResponse → Candidate → (trace : List FallbackAttempt) → Execution
  exhausted : Err → (trace : List FallbackAttempt) → Execution
  panicked : (trace : List FallbackAttempt) → Execution

unfoldable pub execute : ℕ → ChatRequest → Err → List FallbackAttempt → List Candidate → Execution
execute i req last_err trace [] = exhausted last_err trace
execute i req last_err trace (c ∷ cs) = elim (call i req c) [
  | success resp ↦ served i resp c trace
  | failure e ↦ execute (suc i) req e (trace ++ (attempt_of c e ∷ [])) cs
  | crash ↦ panicked trace
]
