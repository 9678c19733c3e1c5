-- ===== src/Http/Failover/Laws.antt =====
-- The failover loop against a description of which candidate answers.
use nexus_ai_gateway.Prelude.{
  ℕ, suc, ◌+◌, ◌≡◌, ◌≢◌, refl, sym, ap, subst, ◌⊎◌, inl, inr, ◌∙◌, none, some, List, [], ◌∷◌, ◌++◌,
  arith, length,
}
use mathlib.Core.List.{append_assoc, append-nil}
use nexus_ai_gateway.Domain.Errors.{Err, nil}
use nexus_ai_gateway.Provider.{ChatRequest, ChatResponse, Answer}
use nexus_ai_gateway.Routing.{Candidate, FallbackAttempt}
use nexus_ai_gateway.Http.Failover.{
  Attempt, success, failure, crash, classify, attempt_of, call, Execution, served, exhausted,
  panicked, execute,
}

-- The candidates fail in turn, from the i-th call on. `trace` records the failures; the error before
-- the first call is `before`, and after the last one `last`.
pub data Fails (req : ChatRequest)
    : ℕ → List Candidate → List FallbackAttempt → Err → Err → Type 0 where
  done : {i : ℕ} {e : Err} → Fails req i [] [] e e
  next :
      {i : ℕ} {c : Candidate} {cs : List Candidate} {trace : List FallbackAttempt}
      {before e last : Err}
      → call i req c ≡ failure e
      → Fails req (suc i) cs trace e last
      → Fails req i (c ∷ cs) (attempt_of c e ∷ trace) before last

pub Fails-length :
    {req : ChatRequest} {i : ℕ} {cs : List Candidate} {trace : List FallbackAttempt}
    {before last : Err}
    → Fails req i cs trace before last
    → length trace ≡ length cs
Fails-length done = refl
Fails-length (next e f) = ap suc (Fails-length f)

-- What each outcome of the loop says of the candidates and their answers.
abbrev pub Explains :
    ChatRequest → ℕ → List Candidate → Err → List FallbackAttempt → Execution → Type 0
Explains req i cs before seen (served j resp c trace) =
    (failed : List Candidate) × (rest : List Candidate) × (new : List FallbackAttempt)
    × (last : Err) × (cs ≡ failed ++ (c ∷ rest))
    × (trace ≡ seen ++ new)
    × Fails req i failed new before last
    × (j ≡ i + length failed)
    × (call j req c ≡ success resp)
Explains req i cs before seen (exhausted last trace) =
    (new : List FallbackAttempt) × (trace ≡ seen ++ new) × Fails req i cs new before last
Explains req i cs before seen (panicked trace) =
    (failed : List Candidate) × (c : Candidate) × (rest : List Candidate) × (new : List
      FallbackAttempt)
    × (last : Err) × (cs ≡ failed ++ (c ∷ rest))
    × (trace ≡ seen ++ new)
    × Fails req i failed new before last
    × (call (i + length failed) req c ≡ crash)

module _ (req : ChatRequest) (i : ℕ) (c : Candidate) (cs : List Candidate) (before : Err)
    (seen : List FallbackAttempt) where
  execute-success :
      {resp : ChatResponse}
      → call i req c ≡ success resp
      → execute i req before seen (c ∷ cs) ≡ served i resp c seen
  unfolding execute
  execute-success e = rw (e, execute)

  execute-failure :
      {e : Err}
      → call i req c ≡ failure e
      → execute i req before seen (c ∷ cs)
        ≡ execute (suc i) req e (seen ++ (attempt_of c e ∷ [])) cs
  unfolding execute
  execute-failure h = rw (h, execute)

  execute-crash : call i req c ≡ crash → execute i req before seen (c ∷ cs) ≡ panicked seen
  unfolding execute
  execute-crash e = rw (e, execute)

  shift : (failed : List Candidate) → suc i + length failed ≡ i + length (c ∷ failed)
  shift failed = omega arith

  explain_failure :
      (e : Err) (x : Execution)
      → call i req c ≡ failure e
      → Explains req (suc i) cs e (seen ++ (attempt_of c e ∷ [])) x
      → Explains req i (c ∷ cs) before seen x
  explain_failure e (served j resp d trace) h (failed, rest, new, last, p, q, f, n, s) = (
    c ∷ failed,
    rest,
    attempt_of c e ∷ new,
    last,
    ap (λ l. c ∷ l) p,
    q ∙ append_assoc seen _ new,
    next h f,
    omega arith,
    s,
  )
  explain_failure e (exhausted last trace) h (new, q, f) =
      (attempt_of c e ∷ new, q ∙ append_assoc seen _ new, next h f)
  explain_failure e (panicked trace) h (failed, d, rest, new, last, p, q, f, s) = (
    c ∷ failed,
    d,
    rest,
    attempt_of c e ∷ new,
    last,
    ap (λ l. c ∷ l) p,
    q ∙ append_assoc seen _ new,
    next h f,
    subst (λ n. call n req d ≡ crash) (shift failed) s,
  )

plus-zero : (i : ℕ) → i ≡ i + 0
plus-zero i = omega arith

pub Attempt-cases :
    (a : Attempt)
    → ((resp : ChatResponse) × (a ≡ success resp)) ⊎ (((e : Err) × (a ≡ failure e)) ⊎ (a ≡ crash))
Attempt-cases (success resp) = inl (resp, refl)
Attempt-cases (failure e) = inr (inl (e, refl))
Attempt-cases crash = inr (inr refl)

-- The loop ends with the first answer and a trace of the failures before it, or without an answer and
-- with a trace of the failures of all candidates, or panics at a provider that returns two nils.
pub execute-Explains :
    (req : ChatRequest) (i : ℕ) (before : Err) (seen : List FallbackAttempt) (cs : List Candidate)
    → Explains req i cs before seen (execute i req before seen cs)
unfolding execute
execute-Explains req i before seen [] = ([], sym (append-nil seen), done)
execute-Explains req i before seen (c ∷ cs) = elim (Attempt-cases (call i req c)) [
  | inl (resp, h) ↦
      subst (Explains req i (c ∷ cs) before seen) (sym (execute-success req i c cs before seen h))
        ([], cs, [], before, refl, sym (append-nil seen), done, omega arith, h)
  | inr (inl (e, h)) ↦
      subst (Explains req i (c ∷ cs) before seen) (sym (execute-failure req i c cs before seen h)) (
        explain_failure req i c cs before seen e _ h
          (execute-Explains req (suc i) e (seen ++ (attempt_of c e ∷ [])) cs))
  | inr (inr h) ↦
      subst (Explains req i (c ∷ cs) before seen) (sym (execute-crash req i c cs before seen h)) (
        [],
        c,
        cs,
        [],
        before,
        refl,
        sym (append-nil seen),
        done,
        subst (λ n. call n req c ≡ crash) (plus-zero i) h,
      )
]

-- If some candidates fail and the next one answers, the loop ends there, whatever comes after.
pub execute-served :
    {req : ChatRequest} {i : ℕ} {failed : List Candidate} {trace : List FallbackAttempt}
    {before last : Err} {resp : ChatResponse} (seen : List FallbackAttempt) (c : Candidate)
    (rest : List Candidate)
    → Fails req i failed trace before last
    → call (i + length failed) req c ≡ success resp
    → execute i req before seen (failed ++ (c ∷ rest))
      ≡ served (i + length failed) resp c (seen ++ trace)
execute-served {req} {i} {before} {resp} seen c rest done s =
    let e : i ≡ i + 0 = omega arith in
    execute-success req i c rest before seen (subst (λ n. call n req c ≡ success resp) (sym e) s)
    ∙ ap (λ n. served n resp c seen) e
    ∙ ap (served (i + 0) resp c) (sym (append-nil seen))
execute-served {req} {i} {before} {resp} seen c rest (next {c = d} {cs} {trace} {e} h f) s =
    let m : i + length (d ∷ cs) ≡ suc i + length cs = omega arith in
    execute-failure req i d _ before seen h
    ∙ execute-served (seen ++ (attempt_of d e ∷ [])) c rest f
        (subst (λ n. call n req c ≡ success resp) m s)
    ∙ ap (λ n. served n resp c ((seen ++ (attempt_of d e ∷ [])) ++ trace)) (sym m)
    ∙ ap (served (i + length (d ∷ cs)) resp c) (append_assoc seen (attempt_of d e ∷ []) trace)

-- If all candidates fail, the loop ends with the last error and the trace of all failures.
pub execute-exhausted :
    {req : ChatRequest} {i : ℕ} {cs : List Candidate} {trace : List FallbackAttempt}
    {before last : Err} (seen : List FallbackAttempt)
    → Fails req i cs trace before last
    → execute i req before seen cs ≡ exhausted last (seen ++ trace)
unfolding execute
execute-exhausted {last} seen done = ap (exhausted last) (sym (append-nil seen))
execute-exhausted {req} {i} {before} {last} seen (next {c} {cs} {trace} {e} h f) =
    execute-failure req i c cs before seen h
    ∙ execute-exhausted (seen ++ (attempt_of c e ∷ [])) f
    ∙ ap (exhausted last) (append_assoc seen _ trace)

classify-failure : (a : Answer) (e : Err) → classify a ≡ failure e → e ≢ nil
unfolding classify
classify-failure (some resp, nil) e h = cc
classify-failure (none, nil) e h = cc
classify-failure (_, x) e h = cc

pub call-failure :
    (i : ℕ) (req : ChatRequest) (c : Candidate) (e : Err) → call i req c ≡ failure e → e ≢ nil
unfolding call
call-failure i req c e h = classify-failure _ e h

-- Where there is a candidate, the last error is an error.
pub Fails-ne_nil :
    {req : ChatRequest} {i : ℕ} {cs : List Candidate} {trace : List FallbackAttempt}
    {before last : Err}
    → Fails req i cs trace before last
    → (before ≢ nil) ⊎ (cs ≢ [])
    → last ≢ nil
Fails-ne_nil done (inl h) = h
Fails-ne_nil done (inr h) = absurd (h refl)
Fails-ne_nil (next {i} {c} {e} h f) _ = Fails-ne_nil f (inl (call-failure _ _ c e h))
