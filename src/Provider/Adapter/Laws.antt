-- ===== src/Provider/Adapter/Laws.antt =====
-- internal/provider/{openai,anthropic,gemini}/adapter.go: what `Chat` answers, with the wire format open.
use nexus_ai_gateway.Prelude.{
  List, ℕ, String, ◌≡◌, ◌≢◌, refl, sym, ap, subst, true, false, Option, some, arith, eqb, inl, inr,
  ◌⊎◌, ◌↔◌, ◌≤◌, Bool-cases,
}
use nexus_ai_gateway.Domain.Errors.{
  Err, nil, domain, upstream, wrapped, plain, Result, ok, err, is_provider_retryable,
}
use nexus_ai_gateway.Provider.{ChatResponse, Answer, ChatChunk}
use nexus_ai_gateway.Provider.Stream.{Feed}
use nexus_ai_gateway.Provider.Adapter.{
  HttpRequest, HttpResponse, Exchange, unreachable, answered, Transport, Texts, is_nil, refused,
  timed_out, prepare, decoded, received, exchanged, complete_chat, start_stream, open_stream,
  is_status_code_retryable,
}

is_nil-eq : (e : Err) → is_nil e ≡ true → e ≡ nil
unfolding is_nil
is_nil-eq nil h = refl
is_nil-eq (domain _ _ _ _) h = cc
is_nil-eq (upstream _) h = cc
is_nil-eq (wrapped _ _) h = cc
is_nil-eq (plain _) h = cc

nil-test : (e : Err) → e ≡ nil → is_nil e ≡ false → ⊥
nil-test e n h =
    let k : is_nil nil ≡ false = subst (λ x. is_nil x ≡ false) n h in unfold is_nil in cc k

-- The statuses that are worth another try.
abbrev pub IsOverload : ℕ → Type 0
IsOverload code = (code ≡ 429) ⊎ ((500 ≤ code) × (code ≤ 504) × (code ≢ 501))

is_status_code_retryable_iff : (code : ℕ) → (is_status_code_retryable code ≡ true) ↔ IsOverload code
unfolding is_status_code_retryable
is_status_code_retryable_iff code = (λ h. ground arith, λ h. ground arith)

-- A failure that passes: the service was not reached, or answered in full that it is overloaded or
-- failed.
abbrev pub IsTransient : Exchange → Type 0
IsTransient (unreachable message) = Unit
IsTransient (answered r) = (r.read_error ≡ nil) × IsOverload r.status

pub Result-cases : {A : Type 0} (r : Result A) → ((a : A) × (r ≡ ok a)) ⊎ ((e : Err) × (r ≡ err e))
Result-cases (ok a) = inl (a, refl)
Result-cases (err e) = inr (e, refl)

ok-inj : {A : Type 0} {a b : A} → ok a ≡ ok b → a ≡ b
ok-inj h = cc

pub err≢ok : {A : Type 0} {a : A} {e : Err} → err e ≡ ok a → ⊥
err≢ok h = cc

module _ {Q R : Type 0} (id : String) (texts : Texts) (transport : Transport Q R)
    (error_of : R → Option String) (respond : R → ChatResponse) where
  abbrev converse : ℕ → Q → (String → HttpRequest) → Answer
  converse n wire make =
      complete_chat id texts transport error_of respond n (prepare id texts transport wire make)

  converse-prepared :
      (n : ℕ) (wire : Q) (make : String → HttpRequest) (body : String)
      → transport.marshal wire ≡ ok body
      → transport.build_error (make body) ≡ nil
      → converse n wire make
        ≡ exchanged id texts transport error_of respond (transport.send n (make body))
  unfolding complete_chat prepare is_nil
  converse-prepared n wire make body e f = rw (prepare, e, f) refl

  decoded-retryable :
      (reply : R × Err)
      → is_provider_retryable (decoded id texts transport error_of respond reply).1 ≡ false
  unfolding decoded is_provider_retryable
  decoded-retryable reply = elim (Bool-cases (is_nil reply.1)) [
    | inl e ↦ rw e refl
    | inr e ↦ rw e refl
  ]

  received-retryable_iff :
      (r : HttpResponse)
      → (is_provider_retryable (received id texts transport error_of respond r).1 ≡ true)
        ↔ IsTransient (answered r)
  unfolding received refused is_provider_retryable
  received-retryable_iff r = elim (Bool-cases (is_nil r.read_error)) [
    | inl e ↦ elim (Bool-cases (eqb r.status 200)) [
      | inl f ↦
          rw (e, f, decoded-retryable (transport.unmarshal r.bytes))
            (λ h. cc, λ (_, s). absurd (ground arith))
      | inr f ↦
          rw (e, f)
            (
              λ h. (is_nil-eq r.read_error e, (is_status_code_retryable_iff r.status).0 h),
              λ (_, s). (is_status_code_retryable_iff r.status).1 s,
            )
    ]
    | inr e ↦ rw e (λ h. cc, λ (n, _). absurd (nil-test r.read_error n e))
  ]

  exchanged-retryable_iff :
      (x : Exchange)
      → (is_provider_retryable (exchanged id texts transport error_of respond x).1 ≡ true)
        ↔ IsTransient x
  unfolding exchanged timed_out is_provider_retryable
  exchanged-retryable_iff (unreachable message) = (λ _. tt, λ _. refl)
  exchanged-retryable_iff (answered r) = received-retryable_iff r

  -- Where the request could be made, the answer of `Chat` is an error that counts as retryable exactly
  -- if the service was not reached, or its body was read and its status is 429, 500 or from 502 to 504.
  pub complete_chat-retryable_iff :
      (n : ℕ) (wire : Q) (make : String → HttpRequest) (body : String)
      → transport.marshal wire ≡ ok body
      → transport.build_error (make body) ≡ nil
      → (is_provider_retryable
            (complete_chat id texts transport error_of respond n
              (prepare id texts transport wire make)).1
          ≡ true)
        ↔ IsTransient (transport.send n (make body))
  complete_chat-retryable_iff n wire make body e f =
      rw (converse-prepared n wire make body e f)
        (exchanged-retryable_iff (transport.send n (make body)))

  -- What the adapter answers with: the service's reply, read, of status 200 and decoded.
  abbrev pub IsReply : Exchange → ChatResponse → Type 0
  IsReply (unreachable message) resp = ⊥
  IsReply (answered r) resp =
      (r.read_error ≡ nil)
      × (r.status ≡ 200)
      × ((transport.unmarshal r.bytes).1 ≡ nil)
      × (respond (transport.unmarshal r.bytes).0 ≡ resp)

  received-IsReply_iff :
      (r : HttpResponse) (resp : ChatResponse)
      → ((received id texts transport error_of respond r).0 ≡ some resp) ↔ IsReply (answered r) resp
  unfolding received decoded
  received-IsReply_iff r resp = elim (Bool-cases (is_nil r.read_error)) [
    | inl e ↦ elim (Bool-cases (eqb r.status 200)) [
      | inl f ↦ elim (Bool-cases (is_nil (transport.unmarshal r.bytes).1)) [
        | inl g ↦
            rw (e, f, g)
              (
                λ h. (is_nil-eq r.read_error e, ground arith, is_nil-eq _ g, cc),
                λ (_, _, _, s). ap some s,
              )
        | inr g ↦ rw (e, f, g) (λ h. cc, λ (_, _, s, _). absurd (nil-test _ s g))
      ]
      | inr f ↦ rw (e, f) (λ h. cc, λ (_, s, _, _). absurd (ground arith))
    ]
    | inr e ↦ rw e (λ h. cc, λ (n, _, _, _). absurd (nil-test r.read_error n e))
  ]

  exchanged-IsReply_iff :
      (x : Exchange) (resp : ChatResponse)
      → ((exchanged id texts transport error_of respond x).0 ≡ some resp) ↔ IsReply x resp
  unfolding exchanged
  exchanged-IsReply_iff (unreachable message) resp = (λ h. cc, λ s. absurd s)
  exchanged-IsReply_iff (answered r) resp = received-IsReply_iff r resp

  -- `Chat` answers with a response exactly if its request could be made and sent, and the service
  -- replied with status 200 and a body that is read and decoded; the response is the mapped reply.
  pub complete_chat-replies_iff :
      (n : ℕ) (wire : Q) (make : String → HttpRequest) (resp : ChatResponse)
      → ((complete_chat id texts transport error_of respond n
            (prepare id texts transport wire make)).0
          ≡ some resp)
        ↔ ((body : String) × (transport.marshal wire ≡ ok body)
            × (transport.build_error (make body) ≡ nil)
            × IsReply (transport.send n (make body)) resp)
  unfolding complete_chat prepare
  complete_chat-replies_iff n wire make resp = elim (Result-cases (transport.marshal wire)) [
    | inl (body, e) ↦ elim (Bool-cases (is_nil (transport.build_error (make body)))) [
      | inl f ↦
          rw (prepare, e, f)
            (
              λ h. (body, refl, is_nil-eq _ f, (exchanged-IsReply_iff _ resp).0 h),
              λ (b, p, _, s).
                  (exchanged-IsReply_iff _ resp).1
                    (subst (λ x. IsReply (transport.send n (make x)) resp) (sym (ok-inj p)) s),
            )
      | inr f ↦
          rw (prepare, e, f)
            (
              λ h. cc,
              λ (b, p, q, _). absurd (
                  nil-test _ (subst (λ x. transport.build_error (make x) ≡ nil) (sym (ok-inj p)) q)
                    f),
            )
    ]
    | inr (x, e) ↦ rw (prepare, e) (λ h. cc, λ (b, p, _, _). absurd (err≢ok p))
  ]

-- A stream that the service opens with status 200.
pub start_stream-opened :
    {Q R : Type 0} (id : String) (texts : Texts) (transport : Transport Q R)
    (chunks : Feed → List ChatChunk) (n : ℕ) (wire : Q) (make : String → HttpRequest)
    (body : String) (r : HttpResponse)
    → transport.marshal wire ≡ ok body
    → transport.build_error (make body) ≡ nil
    → transport.send n (make body) ≡ answered r
    → r.status ≡ 200
    → start_stream id texts transport chunks n (prepare id texts transport wire make)
      ≡ ok (chunks r.feed)
unfolding start_stream open_stream prepare is_nil
start_stream-opened id texts transport chunks n wire make body r m b x o =
    rw (prepare, m, b, x, o) refl
