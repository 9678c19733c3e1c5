-- ===== src/Http/Chat/Adapters.antt =====
-- internal/http/handlers/chat.go over the adapters of internal/provider, registered as in
-- cmd/gateway-api/main.go.
use nexus_ai_gateway.Prelude.{
  ℕ, ◌≤◌, String, ◌≡◌, ◌≢◌, refl, some, Option, subst, sym, [], In, eqb, true, inl, inr, Bool-cases,
  lookup, arith,
}
use nexus_ai_gateway.Domain.Errors.{Err, err}
use nexus_ai_gateway.Provider.{Provider, ChatRequest, ChatResponse}
use nexus_ai_gateway.Provider.Registry.{get, all, new_registry}
use nexus_ai_gateway.Provider.Registry.Laws.{IsKeyed, register-keeps}
use nexus_ai_gateway.Provider.Adapter.{
  HttpRequest, HttpResponse, Exchange, unreachable, answered, Transport, Texts, is_nil, refused,
  timed_out, prepare, decoded, received, exchanged, complete_chat,
}
use nexus_ai_gateway.Provider.Adapter.Laws.{Result-cases}
use nexus_ai_gateway.Provider.OpenAi
use nexus_ai_gateway.Provider.Anthropic
use nexus_ai_gateway.Provider.Gemini
use nexus_ai_gateway.Provider.Adapters.{
  Services, Settings, open_ai, anthropic, gemini, registered_adapters, registered_adapters-IsKeyed,
}
use nexus_ai_gateway.Storage.Redis.{Redis}
use nexus_ai_gateway.Auth.Validator.{KeyCodec}
use nexus_ai_gateway.Http.Response.Laws.{IsSendable}
use nexus_ai_gateway.Http.Failover.{classify}
use nexus_ai_gateway.Http.Completion.{is_counted}
use nexus_ai_gateway.Http.Chat.{Gateway, Surroundings, Request, serve}
use nexus_ai_gateway.Http.Chat.Responds.{IsAnswerable, Responds, serve-Responds}

-- The statuses of a service are from 100 to 999.
abbrev pub IsHttp : {Q R : Type 0} → Transport Q R → Type 0
IsHttp t =
    (n : ℕ) (q : HttpRequest) (r : HttpResponse)
    → t.send n q ≡ answered r
    → (100 ≤ r.status) × (r.status ≤ 999)

module _ {Q R : Type 0} (id : String) (texts : Texts) (transport : Transport Q R)
    (error_of : R → Option String) (respond : R → ChatResponse)
    (counted : (bytes : String) → is_counted (respond (transport.unmarshal bytes).0).usage ≡ true)
    (http : IsHttp transport) where
  decoded-IsAnswerable :
      (bytes : String)
      → IsAnswerable
          (classify (decoded id texts transport error_of respond (transport.unmarshal bytes)))
  unfolding decoded classify
  decoded-IsAnswerable bytes = elim (Bool-cases (is_nil (transport.unmarshal bytes).1)) [
    | inl e ↦ rw e (counted bytes)
    | inr e ↦ rw e tt
  ]

  received-IsAnswerable :
      (r : HttpResponse)
      → (100 ≤ r.status) × (r.status ≤ 999)
      → IsAnswerable (classify (received id texts transport error_of respond r))
  unfolding received refused classify
  received-IsAnswerable r h = elim (Bool-cases (is_nil r.read_error)) [
    | inl e ↦ elim (Bool-cases (eqb r.status 200)) [
      | inl f ↦ rw (e, f) (decoded-IsAnswerable r.bytes)
      | inr f ↦ rw (e, f) (inr h)
    ]
    | inr e ↦ rw e tt
  ]

  exchanged-IsAnswerable :
      (x : Exchange)
      → ((r : HttpResponse) → x ≡ answered r → (100 ≤ r.status) × (r.status ≤ 999))
      → IsAnswerable (classify (exchanged id texts transport error_of respond x))
  unfolding exchanged timed_out classify
  exchanged-IsAnswerable (unreachable message) h = inr (omega arith, omega arith)
  exchanged-IsAnswerable (answered r) h = received-IsAnswerable r (h r refl)

  -- What `Chat` returns can be answered with.
  converse-IsAnswerable :
      (n : ℕ) (wire : Q) (make : String → HttpRequest)
      → IsAnswerable (
          classify (
            complete_chat id texts transport error_of respond n
              (prepare id texts transport wire make)))
  unfolding complete_chat prepare classify
  converse-IsAnswerable n wire make = elim (Result-cases (transport.marshal wire)) [
    | inl (body, e) ↦ elim (Bool-cases (is_nil (transport.build_error (make body)))) [
      | inl f ↦
          rw (prepare, e, f)
            (exchanged-IsAnswerable (transport.send n (make body)) (http n (make body)))
      | inr f ↦ rw (prepare, e, f) tt
    ]
    | inr (x, e) ↦ rw (prepare, e) tt
  ]

-- The services answer with statuses from 100 to 999, and report no negative count of input or output
-- tokens.
pub record IsOrderly (s : Services) : Type 0 where
  pub open_ai_http : IsHttp s.open_ai
  pub open_ai_counted :
      (req : ChatRequest) (bytes : String)
      → is_counted (OpenAi.respond req (s.open_ai.unmarshal bytes).0).usage ≡ true
  pub anthropic_http : IsHttp s.anthropic
  pub anthropic_counted :
      (now : ℕ) (req : ChatRequest) (bytes : String)
      → is_counted (Anthropic.respond now req (s.anthropic.unmarshal bytes).0).usage ≡ true
  pub gemini_http : IsHttp s.gemini
  pub gemini_counted :
      (n : ℕ) (req : ChatRequest) (bytes : String)
      → is_counted (Gemini.respond s.gemini_clock n req (s.gemini.unmarshal bytes).0).usage ≡ true

abbrev Answers : Provider → Type 0
Answers p = (n : ℕ) (req : ChatRequest) → IsAnswerable (classify (p.chat n req))

module _ (s : Services) (c : Settings) (orderly : IsOrderly s) where
  open_ai-Answers : Answers (open_ai s c)
  unfolding OpenAi.provider OpenAi.chat
  open_ai-Answers n req =
      converse-IsAnswerable OpenAi.id OpenAi.chat_texts s.open_ai (λ r. r.error)
        (OpenAi.respond req) (orderly.open_ai_counted req) orderly.open_ai_http n _ _

  anthropic-Answers : Answers (anthropic s c)
  unfolding Anthropic.provider Anthropic.chat
  anthropic-Answers n req =
      converse-IsAnswerable Anthropic.id Anthropic.texts s.anthropic (λ r. r.error)
        (Anthropic.respond (s.anthropic_clock n) req)
        (orderly.anthropic_counted (s.anthropic_clock n) req) orderly.anthropic_http n _ _

  gemini-Answers : Answers (gemini s c)
  unfolding Gemini.provider Gemini.chat
  gemini-Answers n req =
      converse-IsAnswerable Gemini.id Gemini.texts s.gemini (λ r. r.error)
        (Gemini.respond s.gemini_clock n req) (orderly.gemini_counted n req) orderly.gemini_http n _
        _

  -- Every registered adapter returns an answer or an error that can be sent.
  registered_adapters-Answers :
      (id : String) (p : Provider) → get (registered_adapters s c) id ≡ some p → Answers p
  unfolding registered_adapters new_registry get lookup
  registered_adapters-Answers = register-keeps Answers (gemini s c) _ gemini-Answers (
      register-keeps Answers (anthropic s c) _ anthropic-Answers
        (register-keeps Answers (open_ai s c) _ open_ai-Answers (λ id p h. cc)))

-- The gateway with its three adapters answers every request and its handler does not panic, whatever
-- the request, the stores and the cache are, and whether the services behind the adapters are reached
-- and succeed or fail, as long as their statuses are from 100 to 999 and the counts of input and output
-- tokens that they report are not negative. `All` lists registered adapters, at least one, and a body
-- that is not decoded comes with an error that can be sent.
pub adapters-Respond :
    (s : Services) (c : Settings) (g : Gateway) (env : Surroundings) (r : Redis) (codec : KeyCodec)
    (sha256_hex : String → String) (req : Request) (cache : Option r.State)
    → IsOrderly s
    → g.registry ≡ registered_adapters s c
    → ((p : Provider) → In p env.listed → In p (all (registered_adapters s c)))
    → env.listed ≢ []
    → ((e : Err) → req.decoded ≡ err e → IsSendable e)
    → Responds (serve r codec sha256_hex g env req cache).0
adapters-Respond s c g env r codec sha256_hex req cache orderly same sub filled decoded =
    serve-Responds g env
      (λ id p h.
        registered_adapters-Answers s c orderly id p (subst (λ reg. get reg id ≡ some p) same h))
      (subst IsKeyed (sym same) (registered_adapters-IsKeyed s c))
      (λ p m. subst (λ reg. In p (all reg)) (sym same) (sub p m)) filled r codec sha256_hex req
      decoded cache
