-- ===== src/Http/Chat/Admission.antt =====
-- Which requests reach the routing engine: steps 1 to 5 of `ServeHTTP`.
use mathlib.Core.Bool.{false≢true}
use nexus_ai_gateway.Prelude.{
  String, ◌≡◌, ◌≢◌, refl, sym, ap, ◌∙◌, ◌⊎◌, inl, inr, true, false, not, Option, some, [], ◌==◌,
  arith, eq_iff, In, Bool-cases, is_empty, is_empty-false, eq_false, ◌&&◌,
}
use nexus_ai_gateway.Domain.Errors.{Result, ok, err}
use nexus_ai_gateway.Domain.Keys.{ApiKey, has_scope, scope_inference_write, scope_admin}
use nexus_ai_gateway.Domain.Scopes.{has_scope_iff}
use nexus_ai_gateway.Storage.Redis.{Redis}
use nexus_ai_gateway.Auth.Validator.{KeyCodec, validate}
use nexus_ai_gateway.Auth.Validator.Laws.{IsKnown, IsLive, validate-ok_iff}
use nexus_ai_gateway.Tenant.{TenantContext, resolve}
use nexus_ai_gateway.Tenant.Laws.{IsTenant, resolve-ok_iff}
use nexus_ai_gateway.RateLimit.{check}
use nexus_ai_gateway.Http.Prompt.{ChatBody, Headers}
use nexus_ai_gateway.Http.Chat.{
  Gateway, Surroundings, Request, serve, serve_token, serve_key, serve_tenant, serve_decoded,
  serve_body, extract_bearer_token, request_id_of, refuse, refuse_limited,
}

-- A scope that allows inference is listed.
abbrev pub IsScoped : ApiKey → Type 0
IsScoped k = In scope_admin k.scopes ⊎ In scope_inference_write k.scopes

IsScoped-cases :
    (k : ApiKey)
    → (IsScoped k
        × ((not (has_scope k scope_inference_write) && not (has_scope k scope_admin)) ≡ false))
      ⊎ ((not (has_scope k scope_inference_write) && not (has_scope k scope_admin)) ≡ true)
IsScoped-cases k = elim (Bool-cases (has_scope k scope_inference_write)) [
  | inl e ↦ inl ((has_scope_iff k scope_inference_write).0 e, ground arith)
  | inr e ↦ elim (Bool-cases (has_scope k scope_admin)) [
    | inl f ↦
        inl
          (elim ((has_scope_iff k scope_admin).0 f) [ inl i ↦ inl i | inr i ↦ inl i ], ground arith)
    | inr f ↦ inr (ground arith)
  ]
]

IsScoped-false :
    (k : ApiKey)
    → IsScoped k
    → (not (has_scope k scope_inference_write) && not (has_scope k scope_admin)) ≡ false
IsScoped-false k h = ground (arith, (has_scope_iff k scope_inference_write).1 h)

module _ (r : Redis) (codec : KeyCodec) (sha256_hex : String → String) where
  open r use {State}

  -- The key, tenant and body of a request that passes every guard, and why it passes.
  pub record Admission (g : Gateway) (env : Surroundings) (req : Request) (cache : Option State)
      (key : ApiKey) (tc : TenantContext) (body : ChatBody) : Type 0 where
    pub posted : req.method ≡ "POST"
    pub has_token : extract_bearer_token req.headers ≢ ""
    pub known :
        IsKnown r codec sha256_hex env.validated_at g.keys
          (sha256_hex (extract_bearer_token req.headers))
          cache
          key
    pub live : IsLive env.validated_at key
    pub tenant : IsTenant g.projects g.organizations key tc
    pub scoped : IsScoped key
    pub within_limit :
        (check r env.limited_at "project" tc.project.id g.default_limit
          (validate r codec sha256_hex env.validated_at g.cache_ttl g.keys
            (extract_bearer_token req.headers)
            cache).1).0.allowed
        ≡ true
    pub decodes : req.decoded ≡ ok body
    pub has_messages : body.messages ≢ []

  decoded_lem :
      (g : Gateway) (env : Surroundings) (id project : String) (hs : Headers)
      (answer : Result ChatBody) (body : ChatBody)
      → answer ≡ ok body
      → body.messages ≢ []
      → serve_decoded g env id project hs answer ≡ serve_body g env id project hs body
  unfolding serve_decoded
  decoded_lem g env id project hs answer body e h = rw e (rw (is_empty-false body.messages h))

  -- A request that passes every guard is handed, with its body, to the routing engine.
  pub serve-admitted :
      (g : Gateway) (env : Surroundings) (req : Request) (cache : Option State) (key : ApiKey)
      (tc : TenantContext) (body : ChatBody)
      → Admission g env req cache key tc body
      → (serve r codec sha256_hex g env req cache).0
        ≡ serve_body g env (request_id_of env req.headers) tc.project.id req.headers body
  unfolding serve serve_token serve_key serve_tenant
  serve-admitted g env req cache key tc body a =
      let token = extract_bearer_token req.headers in
      let posted = (eq_iff req.method "POST").1 a.posted in
      let named = eq_false token "" a.has_token in
      let valid =
        (validate-ok_iff r codec sha256_hex env.validated_at g.cache_ttl g.keys token cache key
            a.has_token).1
          (a.known, a.live) in
      let resolved = (resolve-ok_iff g.projects g.organizations key tc).1 a.tenant in
      let handed = decoded_lem g env _ tc.project.id req.headers _ body a.decodes a.has_messages in
      rw (posted, named, valid, resolved, IsScoped-false key a.scoped, a.within_limit) handed

  is_empty-true : (body : ChatBody) → is_empty body.messages ≡ false → body.messages ≢ []
  is_empty-true body h e = false≢true (sym h ∙ ap is_empty e)

  decoded_acts :
      (g : Gateway) (env : Surroundings) (id project : String) (hs : Headers)
      (answer : Result ChatBody)
      → (serve_decoded g env id project hs answer).saved ≢ []
      → (body : ChatBody) × (answer ≡ ok body) × (body.messages ≢ [])
  unfolding serve_decoded refuse
  decoded_acts g env id project hs (err e) acts = absurd (acts refl)
  decoded_acts g env id project hs (ok body) acts = elim (Bool-cases (is_empty body.messages)) [
    | inl empty ↦ absurd (acts (rw empty))
    | inr full ↦ (body, refl, is_empty-true body full)
  ]

  -- What the guards from step 3 on require.
  abbrev IsPassed :
      Gateway → Surroundings → Request → ApiKey → TenantContext → ChatBody → Option State → Type 0
  IsPassed g env req key tc body cache =
      IsScoped key
      × ((check r env.limited_at "project" tc.project.id g.default_limit cache).0.allowed ≡ true)
      × (req.decoded ≡ ok body)
      × (body.messages ≢ [])

  tenant_acts :
      (g : Gateway) (env : Surroundings) (id : String) (req : Request) (key : ApiKey)
      (answer : Result TenantContext) (cache : Option State)
      → (serve_tenant r codec sha256_hex g env id req key answer cache).0.saved ≢ []
      → (tc : TenantContext) × (body : ChatBody) × (answer ≡ ok tc)
        × IsPassed g env req key tc body cache
  unfolding serve_tenant refuse refuse_limited
  tenant_acts g env id req key (err e) cache acts = absurd (acts refl)
  tenant_acts g env id req key (ok tc) cache acts = elim (IsScoped-cases key) [
    | inr barred ↦ absurd (acts (rw barred))
    | inl (scoped, free) ↦
        elim (Bool-cases
          (check r env.limited_at "project" tc.project.id g.default_limit cache).0.allowed) [
            | inr limited ↦ absurd (acts (rw (free, limited)))
            | inl allowed ↦
                let (body, d, m) =
                  decoded_acts g env id tc.project.id req.headers req.decoded
                    (λ e. acts (rw (free, allowed) e)) in
                (tc, body, refl, (scoped, allowed, d, m))
          ]
  ]

  key_acts :
      (g : Gateway) (env : Surroundings) (id : String) (req : Request) (answer : Result ApiKey)
      (cache : Option State)
      → (serve_key r codec sha256_hex g env id req answer cache).0.saved ≢ []
      → (key : ApiKey) × (tc : TenantContext) × (body : ChatBody) × (answer ≡ ok key)
        × IsTenant g.projects g.organizations key tc
        × IsPassed g env req key tc body cache
  unfolding serve_key refuse
  key_acts g env id req (err e) cache acts = absurd (acts refl)
  key_acts g env id req (ok key) cache acts =
      let (tc, body, resolved, passed) =
        tenant_acts g env id req key (resolve g.projects g.organizations (some key)) cache acts in
      (key, tc, body, refl, (resolve-ok_iff g.projects g.organizations key tc).0 resolved, passed)

  token_acts :
      (g : Gateway) (env : Surroundings) (id : String) (req : Request) (cache : Option State)
      → req.method ≡ "POST"
      → (serve_token r codec sha256_hex g env id req
          (extract_bearer_token req.headers)
          cache).0.saved
        ≢ []
      → (key : ApiKey) × (tc : TenantContext) × (body : ChatBody) × Admission g env req cache key tc
          body
  unfolding serve_token refuse
  token_acts g env id req cache posted acts =
      let token = extract_bearer_token req.headers in
      elim (Bool-cases (token == "")) [
        | inl missing ↦ absurd (acts (rw missing))
        | inr named ↦
            let has_token : token ≢ "" = λ e. false≢true (sym named ∙ (eq_iff token "").1 e) in
            let answer =
              validate r codec sha256_hex env.validated_at g.cache_ttl g.keys token cache in
            let (key, tc, body, valid, tenant, (scoped, within, decodes, has_messages)) =
              key_acts g env id req answer.0 answer.1 (λ e. acts (rw named e)) in
            let (known, live) =
              (validate-ok_iff r codec sha256_hex env.validated_at g.cache_ttl g.keys token cache
                  key has_token).0
                valid in
            (
              key,
              tc,
              body,
              record {
                posted = posted;
                has_token = has_token;
                known = known;
                live = live;
                tenant = tenant;
                scoped = scoped;
                within_limit = within;
                decodes = decodes;
                has_messages = has_messages;
              },
            )
      ]

  -- A request that leaves a trace in the audit log or the usage stream has passed every guard: it is a
  -- POST with a key that is known and live, an active project and organization, a scope that allows
  -- inference, a check of the rate limit that lets it through, as it also does without a limit, without a
  -- client and where Redis fails, and a body with messages.
  pub saved-Admission :
      (g : Gateway) (env : Surroundings) (req : Request) (cache : Option State)
      → (serve r codec sha256_hex g env req cache).0.saved ≢ []
      → (key : ApiKey) × (tc : TenantContext) × (body : ChatBody) × Admission g env req cache key tc
          body
  unfolding serve
  saved-Admission g env req cache acts = elim (Bool-cases (req.method == "POST")) [
    | inr other ↦ absurd (acts (rw other))
    | inl posted ↦
        token_acts g env (request_id_of env req.headers) req cache
          ((eq_iff req.method "POST").0 posted) (λ e. acts (rw posted e))
  ]
