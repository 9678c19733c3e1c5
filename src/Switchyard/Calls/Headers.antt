-- ===== src/Switchyard/Calls/Headers.antt =====
-- The headers of a call.
use nexus_ai_gateway.Prelude.{
  String, ◌^◌, ◌≡◌, refl, ◌∙◌, Bool, true, false, Option, none, some, List, [], ◌∷◌, ◌++◌, ◌==◌,
  if◌then◌else◌, lookup, Bool-cases, Option-cases, inl, inr,
}
use nexus_ai_gateway.Config.{Env, getenv}
use nexus_ai_gateway.Switchyard.Safety.{ExecutionPolicy}
use nexus_ai_gateway.Switchyard.Calls.{
  Credentials, forwarded_key, stored_key, key_header, chat_headers, policy_text,
}

abbrev first_of : Option String → Option String → Option String
first_of none later = later
first_of (some k) later = some k

first_of-none : (o : Option String) → first_of o none ≡ o
first_of-none none = refl
first_of-none (some k) = refl

lookup-append :
    (other : String) (xs ys : List (String × String))
    → lookup other (xs ++ ys) ≡ first_of (lookup other xs) (lookup other ys)
unfolding lookup
lookup-append other [] ys = refl
lookup-append other (x ∷ xs) ys = elim (Bool-cases (x.0 == other)) [
  | inl e ↦ rw e refl
  | inr e ↦ rw e (lookup-append other xs ys)
]

module _ (creds : Option Credentials) (env : Env) where
  abbrev sent : String → String → Option String
  sent name variable = forwarded_key (stored_key creds name) (getenv env variable)

  abbrev sent_as : String → String → String → String → Option String
  sent_as other header name variable = if header == other then sent name variable else none

  key_header-lookup :
      (header name variable other : String)
      → lookup other (key_header creds env header name variable)
        ≡ sent_as other header name variable
  unfolding key_header lookup
  key_header-lookup header name variable other = elim (Option-cases (sent name variable)) [
    | inl n ↦
        rw (key_header, n)
          (elim (Bool-cases (header == other)) [ inl e ↦ rw e refl | inr e ↦ rw e refl ])
    | inr (k, h) ↦ rw (key_header, h) refl
  ]

  abbrev key_headers : List (String × String)
  key_headers =
      key_header creds env "X-Gemini-Api-Key" "gemini" "GEMINI_API_KEY"
      ++ (key_header creds env "X-OpenAI-Api-Key" "openai" "OPENAI_API_KEY"
          ++ (key_header creds env "X-Anthropic-Api-Key" "anthropic" "ANTHROPIC_API_KEY"
              ++ key_header creds env "X-Deepseek-Api-Key" "deepseek" "DEEPSEEK_API_KEY"))

  key_headers-lookup :
      (other : String)
      → lookup other key_headers
        ≡ first_of (sent_as other "X-Gemini-Api-Key" "gemini" "GEMINI_API_KEY") (
            first_of (sent_as other "X-OpenAI-Api-Key" "openai" "OPENAI_API_KEY") (
              first_of
                (sent_as other "X-Anthropic-Api-Key" "anthropic" "ANTHROPIC_API_KEY")
                (sent_as other "X-Deepseek-Api-Key" "deepseek" "DEEPSEEK_API_KEY")))
  key_headers-lookup other = simp (lookup-append, key_header-lookup)

  -- The call carries the gateway's key and the policy, and, under its own header, the key of each of the
  -- four providers: that of the credentials, or that of the environment where the credentials have
  -- none, and no header where neither has one.
  pub chat_headers-keys :
      (api_key : String) (caveman : Bool) (policy : ExecutionPolicy)
      → let headers = chat_headers creds env api_key caveman policy in
        (lookup "Authorization" headers ≡ some ("Bearer " ^ api_key))
        × (lookup "X-Switchyard-Policy" headers ≡ some (policy_text policy))
        × (lookup "X-Gemini-Api-Key" headers ≡ sent "gemini" "GEMINI_API_KEY")
        × (lookup "X-OpenAI-Api-Key" headers ≡ sent "openai" "OPENAI_API_KEY")
        × (lookup "X-Anthropic-Api-Key" headers ≡ sent "anthropic" "ANTHROPIC_API_KEY")
        × (lookup "X-Deepseek-Api-Key" headers ≡ sent "deepseek" "DEEPSEEK_API_KEY")
  unfolding chat_headers lookup
  chat_headers-keys api_key true policy = (
    refl,
    refl,
    key_headers-lookup "X-Gemini-Api-Key" ∙ first_of-none _,
    key_headers-lookup "X-OpenAI-Api-Key" ∙ first_of-none _,
    key_headers-lookup "X-Anthropic-Api-Key" ∙ first_of-none _,
    key_headers-lookup "X-Deepseek-Api-Key",
  )
  chat_headers-keys api_key false policy = (
    refl,
    refl,
    key_headers-lookup "X-Gemini-Api-Key" ∙ first_of-none _,
    key_headers-lookup "X-OpenAI-Api-Key" ∙ first_of-none _,
    key_headers-lookup "X-Anthropic-Api-Key" ∙ first_of-none _,
    key_headers-lookup "X-Deepseek-Api-Key",
  )
