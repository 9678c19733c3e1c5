-- ===== src/Switchyard/Calls.antt =====
-- cmd/switchyard/main.go: credentials, and `sendChatConversation`. A budget is in thousand-millionths of a
-- dollar, 0 where the source's is not positive; the amounts are left out of the text of an error.
pub mod Headers
use nexus_ai_gateway.Prelude.{
  ℕ, ◌+◌, ◌/◌, String, ◌^◌, len, Bool, true, ◌&&◌, not, Option, none, some, List, [], ◌∷◌, ◌++◌,
  ◌==◌, eqb, ltb, if◌then◌else◌, lookup, trim_end, decimal,
}
use nexus_ai_gateway.Config.{Env, getenv}
use nexus_ai_gateway.Domain.Errors.{Err, plain, wrapped, Result, ok, err}
use nexus_ai_gateway.Switchyard.Safety.{
  ExecutionPolicy, explain, plan, approve, safe_auto, autopilot,
}
use nexus_ai_gateway.Switchyard.Session.{estimate_cost}

pub record Credentials : Type 0 where
  pub api_key : String
  pub project_id : String
  pub base_url : String
  pub provider_keys : List (String × String)

-- `loadCredentials`, from what reading and decoding the file gives, and the older file. `none` is a file
-- that cannot be read.
unfoldable pub load_credentials :
    Option (Result Credentials) → Option (Result Credentials) → Option Credentials
load_credentials (some (ok creds)) legacy = some creds
load_credentials (some (err _)) legacy = none
load_credentials none (some (ok creds)) = some creds
load_credentials none _ = none

unfoldable pub policy_text : ExecutionPolicy → String
policy_text explain = "explain"
policy_text plan = "plan"
policy_text approve = "approve"
policy_text safe_auto = "safe-auto"
policy_text autopilot = "autopilot"

pub record ChatMessage : Type 0 where
  pub role : String
  pub content : String

unfoldable pub total_chars : List ChatMessage → ℕ
total_chars [] = 0
total_chars (m ∷ ms) = len m.content + total_chars ms

-- The tokens that the budget is tested with before the call.
unfoldable pub estimated_tokens : List ChatMessage → ℕ
estimated_tokens history = let n = total_chars history / 4 in if ltb n 50 then 50 else n

-- The key of a provider: that of the credentials, or else that of the environment, unless empty.
unfoldable pub forwarded_key : String → String → Option String
forwarded_key stored plain_env =
    if not (stored == "")
    then some stored
    else if not (plain_env == "")
    then some plain_env
    else none

unfoldable pub stored_key : Option Credentials → String → String
stored_key none name = ""
stored_key (some creds) name = elim (lookup name creds.provider_keys) [ none ↦ "" | some k ↦ k ]

unfoldable pub key_header :
    Option Credentials → Env → String → String → String → List (String × String)
key_header creds env header name variable =
    elim (forwarded_key (stored_key creds name) (getenv env variable)) [
      | none ↦ []
      | some k ↦ (header, k) ∷ []
    ]

pub record ChatCall : Type 0 where
  pub url : String
  pub headers : List (String × String)
  pub model : String
  pub messages : List ChatMessage

unfoldable pub chat_headers :
    Option Credentials → Env → String → Bool → ExecutionPolicy → List (String × String)
chat_headers creds env api_key caveman policy =
    (("Content-Type", "application/json")
      ∷ ("Authorization", "Bearer " ^ api_key)
      ∷ ("X-Switchyard-Policy", policy_text policy)
      ∷ (if caveman then ("X-Nexus-Caveman", "true") ∷ [] else []))
    ++ (key_header creds env "X-Gemini-Api-Key" "gemini" "GEMINI_API_KEY"
        ++ (key_header creds env "X-OpenAI-Api-Key" "openai" "OPENAI_API_KEY"
            ++ (key_header creds env "X-Anthropic-Api-Key" "anthropic" "ANTHROPIC_API_KEY"
                ++ key_header creds env "X-Deepseek-Api-Key" "deepseek" "DEEPSEEK_API_KEY")))

-- The decoded answer of the gateway, without what is only printed.
pub record ChatReply : Type 0 where
  pub contents : List String
  pub model : String
  pub prompt_tokens : ℕ
  pub completion_tokens : ℕ

-- What comes of a call: it is not answered, its body is not read, or it is answered with a status, a
-- body, the message of the body's error, empty if there is none, and what decoding the body gives.
pub data Exchange : Type 0 where
  unanswered : Err → Exchange
  unread : Err → Exchange
  replied : ℕ → String → String → Result ChatReply → Exchange

pub record ChatResult : Type 0 where
  pub content : String
  pub model_used : String
  pub input_tokens : ℕ
  pub output_tokens : ℕ
  pub cost : ℕ

unfoldable pub first_choice : ChatReply → List String → Result ChatResult
first_choice r [] = err (plain "no response choices returned from gateway")
first_choice r (content ∷ _) = ok (record {
  content = content;
  model_used = r.model;
  input_tokens = r.prompt_tokens;
  output_tokens = r.completion_tokens;
  cost = estimate_cost r.model r.prompt_tokens r.completion_tokens;
})

unfoldable pub read_exchange : String → Exchange → Result ChatResult
read_exchange base_url (unanswered e) =
    err (wrapped ("connection failed to Switchyard Gateway (" ^ (base_url ^ ")")) e)
read_exchange base_url (unread e) = err e
read_exchange base_url (replied status body message decoded) =
    if not (eqb status 200)
    then err
        (plain ("status " ^ (decimal status ^ (": " ^ (if message == "" then body else message)))))
    else elim decoded [
      | err e ↦ err (wrapped "failed parsing gateway response" e)
      | ok r ↦ first_choice r r.contents
    ]

unfoldable pub is_over : ℕ → ℕ → Bool
is_over budget cost = ltb 0 budget && ltb budget cost

-- `sendChatConversation`: the result, and the call that is made, if one is. The URL and the JSON of the
-- call are taken to be well-formed.
unfoldable pub send_chat_conversation :
    (ChatCall → Exchange)
    → Option Credentials
    → Env
    → String
    → String
    → String
    → List ChatMessage
    → Bool
    → ExecutionPolicy
    → ℕ
    → Result ChatResult × Option ChatCall
send_chat_conversation transport creds env base_url api_key preset history caveman policy budget =
    let call : ChatCall = record {
      url = trim_end b'/' base_url ^ "/v1/chat/completions";
      headers = chat_headers creds env api_key caveman policy;
      model = preset;
      messages = history;
    } in
    if is_over budget (estimate_cost preset (estimated_tokens history) 400)
    then (err (plain "BUDGET EXCEEDED"), none)
    else (read_exchange base_url (transport call), some call)
