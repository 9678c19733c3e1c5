-- ===== src/Provider.antt =====
-- internal/provider/provider.go: what the gateway and its adapters exchange.
pub mod Registry
pub mod Adapter
pub mod Stream
pub mod OpenAi
pub mod Anthropic
pub mod Gemini
pub mod Adapters
use nexus_ai_gateway.Prelude.{ℕ, String, Bool, Option, List}
use nexus_ai_gateway.Prelude.Int.{ℤ}
use nexus_ai_gateway.Domain.Errors.{Err}
use nexus_ai_gateway.Domain.Requests.{TokenUsage}

pub record Message : Type 0 where
  pub role : String
  pub content : String

-- A `*float32` is carried along and never computed with: its bit pattern stands for it.
pub record ChatRequest : Type 0 where
  pub model : String
  pub messages : List Message
  pub stream : Bool
  pub max_tokens : Option ℤ
  pub temperature : Option ℕ
  pub top_p : Option ℕ
  pub stop : List String
  pub user : String
  pub request_id : String
  pub project_id : String
  pub custom_api_keys : List (String × String)

pub record Choice : Type 0 where
  pub index : ℕ
  pub message : Message
  pub finish_reason : String

pub record ChatResponse : Type 0 where
  pub id : String
  pub object : String
  pub created : ℕ
  pub model : String
  pub provider_id : String
  pub choices : List Choice
  pub usage : TokenUsage
  pub request_id : String

-- `Chat` returns `(*ChatResponse, error)`, and Go lets both be nil.
abbrev pub Answer : Type 0
Answer = Option ChatResponse × Err

-- The methods that the gateway calls. The number is the ordinal of the call among those of one
-- request: the answer of the remote service may change from call to call.
pub record Provider : Type 0 where
  pub id : String
  pub chat : ℕ → ChatRequest → Answer

pub record MessageDelta : Type 0 where
  pub role : String
  pub content : String

pub record StreamChoice : Type 0 where
  pub index : ℕ
  pub delta : MessageDelta
  pub finish_reason : String

pub record ChatChunk : Type 0 where
  pub id : String
  pub object : String
  pub created : ℕ
  pub model : String
  pub provider_id : String
  pub choices : List StreamChoice
  pub usage : Option TokenUsage
  pub failed : Err

-- Prices are in thousandths of a dollar for a million tokens.
pub record Capabilities : Type 0 where
  pub chat : Bool
  pub streaming : Bool
  pub function_call : Bool
  pub vision : Bool
  pub max_context_tokens : ℕ
  pub input_price : ℕ
  pub output_price : ℕ
