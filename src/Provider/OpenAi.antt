-- ===== src/Provider/OpenAi.antt =====
-- internal/provider/openai/adapter.go, over the steps of Adapter and Stream.
use nexus_ai_gateway.Prelude.{
  ℕ, String, ◌^◌, Bool, true, false, Option, none, some, List, [], ◌∷◌, ◌++◌, map, ◌==◌,
  if◌then◌else◌, has_prefix,
}
use nexus_ai_gateway.Prelude.Int.{ℤ}
use nexus_ai_gateway.Domain.Errors.{nil, Result}
use nexus_ai_gateway.Domain.Requests.{TokenUsage}
use nexus_ai_gateway.Provider.{
  Message, ChatRequest, ChatResponse, Choice, Answer, Provider, ChatChunk, StreamChoice,
  Capabilities,
}
use nexus_ai_gateway.Provider.Adapter.{
  Adapter, new_with_default, custom_key, key_or, optional_header, HttpRequest, Transport, Texts,
  prepare, complete_chat, start_stream,
}
use nexus_ai_gateway.Provider.Stream.{Step, proceed, finish, pump}

unfoldable pub new_adapter : String → String → Adapter
new_adapter base_url api_key = new_with_default "https://api.openai.com/v1" base_url api_key

abbrev pub id : String
id = "openai"

unfoldable pub capabilities : Capabilities
capabilities = record {
  chat = true;
  streaming = true;
  function_call = true;
  vision = true;
  max_context_tokens = 128000;
  input_price = 2500;
  output_price = 10000;
}

pub record WireMessage : Type 0 where
  pub role : String
  pub content : String

pub record WireRequest : Type 0 where
  pub model : String
  pub messages : List WireMessage
  pub stream : Bool
  pub max_tokens : Option ℤ
  pub temperature : Option ℕ
  pub top_p : Option ℕ
  pub stop : List String
  pub user : String

pub record WireChoice : Type 0 where
  pub index : ℕ
  pub message : WireMessage
  pub finish_reason : String

pub record WireUsage : Type 0 where
  pub prompt_tokens : ℤ
  pub completion_tokens : ℤ
  pub total_tokens : ℤ

-- `error` is the message of the error object, if there is one.
pub record WireResponse : Type 0 where
  pub id : String
  pub object : String
  pub created : ℕ
  pub model : String
  pub choices : List WireChoice
  pub usage : WireUsage
  pub error : Option String

pub record WireDelta : Type 0 where
  pub index : ℕ
  pub role : String
  pub content : String
  pub finish_reason : String

pub record WireChunk : Type 0 where
  pub id : String
  pub object : String
  pub created : ℕ
  pub model : String
  pub choices : List WireDelta
  pub usage : Option WireUsage

unfoldable pub to_wire : Message → WireMessage
to_wire m = record { role = m.role; content = m.content }

unfoldable pub build_request : Bool → ChatRequest → WireRequest
build_request stream req = record {
  model = req.model;
  messages = map to_wire req.messages;
  stream = stream;
  max_tokens = req.max_tokens;
  temperature = req.temperature;
  top_p = req.top_p;
  stop = req.stop;
  user = req.user;
}

unfoldable pub resolve_api_key : Adapter → ChatRequest → String
resolve_api_key a req =
    let own = key_or a.api_key (custom_key req.custom_api_keys "openai") in
    if has_prefix req.model "deepseek"
    then key_or own (custom_key req.custom_api_keys "deepseek")
    else own

unfoldable pub http_request : Adapter → ChatRequest → List (String × String) → String → HttpRequest
http_request a req accepted body = record {
  method = "POST";
  url = a.base_url ^ "/chat/completions";
  headers =
      ("Content-Type", "application/json")
      ∷ (accepted
          ++ (optional_header "Authorization" "Bearer " (resolve_api_key a req)
              ++ optional_header "X-Request-ID" "" req.request_id));
  body = body;
}

unfoldable pub usage_of : WireUsage → TokenUsage
usage_of u = record {
  input_tokens = u.prompt_tokens;
  output_tokens = u.completion_tokens;
  total_tokens = u.total_tokens;
}

unfoldable pub choice_of : WireChoice → Choice
choice_of c = record {
  index = c.index;
  message = record { role = c.message.role; content = c.message.content };
  finish_reason = c.finish_reason;
}

unfoldable pub respond : ChatRequest → WireResponse → ChatResponse
respond req r = record {
  id = r.id;
  object = r.object;
  created = r.created;
  model = r.model;
  provider_id = id;
  choices = map choice_of r.choices;
  usage = usage_of r.usage;
  request_id = req.request_id;
}

abbrev pub chat_texts : Texts
chat_texts = record {
  marshal_failed = "failed to marshal request";
  read_failed = "failed to read response body";
  decode_failed = "failed to decode response json";
}

abbrev stream_texts : Texts
stream_texts = record chat_texts { marshal_failed = "failed to marshal streaming request" }

unfoldable pub chat : Transport WireRequest WireResponse → Adapter → ℕ → ChatRequest → Answer
chat transport a n req =
    complete_chat id chat_texts transport (λ r. r.error) (respond req) n
      (prepare id chat_texts transport (build_request false req) (http_request a req []))

unfoldable pub delta_of : WireDelta → StreamChoice
delta_of d = record {
  index = d.index;
  delta = record { role = d.role; content = d.content };
  finish_reason = d.finish_reason;
}

unfoldable pub to_chunk : WireChunk → ChatChunk
to_chunk c = record {
  id = c.id;
  object = c.object;
  created = c.created;
  model = c.model;
  provider_id = id;
  choices = map delta_of c.choices;
  usage = elim c.usage [ none ↦ none | some u ↦ some (usage_of u) ];
  failed = nil;
}

-- A payload that is not decoded is passed over.
unfoldable pub stream_step : (String → Option WireChunk) → ℕ → Unit {0} → String → Step (Unit {0})
stream_step decode n s text =
    if text == "[DONE]"
    then finish []
    else elim (decode text) [ none ↦ proceed tt [] | some c ↦ proceed tt (to_chunk c ∷ []) ]

unfoldable pub stream_chat :
    Transport WireRequest WireResponse
    → (String → Option WireChunk)
    → (ℕ → Bool)
    → Bool
    → Adapter
    → ℕ
    → ChatRequest
    → Result (List ChatChunk)
stream_chat transport decode stops ended a n req =
    start_stream id stream_texts transport (pump stops ended (stream_step decode) 0 tt) n (
      prepare id stream_texts transport (build_request true req)
        (http_request a req (("Accept", "text/event-stream") ∷ [])))

-- The adapter as the gateway calls it.
unfoldable pub provider : Transport WireRequest WireResponse → Adapter → Provider
provider transport a = record { id = id; chat = chat transport a }
