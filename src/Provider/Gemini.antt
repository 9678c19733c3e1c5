-- ===== src/Provider/Gemini.antt =====
-- internal/provider/gemini/adapter.go, over the steps of Adapter and Stream.
use nexus_ai_gateway.Prelude.{
  ℕ, suc, String, ◌^◌, Bool, true, false, ◌||◌, Option, none, some, List, [], ◌∷◌, map, ◌==◌, eqb,
  if◌then◌else◌, is_some, to_lower, decimal,
}
use nexus_ai_gateway.Prelude.Int.{pos_part, ℤ}
use nexus_ai_gateway.Domain.Errors.{nil, Result}
use nexus_ai_gateway.Domain.Requests.{TokenUsage}
use nexus_ai_gateway.Provider.{
  Message, ChatRequest, ChatResponse, Choice, Answer, Provider, ChatChunk, Capabilities,
}
use nexus_ai_gateway.Provider.Adapter.{
  Adapter, new_with_default, custom_key, key_or, optional_header, HttpRequest, Transport, Texts,
  prepare, complete_chat, start_stream,
}
use nexus_ai_gateway.Provider.Stream.{Step, proceed, pump}

unfoldable pub new_adapter : String → String → Adapter
new_adapter base_url api_key =
    new_with_default "https://generativelanguage.googleapis.com" base_url api_key

abbrev pub id : String
id = "gemini"

unfoldable pub capabilities : Capabilities
capabilities = record {
  chat = true;
  streaming = true;
  function_call = true;
  vision = true;
  max_context_tokens = 1000000;
  input_price = 75;
  output_price = 300;
}

-- A part is its text.
pub record Content : Type 0 where
  pub role : String
  pub parts : List String

pub record GenerationConfig : Type 0 where
  pub max_output_tokens : Option ℤ
  pub temperature : Option ℕ
  pub top_p : Option ℕ

pub record WireRequest : Type 0 where
  pub contents : List Content
  pub system_instruction : Option (List String)
  pub generation_config : Option GenerationConfig

pub record WireCandidate : Type 0 where
  pub content : Content
  pub finish_reason : String
  pub index : ℕ

-- `error` is the message of the error object, if there is one.
pub record WireResponse : Type 0 where
  pub candidates : List WireCandidate
  pub prompt_token_count : ℤ
  pub candidates_token_count : ℤ
  pub total_token_count : ℤ
  pub error : Option String

unfoldable pub role_of : String → String
role_of role = if role == "assistant" then "model" else role

-- The loop over the messages: the parts of the system instruction, and the contents.
unfoldable pub sort_messages : List Message → List String × List Content
sort_messages [] = ([], [])
sort_messages (m ∷ ms) =
    let (system, contents) = sort_messages ms in
    if to_lower m.role == "system"
    then (m.content ∷ system, contents)
    else (system, record { role = role_of (to_lower m.role); parts = m.content ∷ [] } ∷ contents)

unfoldable pub system_of : List String → Option (List String)
system_of [] = none
system_of parts = some parts

unfoldable pub build_request : ChatRequest → WireRequest
build_request req = record {
  contents = (sort_messages req.messages).1;
  system_instruction = system_of (sort_messages req.messages).0;
  generation_config =
      if is_some req.max_tokens || is_some req.temperature || is_some req.top_p
      then some record {
        max_output_tokens = req.max_tokens;
        temperature = req.temperature;
        top_p = req.top_p;
      }
      else none;
}

unfoldable pub resolve_api_key : Adapter → ChatRequest → String
resolve_api_key a req = key_or a.api_key (custom_key req.custom_api_keys "gemini")

-- The endpoint of a method, and the key behind it as a further parameter of the query.
unfoldable pub endpoint : Adapter → ChatRequest → String → String → String
endpoint a req method separator =
    let base = a.base_url ^ ("/v1/models/" ^ (req.model ^ method)) in
    let key = resolve_api_key a req in
    if key == "" then base else base ^ (separator ^ ("key=" ^ key))

unfoldable pub http_request : ChatRequest → String → String → HttpRequest
http_request req url body = record {
  method = "POST";
  url = url;
  headers = ("Content-Type", "application/json") ∷ optional_header "X-Request-ID" "" req.request_id;
  body = body;
}

unfoldable pub joined : List String → String
joined [] = ""
joined (part ∷ parts) = part ^ joined parts

-- The readings of the clock, by their ordinal: `UnixNano` and `Unix` of two readings.
pub record Clock : Type 0 where
  pub nanoseconds : ℕ → ℕ
  pub seconds : ℕ → ℕ

unfoldable pub choice_of : WireCandidate → Choice
choice_of c = record {
  index = c.index;
  message = record { role = "assistant"; content = joined c.content.parts };
  finish_reason = to_lower c.finish_reason;
}

unfoldable pub usage_of : WireResponse → TokenUsage
usage_of r = record {
  input_tokens = r.prompt_token_count;
  output_tokens = r.candidates_token_count;
  total_tokens = r.total_token_count;
}

unfoldable pub respond : Clock → ℕ → ChatRequest → WireResponse → ChatResponse
respond clock n req r = record {
  id = "gemini-" ^ decimal (clock.nanoseconds n);
  object = "chat.completion";
  created = clock.seconds n;
  model = req.model;
  provider_id = id;
  choices = map choice_of r.candidates;
  usage = usage_of r;
  request_id = req.request_id;
}

abbrev pub texts : Texts
texts = record {
  marshal_failed = "failed to marshal request";
  read_failed = "failed to read response";
  decode_failed = "failed to decode response";
}

unfoldable pub chat :
    Transport WireRequest WireResponse → Clock → Adapter → ℕ → ChatRequest → Answer
chat transport clock a n req =
    complete_chat id texts transport (λ r. r.error) (respond clock n req) n
      (prepare id texts transport (build_request req)
        (http_request req (endpoint a req ":generateContent" "?")))

unfoldable pub candidate_chunk : Clock → ChatRequest → WireResponse → ℕ → WireCandidate → ChatChunk
candidate_chunk clock req r n c = record {
  id = "gemini-" ^ decimal (clock.nanoseconds n);
  object = "chat.completion.chunk";
  created = clock.seconds n;
  model = req.model;
  provider_id = id;
  choices =
      record {
        index = c.index;
        delta = record { role = ""; content = joined c.content.parts };
        finish_reason = to_lower c.finish_reason;
      }
      ∷ [];
  usage = if eqb (pos_part r.total_token_count) 0 then none else some (usage_of r);
  failed = nil;
}

-- The chunks for the candidates of one payload: one for each that has a text.
unfoldable pub candidate_chunks :
    Clock → ChatRequest → WireResponse → ℕ → List WireCandidate → List ChatChunk
candidate_chunks clock req r n [] = []
candidate_chunks clock req r n (c ∷ cs) = elim (joined c.content.parts == "") [
  | true ↦ candidate_chunks clock req r n cs
  | false ↦ candidate_chunk clock req r n c ∷ candidate_chunks clock req r (suc n) cs
]

unfoldable pub stream_step :
    (String → Option WireResponse) → Clock → ChatRequest → ℕ → Unit {0} → String → Step (Unit {0})
stream_step decode clock req n s text = elim (decode text) [
  | none ↦ proceed tt []
  | some r ↦ proceed tt (candidate_chunks clock req r n r.candidates)
]

unfoldable pub stream_chat :
    Transport WireRequest WireResponse
    → (String → Option WireResponse)
    → Clock
    → (ℕ → Bool)
    → Bool
    → Adapter
    → ℕ
    → ChatRequest
    → Result (List ChatChunk)
stream_chat transport decode clock stops ended a n req =
    start_stream id texts transport (pump stops ended (stream_step decode clock req) 0 tt) n (
      prepare id texts transport (build_request req)
        (http_request req (endpoint a req ":streamGenerateContent?alt=sse" "&")))

-- The adapter as the gateway calls it.
unfoldable pub provider : Transport WireRequest WireResponse → Clock → Adapter → Provider
provider transport clock a = record { id = id; chat = chat transport clock a }
