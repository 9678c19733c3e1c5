-- ===== src/Provider/Anthropic.antt =====
-- internal/provider/anthropic/adapter.go, over the steps of Adapter and Stream.
pub mod Laws
pub mod Streamed
use nexus_ai_gateway.Prelude.{
  ℕ, suc, String, ◌^◌, ◌+◌, Bool, true, false, Option, none, some, List, [], ◌∷◌, ◌++◌, ◌==◌,
  if◌then◌else◌, to_lower,
}
use nexus_ai_gateway.Prelude.Int.{ℤ, pos, ◌+ℤ◌}
use nexus_ai_gateway.Domain.Errors.{nil, Result}
use nexus_ai_gateway.Provider.{
  Message, ChatRequest, ChatResponse, Answer, Provider, ChatChunk, Capabilities,
}
use nexus_ai_gateway.Provider.Adapter.{
  Adapter, new_with_default, custom_key, key_or, optional_header, HttpRequest, Transport, Texts,
  prepare, complete_chat, start_stream,
}
use nexus_ai_gateway.Provider.Stream.{Step, proceed, finish, pump}

unfoldable pub new_adapter : String → String → Adapter
new_adapter base_url api_key = new_with_default "https://api.anthropic.com" base_url api_key

abbrev pub id : String
id = "anthropic"

unfoldable pub capabilities : Capabilities
capabilities = record {
  chat = true;
  streaming = true;
  function_call = true;
  vision = true;
  max_context_tokens = 200000;
  input_price = 3000;
  output_price = 15000;
}

pub record WireMessage : Type 0 where
  pub role : String
  pub content : String

pub record WireRequest : Type 0 where
  pub model : String
  pub messages : List WireMessage
  pub system : String
  pub max_tokens : ℤ
  pub temperature : Option ℕ
  pub top_p : Option ℕ
  pub stream : Bool

pub record Block : Type 0 where
  pub kind : String
  pub text : String

-- `kind` is the code's `Type`, and `error` the message of the error object, if there is one.
pub record WireResponse : Type 0 where
  pub id : String
  pub content : List Block
  pub model : String
  pub stop_reason : String
  pub input_tokens : ℤ
  pub output_tokens : ℤ
  pub error : Option String

-- What the code reads of an event; a field that the JSON lacks has its zero value.
pub record WireEvent : Type 0 where
  pub kind : String
  pub message_id : String
  pub message_model : String
  pub input_tokens : ℤ
  pub delta_text : String
  pub output_tokens : Option ℤ

unfoldable pub token_limit : Option ℤ → ℤ
token_limit (some (pos (suc n))) = pos (suc n)
token_limit _ = pos 4096

-- The builder of the system prompt: a line break stands before a part unless nothing is written yet.
unfoldable pub write_system : String → String → String
write_system written part = if written == "" then part else written ^ ("\n" ^ part)

-- The loop over the messages: system prompt and conversation so far.
unfoldable pub sort_messages : String → List Message → String × List WireMessage
sort_messages system [] = (system, [])
sort_messages system (m ∷ ms) = elim (to_lower m.role == "system") [
  | true ↦ sort_messages (write_system system m.content) ms
  | false ↦
      let (final, rest) = sort_messages system ms in
      (final, record { role = m.role; content = m.content } ∷ rest)
]

unfoldable pub build_request : ChatRequest → Bool → WireRequest
build_request req stream = record {
  model = req.model;
  messages = (sort_messages "" req.messages).1;
  system = (sort_messages "" req.messages).0;
  max_tokens = token_limit req.max_tokens;
  temperature = req.temperature;
  top_p = req.top_p;
  stream = stream;
}

unfoldable pub resolve_api_key : Adapter → ChatRequest → String
resolve_api_key a req = key_or a.api_key (custom_key req.custom_api_keys "anthropic")

unfoldable pub http_request : Adapter → ChatRequest → List (String × String) → String → HttpRequest
http_request a req accepted body = record {
  method = "POST";
  url = a.base_url ^ "/v1/messages";
  headers =
      ("Content-Type", "application/json")
      ∷ (accepted
          ++ (("anthropic-version", "2023-06-01")
              ∷ (optional_header "x-api-key" "" (resolve_api_key a req)
                  ++ optional_header "X-Request-ID" "" req.request_id)));
  body = body;
}

unfoldable pub text_of : List Block → String
text_of [] = ""
text_of (b ∷ bs) = if b.kind == "text" then b.text ^ text_of bs else text_of bs

unfoldable pub finish_reason : String → String
finish_reason reason = if reason == "end_turn" then "stop" else reason

-- `now` is the clock's second at the answer.
unfoldable pub respond : ℕ → ChatRequest → WireResponse → ChatResponse
respond now req r = record {
  id = r.id;
  object = "chat.completion";
  created = now;
  model = r.model;
  provider_id = id;
  choices =
      record {
        index = 0;
        message = record { role = "assistant"; content = text_of r.content };
        finish_reason = finish_reason r.stop_reason;
      }
      ∷ [];
  usage = record {
    input_tokens = r.input_tokens;
    output_tokens = r.output_tokens;
    total_tokens = r.input_tokens +ℤ r.output_tokens;
  };
  request_id = req.request_id;
}

abbrev pub texts : Texts
texts = record {
  marshal_failed = "failed to marshal request";
  read_failed = "failed to read response";
  decode_failed = "failed to decode response";
}

-- `clock n` is the second at the n-th call of one request.
unfoldable pub chat :
    Transport WireRequest WireResponse → (ℕ → ℕ) → Adapter → ℕ → ChatRequest → Answer
chat transport clock a n req =
    complete_chat id texts transport (λ r. r.error) (respond (clock n) req) n
      (prepare id texts transport (build_request req false) (http_request a req []))

-- The variables of the goroutine.
pub record Progress : Type 0 where
  pub message_id : String
  pub model : String
  pub input_tokens : ℤ
  pub output_tokens : ℤ

abbrev pub fresh : Progress
fresh = record { message_id = ""; model = ""; input_tokens = pos 0; output_tokens = pos 0 }

unfoldable pub text_chunk : ℕ → Progress → String → ChatChunk
text_chunk now s text = record {
  id = s.message_id;
  object = "chat.completion.chunk";
  created = now;
  model = s.model;
  provider_id = id;
  choices =
      record { index = 0; delta = record { role = ""; content = text }; finish_reason = "" } ∷ [];
  usage = none;
  failed = nil;
}

unfoldable pub final_chunk : ℕ → Progress → ChatChunk
final_chunk now s = record {
  id = s.message_id;
  object = "chat.completion.chunk";
  created = now;
  model = s.model;
  provider_id = id;
  choices =
      record { index = 0; delta = record { role = ""; content = "" }; finish_reason = "stop" } ∷ [];
  usage = some record {
    input_tokens = s.input_tokens;
    output_tokens = s.output_tokens;
    total_tokens = s.input_tokens +ℤ s.output_tokens;
  };
  failed = nil;
}

unfoldable pub with_output : Progress → Option ℤ → Progress
with_output s none = s
with_output s (some n) = record s { output_tokens = n }

-- The `switch` on the type of the event. `now` is the clock's second.
unfoldable pub on_event : ℕ → Progress → WireEvent → Step Progress
on_event now s e =
    if e.kind == "message_start"
    then proceed
        (record s {
          message_id = e.message_id;
          model = e.message_model;
          input_tokens = e.input_tokens;
        })
        []
    else if e.kind == "content_block_delta"
    then proceed s (if e.delta_text == "" then [] else text_chunk now s e.delta_text ∷ [])
    else if e.kind == "message_delta"
    then proceed (with_output s e.output_tokens) []
    else if e.kind == "message_stop"
    then finish (final_chunk now s ∷ [])
    else proceed s []

unfoldable pub stream_step :
    (String → Option WireEvent) → (ℕ → ℕ) → ℕ → Progress → String → Step Progress
stream_step decode clock n s text = elim (decode text) [
  | none ↦ proceed s []
  | some e ↦ on_event (clock n) s e
]

unfoldable pub stream_chat :
    Transport WireRequest WireResponse
    → (String → Option WireEvent)
    → (ℕ → ℕ)
    → (ℕ → Bool)
    → Bool
    → Adapter
    → ℕ
    → ChatRequest
    → Result (List ChatChunk)
stream_chat transport decode clock stops ended a n req =
    start_stream id texts transport (pump stops ended (stream_step decode clock) 0 fresh) n (
      prepare id texts transport (build_request req true)
        (http_request a req (("Accept", "text/event-stream") ∷ [])))

-- The adapter as the gateway calls it.
unfoldable pub provider : Transport WireRequest WireResponse → (ℕ → ℕ) → Adapter → Provider
provider transport clock a = record { id = id; chat = chat transport clock a }
