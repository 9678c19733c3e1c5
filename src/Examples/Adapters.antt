-- ===== src/Examples/Adapters.antt =====
-- A service that is overloaded, one that answers and streams, and the gateway over both.
use mathlib.Core.List.{cons≢nil}
use nexus_ai_gateway.Prelude.{
  length, ◌≤◌, arith, leb, String, ◌^◌, ◌≡◌, refl, sym, subst, true, false, Option, none, some, [],
  ◌∷◌, ◌↔◌, ◌==◌, if◌then◌else◌, In, here, In-cons, inl, inr, strip_prefix, trim_space, insert,
  List,
}
use nexus_ai_gateway.Prelude.Int.{ℤ, pos}
use nexus_ai_gateway.Domain.Errors.{Err, nil, plain, ok, err, is_provider_retryable}
use nexus_ai_gateway.Provider.{Provider, ChatChunk}
use nexus_ai_gateway.Provider.Registry.{all, register, new_registry}
use nexus_ai_gateway.Provider.Adapter.{
  Adapter, HttpResponse, answered, Transport, prepare, complete_chat,
}
use nexus_ai_gateway.Provider.Adapter.Laws.{
  err≢ok, IsTransient, IsReply, complete_chat-retryable_iff, complete_chat-replies_iff,
}
use nexus_ai_gateway.Provider.Stream.{Feed, eof, line, payload, pump}
use nexus_ai_gateway.Provider.Stream.Laws.{never, IsPrefix, pump-IsPrefix}
use nexus_ai_gateway.Provider.OpenAi
use nexus_ai_gateway.Provider.Anthropic
use nexus_ai_gateway.Provider.Anthropic.{WireEvent}
use nexus_ai_gateway.Provider.Anthropic.Laws.{
  events, reply_text, received_text, reported_input, reported_output,
}
use nexus_ai_gateway.Provider.Anthropic.Streamed.{is_stopped, EndsWith, stream_chat-IsFaithful}
use nexus_ai_gateway.Provider.Gemini
use nexus_ai_gateway.Provider.Adapters.{Services, Settings, open_ai, registered_adapters}
use nexus_ai_gateway.Http.Chat.{Gateway, Surroundings, serve}
use nexus_ai_gateway.Http.Chat.Responds.{Responds}
use nexus_ai_gateway.Http.Chat.Adapters.{IsOrderly, adapters-Respond}
use nexus_ai_gateway.Http.Response.Laws.{IsSendable}
use nexus_ai_gateway.Http.Completion.{is_counted}
use nexus_ai_gateway.Examples.Codec.{key_codec}
use nexus_ai_gateway.Examples.Cache.{redis, empty_redis}
use nexus_ai_gateway.Examples.Data.{gateway, surroundings, request, chat_request}

abbrev hash : String → String
hash s = "h:" ^ s

abbrev busy : HttpResponse
busy = record { status = 503; bytes = "busy"; read_error = nil; feed = eof }

abbrev overloaded : Transport OpenAi.WireRequest OpenAi.WireResponse
overloaded = record {
  marshal = λ q. ok q.model;
  build_error = λ q. nil;
  send = λ n q. answered busy;
  unmarshal = λ bytes. (
    record {
      id = "";
      object = "";
      created = 0;
      model = "";
      choices = [];
      usage = record { prompt_tokens = pos 0; completion_tokens = pos 0; total_tokens = pos 0 };
      error = none;
    },
    plain "invalid character",
  );
}

abbrev adapter : Adapter
adapter = record { base_url = "http://service"; api_key = "k" }

complete_chat-retryable_iff_example :
    (is_provider_retryable
        (complete_chat OpenAi.id OpenAi.chat_texts overloaded
          (λ r. r.error)
          (OpenAi.respond (chat_request "gpt-4o"))
          0
          (prepare OpenAi.id OpenAi.chat_texts overloaded
            (OpenAi.build_request false (chat_request "gpt-4o"))
            (OpenAi.http_request adapter (chat_request "gpt-4o") []))).1
      ≡ true)
    ↔ IsTransient (answered busy)
unfolding OpenAi.build_request
complete_chat-retryable_iff_example =
    complete_chat-retryable_iff OpenAi.id OpenAi.chat_texts overloaded (λ r. r.error)
      (OpenAi.respond (chat_request "gpt-4o")) 0
      (OpenAi.build_request false (chat_request "gpt-4o"))
      (OpenAi.http_request adapter (chat_request "gpt-4o") []) "gpt-4o" refl refl

abbrev message : Anthropic.WireResponse
message = record {
  id = "msg_1";
  content = record { kind = "text"; text = "hi" } ∷ [];
  model = "claude";
  stop_reason = "end_turn";
  input_tokens = pos 3;
  output_tokens = pos 4;
  error = none;
}

abbrev lines : Feed
lines = line "event: message_start\n" (
    line "data: start\n"
      (line "data: hi\n" (line "data: spent\n" (line "data: stop\n" (line "data: late\n" eof)))))

abbrev event : String → String → ℤ → Option ℤ → WireEvent
event kind text input output = record {
  kind = kind;
  message_id = "msg_1";
  message_model = "claude";
  input_tokens = input;
  delta_text = text;
  output_tokens = output;
}

abbrev decode : String → Option WireEvent
decode text =
    if text == "start"
    then some (event "message_start" "" (pos 3) none)
    else if text == "spent"
    then some (event "message_delta" "" (pos 0) (some (pos 4)))
    else if text == "stop"
    then some (event "message_stop" "" (pos 0) none)
    else some (event "content_block_delta" text (pos 0) none)

abbrev answer : HttpResponse
answer = record { status = 200; bytes = "{}"; read_error = nil; feed = lines }

abbrev answering : Transport Anthropic.WireRequest Anthropic.WireResponse
answering = record {
  marshal = λ q. ok q.model;
  build_error = λ q. nil;
  send = λ n q. answered answer;
  unmarshal = λ bytes. (message, nil);
}

complete_chat-replies_iff_example :
    ((complete_chat Anthropic.id Anthropic.texts answering
        (λ r. r.error)
        (Anthropic.respond 7 (chat_request "claude"))
        0
        (prepare Anthropic.id Anthropic.texts answering
          (Anthropic.build_request (chat_request "claude") false)
          (Anthropic.http_request adapter (chat_request "claude") []))).0
      ≡ some (Anthropic.respond 7 (chat_request "claude") message))
    ↔ ((body : String) × (answering.marshal (Anthropic.build_request (chat_request "claude") false)
          ≡ ok body)
        × (answering.build_error (Anthropic.http_request adapter (chat_request "claude") [] body)
            ≡ nil)
        × IsReply Anthropic.id Anthropic.texts answering
            (λ r. r.error)
            (Anthropic.respond 7 (chat_request "claude"))
            (answering.send 0 (Anthropic.http_request adapter (chat_request "claude") [] body))
            (Anthropic.respond 7 (chat_request "claude") message))
complete_chat-replies_iff_example =
    complete_chat-replies_iff Anthropic.id Anthropic.texts answering (λ r. r.error)
      (Anthropic.respond 7 (chat_request "claude")) 0
      (Anthropic.build_request (chat_request "claude") false)
      (Anthropic.http_request adapter (chat_request "claude") [])
      (Anthropic.respond 7 (chat_request "claude") message)

-- The stream says "hi", reports seven tokens and drops what comes late.
streamed : reply_text (events decode lines) ≡ "hi"
unfolding reply_text events payload strip_prefix trim_space
streamed = refl

stream_chat-IsFaithful_example :
    (cs : List ChatChunk) × (Anthropic.stream_chat answering decode
        (λ n. 7)
        never
        false
        adapter
        0
        (chat_request "claude")
      ≡ ok cs)
    × (received_text cs ≡ reply_text (events decode lines))
    × (is_stopped (events decode lines) ≡ true
        → EndsWith cs
            (reported_input (pos 0) (events decode lines))
            (reported_output (pos 0) (events decode lines)))
unfolding Anthropic.build_request
stream_chat-IsFaithful_example =
    stream_chat-IsFaithful answering decode (λ n. 7) false adapter 0 (chat_request "claude")
      "claude" answer refl refl refl refl

abbrev services : Services
services = record {
  open_ai = overloaded;
  anthropic = answering;
  anthropic_clock = λ n. 7;
  gemini = record {
    marshal = λ q. err (plain "unsupported value: NaN");
    build_error = λ q. nil;
    send = λ n q. answered busy;
    unmarshal = λ bytes. (
      record {
        candidates = [];
        prompt_token_count = pos 0;
        candidates_token_count = pos 0;
        total_token_count = pos 0;
        error = none;
      },
      nil,
    );
  };
  gemini_clock = record { nanoseconds = λ n. 7; seconds = λ n. 0 };
}

abbrev settings : Settings
settings = record {
  open_ai_base_url = "";
  open_ai_key = "k";
  anthropic_base_url = "";
  anthropic_key = "k";
  gemini_base_url = "";
  gemini_key = "";
}

abbrev adapted : Gateway
adapted = record gateway { registry = registered_adapters services settings }

abbrev listing : Surroundings
listing = record surroundings { listed = open_ai services settings ∷ [] }

open_ai-listed :
    (p : Provider) → In p listing.listed → In p (all (registered_adapters services settings))
unfolding all registered_adapters register new_registry insert OpenAi.provider Anthropic.provider
    Gemini.provider
open_ai-listed p m = elim (In-cons m) [
  | inl e ↦ subst (λ q. In q (all (registered_adapters services settings))) (sym e) here
  | inr n ↦ elim n [ ]
]

request-decodes : (e : Err) → request.decoded ≡ err e → IsSendable e
request-decodes e h = absurd (err≢ok (sym h))

answered-HasStatus :
    (given r : HttpResponse)
    → (100 ≤ given.status) × (given.status ≤ 999)
    → answered given ≡ answered r
    → (100 ≤ r.status) × (r.status ≤ 999)
answered-HasStatus given r h e =
    let same : given ≡ r = cc e in subst (λ x. (100 ≤ x.status) × (x.status ≤ 999)) same h

services-IsOrderly : IsOrderly services
unfolding OpenAi.respond OpenAi.usage_of Anthropic.respond Gemini.respond Gemini.usage_of is_counted
services-IsOrderly = record {
  open_ai_http = λ n q r. answered-HasStatus busy r (omega arith, omega arith);
  open_ai_counted = λ req bytes. refl;
  anthropic_http = λ n q r. answered-HasStatus answer r (omega arith, omega arith);
  anthropic_counted = λ now req bytes. refl;
  gemini_http = λ n q r. answered-HasStatus busy r (omega arith, omega arith);
  gemini_counted = λ n req bytes. refl;
}

adapters-Respond_example :
    Responds (serve redis key_codec hash adapted listing request (some empty_redis)).0
adapters-Respond_example =
    adapters-Respond services settings adapted listing redis key_codec hash request
      (some empty_redis) services-IsOrderly refl open_ai-listed cons≢nil request-decodes

-- The context is cancelled after the first chunk.
pump-IsPrefix_example :
    (length
        (pump (λ n. leb 1 n) true (Anthropic.stream_step decode (λ n. 7)) 0 Anthropic.fresh lines)
      ≤ 1)
    × IsPrefix
        (pump (λ n. leb 1 n) true (Anthropic.stream_step decode (λ n. 7)) 0 Anthropic.fresh lines)
        (pump never false (Anthropic.stream_step decode (λ n. 7)) 0 Anthropic.fresh lines)
pump-IsPrefix_example =
    pump-IsPrefix (λ n. leb 1 n) (Anthropic.stream_step decode (λ n. 7)) 0 1 Anthropic.fresh lines
      refl
