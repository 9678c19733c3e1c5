-- ===== src/Examples/Data.antt =====
-- Two providers, one of which is down, the gateway that has them, and its callers.
use nexus_ai_gateway.Prelude.Int.{pos}
use nexus_ai_gateway.Prelude.{String, false, true, none, some, List, [], ◌∷◌, ◌==◌, if◌then◌else◌}
use nexus_ai_gateway.Prelude.Int.{pos}
use nexus_ai_gateway.Domain.Errors.{Err, nil, upstream, ok, plain}
use nexus_ai_gateway.Domain.Keys.{ApiKey}
use nexus_ai_gateway.Domain.Tenancy.{Organization, Project}
use nexus_ai_gateway.Domain.Policy.{RoutingPolicy}
use nexus_ai_gateway.Provider.{Provider, ChatRequest, ChatResponse, Message}
use nexus_ai_gateway.Provider.Registry.{Registry}
use nexus_ai_gateway.Routing.{Candidate}
use nexus_ai_gateway.Http.Prompt.{ChatBody}
use nexus_ai_gateway.Http.Chat.{Gateway, Surroundings, Request}

abbrev pub outage : Err
outage =
    upstream
      (record { status_code = 503; message = "overloaded"; retryable = true; provider = "gemini" })

abbrev pub greeting : ChatResponse
greeting = record {
  id = "chatcmpl-1";
  object = "chat.completion";
  created = 7;
  model = "gpt-4o";
  provider_id = "openai";
  choices =
      record {
        index = 0;
        message = record { role = "assistant"; content = "hi" };
        finish_reason = "stop";
      }
      ∷ [];
  usage = record { input_tokens = pos 10; output_tokens = pos 20; total_tokens = pos 30 };
  request_id = "r1";
}

abbrev pub gemini : Provider
gemini = record { id = "gemini"; chat = λ i req. (none, outage) }

abbrev pub openai : Provider
openai = record { id = "openai"; chat = λ i req. (some greeting, nil) }

abbrev pub registry : Registry
registry = record { providers = ("gemini", gemini) ∷ ("openai", openai) ∷ [] }

abbrev pub listed : List Provider
listed = gemini ∷ openai ∷ []

abbrev pub keywords : List (String × String)
keywords = ("refactor", "Code Refactoring") ∷ ("architecture", "System Architecture") ∷ []

abbrev pub question : Message
question = record { role = "user"; content = "refactor this" }

abbrev pub chat_request : String → ChatRequest
chat_request model = record {
  model = model;
  messages = question ∷ [];
  stream = false;
  max_tokens = none;
  temperature = none;
  top_p = none;
  stop = [];
  user = "";
  request_id = "r1";
  project_id = "p1";
  custom_api_keys = [];
}

abbrev pub down : Candidate
down = record {
  provider = gemini;
  provider_id = "gemini";
  model = "gemini-3.6-flash";
  tier = "fast";
}

abbrev pub up : Candidate
up = record { provider = openai; provider_id = "openai"; model = "gpt-4o"; tier = "smart" }

abbrev pub routing_policy : String → RoutingPolicy
routing_policy provider = record {
  id = "pol_1";
  project_id = "p1";
  name = "default";
  strategy = "priority";
  candidates = record { provider = provider; model = "gpt-4o"; priority = 1 } ∷ [];
  fallback_policy = none;
  active = true;
  created_at = 1;
  updated_at = 1;
}

abbrev pub api_key : ApiKey
api_key = record {
  id = "key_1";
  project_id = "p1";
  hash = "h:ngk_live_a";
  prefix = "ngk_live_...";
  status = "active";
  scopes = "inference:write" ∷ [];
  created_at = 1;
  expires_at = some 30;
}

abbrev pub project : Project
project = record {
  id = "p1";
  organization_id = "o1";
  name = "demo";
  environment = "development";
  status = "active";
  created_at = 1;
  updated_at = 1;
}

abbrev pub organization : Organization
organization = record {
  id = "o1";
  name = "acme";
  status = "active";
  created_at = 1;
  updated_at = 1;
}

abbrev pub chat_body : ChatBody
chat_body = record {
  model = "";
  messages = question ∷ [];
  stream = false;
  max_tokens = none;
  temperature = none;
  top_p = none;
  stop = [];
  user = "";
  metadata = [];
}

-- The project's policy asks for Gemini first, and for OpenAI next.
abbrev pub failover_policy : RoutingPolicy
failover_policy = record (routing_policy "openai") {
  candidates =
      record { provider = "gemini"; model = "gemini-3.6-flash"; priority = 1 }
      ∷ record { provider = "openai"; model = "gpt-4o"; priority = 2 }
      ∷ [];
}

abbrev pub gateway : Gateway
gateway = record {
  keys = λ hash. if hash == "h:ngk_live_a" then (some api_key, nil) else (none, plain "no rows");
  cache_ttl = 300;
  projects = λ id. (some project, nil);
  organizations = λ id. (some organization, nil);
  default_limit = record { requests = pos 2; window = pos 60000000000 };
  policies = λ id. (some failover_policy, nil);
  registry = registry;
}

abbrev pub surroundings : Surroundings
surroundings = record {
  started_at = 10;
  validated_at = 10;
  limited_at = 10;
  recorded_at = 20;
  emitted_at = 21;
  latency_ms = 9;
  fresh_uuid = "u0";
  record_uuid = "u1";
  event_uuid = "u2";
  listed = listed;
  keywords = keywords;
}

abbrev pub request : Request
request = record {
  method = "POST";
  headers = ("Authorization", "Bearer ngk_live_a") ∷ ("X-Request-Id", "r1") ∷ [];
  decoded = ok chat_body;
}
