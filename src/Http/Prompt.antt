-- ===== src/Http/Prompt.antt =====
-- internal/http/handlers/chat.go, step 6 of `ServeHTTP`: the provider's request from the client's.
-- Header names are in the canonical form under which Go stores them; the body is a decoded one.
pub mod Laws
use nexus_ai_gateway.Prelude.{
  ℕ, String, ◌^◌, Bool, true, false, not, ◌||◌, Option, none, some, List, [], ◌∷◌, ◌==◌,
  if◌then◌else◌, lookup, insert, to_lower, trim_space,
}
use nexus_ai_gateway.Prelude.Int.{ℤ}
use nexus_ai_gateway.Provider.{Message, ChatRequest}

pub record ChatBody : Type 0 where
  pub model : String
  pub messages : List Message
  pub stream : Bool
  pub max_tokens : Option ℤ
  pub temperature : Option ℕ
  pub top_p : Option ℕ
  pub stop : List String
  pub user : String
  pub metadata : List (String × String)

abbrev pub Headers : Type 0
Headers = List (String × String)

abbrev text_or_empty : Option String → String
text_or_empty none = ""
text_or_empty (some v) = v

-- `Header.Get`: a missing header reads "".
unfoldable pub header : Headers → String → String
unfolding lookup
header hs name = text_or_empty (lookup name hs)

unfoldable pub coding_agent_system_prompt : String
coding_agent_system_prompt =
    "You are Switchyard, the routing, cost, and safety layer for terminal-based AI coding agents.\nWhen the user asks you to modify, edit, or create files, output your proposed changes using the exact block formats below so Switchyard can inspect diffs and apply them safely to disk:\n\n1. To edit an existing file with surgical precision (Search/Replace):\n```edit:path/to/file.ext\n<<<<<<< SEARCH\nexact original code snippet to replace\n=======\nexact new code snippet\n>>>>>>> REPLACE\n```\n\n2. To create a new file or completely overwrite an existing file:\n```write:path/to/file.ext\ncomplete file contents\n```\n\nBe direct, precise, and concise. Ensure SEARCH blocks match the target file character-for-character."

unfoldable pub explain_directive : String
explain_directive =
    "You are Switchyard in EXPLAIN mode (read-only).\nAnswer the user's questions clearly with detailed technical explanations, debugging insights, and code snippets in standard markdown code blocks.\nDO NOT output ```edit: or ```write: blocks because file modifications are strictly forbidden in explain mode."

unfoldable pub plan_directive : String
plan_directive =
    "You are Switchyard in PLAN mode (planning & inspection).\nProvide structured implementation plans, architecture designs, and code previews in standard markdown code blocks.\nDO NOT output ```edit: or ```write: blocks because disk modifications are forbidden in plan mode."

unfoldable pub caveman_suffix : String
caveman_suffix =
    "\nRespond directly and concisely. No fluff, no filler, no pleasantries. Optimize for brevity and token savings."

-- One `if k := r.Header.Get(name); k != ""` of the custom keys.
unfoldable pub add_key : Headers → String → String → List (String × String) → List (String × String)
unfolding insert
add_key hs name provider keys =
    if header hs name == "" then keys else insert provider (header hs name) keys

unfoldable pub custom_api_keys : Headers → List (String × String)
unfolding add_key
custom_api_keys hs = add_key hs "X-Deepseek-Api-Key" "deepseek" (
    add_key hs "X-Anthropic-Api-Key" "anthropic"
      (add_key hs "X-Openai-Api-Key" "openai" (add_key hs "X-Gemini-Api-Key" "gemini" [])))

turns_off : Option String → Bool
turns_off none = false
turns_off (some val) = val == "false" || val == "off" || val == "0"

unfoldable pub caveman_enabled : Headers → List (String × String) → Bool
unfolding turns_off header
caveman_enabled hs metadata = not (
    turns_off (lookup "caveman" metadata)
    || header hs "X-Nexus-Caveman" == "false"
    || header hs "X-Nexus-Caveman" == "off")

or_metadata : Option String → String → String
or_metadata none policy = policy
or_metadata (some val) policy = if val == "" then policy else val

unfoldable pub policy_header : Headers → List (String × String) → String
unfolding or_metadata header
policy_header hs metadata = or_metadata (lookup "policy" metadata) (
    if header hs "X-Switchyard-Policy" == ""
    then header hs "X-Nexus-Policy"
    else header hs "X-Switchyard-Policy")

unfoldable pub policy_directive : String → String
policy_directive policy =
    let mode = to_lower (trim_space policy) in
    if mode == "explain"
    then explain_directive
    else if mode == "plan"
    then plan_directive
    else coding_agent_system_prompt

unfoldable pub system_directive : Headers → List (String × String) → String
unfolding policy_directive
system_directive hs metadata =
    policy_directive (policy_header hs metadata)
    ^ (if caveman_enabled hs metadata then caveman_suffix else "")

unfoldable pub is_system : Message → Bool
is_system m = to_lower m.role == "system"

-- The loop over the messages, and whether it met a system message.
unfoldable pub direct : String → List Message → List Message × Bool
unfolding is_system
direct directive [] = ([], false)
direct directive (m ∷ messages) =
    let (rest, has_system) = direct directive messages in
    if is_system m
    then (record m { content = m.content ^ ("\n" ^ directive) } ∷ rest, true)
    else (m ∷ rest, has_system)

unfoldable pub direct_messages : String → List Message → List Message
unfolding direct
direct_messages directive messages =
    let (directed, has_system) = direct directive messages in
    if has_system then directed else record { role = "system"; content = directive } ∷ directed

unfoldable pub provider_request : String → String → Headers → ChatBody → ChatRequest
unfolding custom_api_keys direct_messages
provider_request request_id project_id hs body = record {
  model = body.model;
  messages = direct_messages (system_directive hs body.metadata) body.messages;
  stream = body.stream;
  max_tokens = body.max_tokens;
  temperature = body.temperature;
  top_p = body.top_p;
  stop = body.stop;
  user = body.user;
  request_id = request_id;
  project_id = project_id;
  custom_api_keys = custom_api_keys hs;
}
