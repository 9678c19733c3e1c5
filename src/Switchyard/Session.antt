-- ===== src/Switchyard/Session.antt =====
-- cmd/switchyard/main.go: prices and the statistics of a session.
-- Prices are in thousandths of a dollar for a million tokens, so that costs are whole thousand-millionths
-- of a dollar. Floats are taken as exact.
pub mod Economics
use nexus_ai_gateway.Prelude.{
  ℕ, ◌+◌, ◌*◌, String, none, some, List, [], ◌∷◌, if◌then◌else◌, lookup, insert, has_prefix,
}

pub record ModelPricing : Type 0 where
  pub display : String
  pub provider : String
  pub input : ℕ
  pub output : ℕ

unfoldable pub priced : String → String → ℕ → ℕ → ModelPricing
priced display provider input output = record {
  display = display;
  provider = provider;
  input = input;
  output = output;
}

unfoldable pub model_pricing_table : List (String × ModelPricing)
model_pricing_table =
    ("auto", priced "dynamic" "Switchyard Router" 75 300)
    ∷ ("explore", priced "gemini-3.6-flash" "Google" 75 300)
    ∷ ("build", priced "claude-3-5-sonnet" "Anthropic" 3000 15000)
    ∷ ("reason", priced "claude-3-5-sonnet" "Anthropic" 3000 15000)
    ∷ ("review", priced "claude-3-5-sonnet" "Anthropic" 3000 15000)
    ∷ ("smart", priced "gpt-4o" "OpenAI" 2500 10000)
    ∷ ("gpt-4o", priced "gpt-4o" "OpenAI" 2500 10000)
    ∷ ("cheap", priced "gpt-4o-mini" "OpenAI" 150 600)
    ∷ ("gpt-4o-mini", priced "gpt-4o-mini" "OpenAI" 150 600)
    ∷ ("quality", priced "claude-3-5-sonnet" "Anthropic" 3000 15000)
    ∷ ("claude-3-5-sonnet-20241022", priced "claude-3-5-sonnet" "Anthropic" 3000 15000)
    ∷ ("claude-3-haiku-20240307", priced "claude-3-haiku" "Anthropic" 250 1250)
    ∷ ("fast", priced "gemini-3.6-flash" "Google" 75 300)
    ∷ ("gemini-3.6-flash", priced "gemini-3.6-flash" "Google" 75 300)
    ∷ ("gemini-2.0-flash", priced "gemini-2.0-flash" "Google" 75 300)
    ∷ ("gemini-1.5-flash", priced "gemini-1.5-flash" "Google" 75 300)
    ∷ ("gemini-3.7-flash", priced "gemini-3.7-flash" "Google" 150 600)
    ∷ ("gemini-2.5-pro", priced "gemini-2.5-pro" "Google" 1250 5000)
    ∷ ("gemini-1.5-pro", priced "gemini-1.5-pro" "Google" 1250 5000)
    ∷ []

unfoldable pub get_pricing : String → ModelPricing
get_pricing alias = elim (lookup alias model_pricing_table) [
  | some p ↦ p
  | none ↦
      if has_prefix alias "claude"
      then priced alias "Anthropic" 3000 15000
      else if has_prefix alias "gemini"
      then priced alias "Google" 75 300
      else priced alias "OpenAI" 2500 10000
]

unfoldable pub estimate_cost : String → ℕ → ℕ → ℕ
estimate_cost alias input output = let p = get_pricing alias in input * p.input + output * p.output

unfoldable pub estimate_baseline_cost : ℕ → ℕ → ℕ
estimate_baseline_cost input output = input * 3000 + output * 15000

pub record SessionStats : Type 0 where
  pub requests : ℕ
  pub input_tokens : ℕ
  pub output_tokens : ℕ
  pub total_cost : ℕ
  pub baseline_cost : ℕ
  pub files_changed : ℕ
  pub model_calls : List (String × ℕ)

unfoldable pub new_session_stats : SessionStats
new_session_stats = record {
  requests = 0;
  input_tokens = 0;
  output_tokens = 0;
  total_cost = 0;
  baseline_cost = 0;
  files_changed = 0;
  model_calls = [];
}

-- `m[name]++`
unfoldable pub count_call : String → List (String × ℕ) → List (String × ℕ)
count_call name calls = insert name (elim (lookup name calls) [ none ↦ 1 | some n ↦ n + 1 ]) calls

-- `Record`
unfoldable pub record_call : String → ℕ → ℕ → SessionStats → SessionStats
record_call model input output s = record s {
  requests = s.requests + 1;
  input_tokens = s.input_tokens + input;
  output_tokens = s.output_tokens + output;
  total_cost = s.total_cost + estimate_cost model input output;
  baseline_cost = s.baseline_cost + estimate_baseline_cost input output;
  model_calls = count_call model s.model_calls;
}

-- `AddFilesChanged`
unfoldable pub add_files_changed : ℕ → SessionStats → SessionStats
add_files_changed count s = record s { files_changed = s.files_changed + count }
