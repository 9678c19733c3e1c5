-- ===== src/Domain/Models.antt =====
-- internal/domain/model_alias.go, provider.go and budget.go. Prices are in thousandths of a dollar for
-- a million tokens, and the limit of a budget, a float that is only compared with zero, in millionths.
use nexus_ai_gateway.Prelude.{
  ℕ, suc, String, ◌^◌, Bool, true, not, ◌&&◌, List, [], ◌∷◌, ◌==◌, if◌then◌else◌, trim_space,
}
use nexus_ai_gateway.Prelude.Int.{ℤ, pos}
use nexus_ai_gateway.Domain.Errors.{Err, nil, new, Code}

abbrev pub provider_open_ai : String
provider_open_ai = "openai"

abbrev pub provider_anthropic : String
provider_anthropic = "anthropic"

abbrev pub provider_gemini : String
provider_gemini = "gemini"

pub record ModelCapabilities : Type 0 where
  pub chat : Bool
  pub streaming : Bool
  pub function_call : Bool
  pub vision : Bool
  pub max_context_tokens : ℕ
  pub input_price : ℕ
  pub output_price : ℕ

pub record ModelAlias : Type 0 where
  pub id : String
  pub alias : String
  pub provider : String
  pub provider_model : String
  pub capabilities : ModelCapabilities
  pub active : Bool
  pub created_at : ℕ

unfoldable pub full_capabilities : ℕ → ℕ → ℕ → ModelCapabilities
full_capabilities context input output = record {
  chat = true;
  streaming = true;
  function_call = true;
  vision = true;
  max_context_tokens = context;
  input_price = input;
  output_price = output;
}

unfoldable pub default_alias :
    String → ℕ → String → String → String → ModelCapabilities → ModelAlias
default_alias uuid now alias provider model capabilities = record {
  id = "ma_" ^ uuid;
  alias = alias;
  provider = provider;
  provider_model = model;
  capabilities = capabilities;
  active = true;
  created_at = now;
}

-- `uuid n` is the n-th fresh UUID.
unfoldable pub default_model_aliases : (ℕ → String) → ℕ → List ModelAlias
default_model_aliases uuid now =
    default_alias (uuid 0) now "smart" provider_open_ai "gpt-4o"
      (full_capabilities 128000 2500 10000)
    ∷ default_alias (uuid 1) now "cheap" provider_open_ai "gpt-4o-mini"
        (full_capabilities 128000 150 600)
    ∷ default_alias (uuid 2) now "fast" provider_gemini "gemini-1.5-flash"
        (full_capabilities 1000000 75 300)
    ∷ default_alias (uuid 3) now "quality" provider_anthropic "claude-3-5-sonnet-20241022"
        (full_capabilities 200000 3000 15000)
    ∷ []

unfoldable pub validate_alias : ModelAlias → Err
validate_alias m =
    if trim_space m.alias == ""
    then new Code.bad_request "alias is required"
    else if trim_space m.provider_model == ""
    then new Code.bad_request "provider_model is required"
    else nil

pub record ProviderConnection : Type 0 where
  pub id : String
  pub project_id : String
  pub provider : String
  pub secret_ref : String
  pub enabled : Bool
  pub created_at : ℕ

unfoldable pub new_provider_connection : String → ℕ → String → String → String → ProviderConnection
new_provider_connection uuid now project_id provider secret_ref = record {
  id = "pconn_" ^ uuid;
  project_id = project_id;
  provider = provider;
  secret_ref = secret_ref;
  enabled = true;
  created_at = now;
}

unfoldable pub validate_connection : ProviderConnection → Err
validate_connection p =
    if trim_space p.project_id == ""
    then new Code.bad_request "project_id is required"
    else if not (p.provider == provider_open_ai)
        && not (p.provider == provider_anthropic)
        && not (p.provider == provider_gemini)
    then new Code.bad_request ("unsupported provider: " ^ p.provider)
    else if trim_space p.secret_ref == ""
    then new Code.bad_request "secret_ref is required"
    else nil

pub record Budget : Type 0 where
  pub id : String
  pub project_id : String
  pub period : String
  pub limit_type : String
  pub limit : ℤ
  pub action : String
  pub created_at : ℕ

unfoldable pub new_budget : String → ℕ → String → String → String → ℤ → String → Budget
new_budget uuid now project_id period limit_type limit action = record {
  id = "bgt_" ^ uuid;
  project_id = project_id;
  period = period;
  limit_type = limit_type;
  limit = limit;
  action = if action == "" then "reject" else action;
  created_at = now;
}

unfoldable pub validate_limit : ℤ → Err
validate_limit (pos (suc n)) = nil
validate_limit _ = new Code.bad_request "limit must be greater than zero"

unfoldable pub validate_budget : Budget → Err
validate_budget b =
    if trim_space b.project_id == ""
    then new Code.bad_request "project_id is required"
    else validate_limit b.limit
