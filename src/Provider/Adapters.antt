-- ===== src/Provider/Adapters.antt =====
-- cmd/gateway-api/main.go, step 8: the adapters that the gateway registers.
use nexus_ai_gateway.Prelude.{ℕ, String}
use nexus_ai_gateway.Provider.{Provider}
use nexus_ai_gateway.Provider.Registry.{Registry, new_registry, register}
use nexus_ai_gateway.Provider.Registry.Laws.{IsKeyed, register-IsKeyed}
use nexus_ai_gateway.Provider.Adapter.{Transport}
use nexus_ai_gateway.Provider.OpenAi
use nexus_ai_gateway.Provider.Anthropic
use nexus_ai_gateway.Provider.Gemini

-- The services and clocks that the adapters meet.
pub record Services : Type 0 where
  pub open_ai : Transport OpenAi.WireRequest OpenAi.WireResponse
  pub anthropic : Transport Anthropic.WireRequest Anthropic.WireResponse
  pub anthropic_clock : ℕ → ℕ
  pub gemini : Transport Gemini.WireRequest Gemini.WireResponse
  pub gemini_clock : Gemini.Clock

-- The base URLs of the configuration, and the keys of the environment.
pub record Settings : Type 0 where
  pub open_ai_base_url : String
  pub open_ai_key : String
  pub anthropic_base_url : String
  pub anthropic_key : String
  pub gemini_base_url : String
  pub gemini_key : String

module _ (s : Services) (c : Settings) where
  abbrev pub open_ai : Provider
  open_ai = OpenAi.provider s.open_ai (OpenAi.new_adapter c.open_ai_base_url c.open_ai_key)

  abbrev pub anthropic : Provider
  anthropic =
      Anthropic.provider s.anthropic s.anthropic_clock
        (Anthropic.new_adapter c.anthropic_base_url c.anthropic_key)

  abbrev pub gemini : Provider
  gemini =
      Gemini.provider s.gemini s.gemini_clock (Gemini.new_adapter c.gemini_base_url c.gemini_key)

  unfoldable pub registered_adapters : Registry
  unfolding new_registry register
  registered_adapters = register gemini (register anthropic (register open_ai new_registry))

  pub registered_adapters-IsKeyed : IsKeyed registered_adapters
  unfolding registered_adapters new_registry
  registered_adapters-IsKeyed =
      register-IsKeyed gemini _ (register-IsKeyed anthropic _ (register-IsKeyed open_ai _ tt))
