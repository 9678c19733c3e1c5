-- ===== src/Routing/Select.antt =====
-- `RoutePlan` of internal/routing/engine.go: the switch over the requested model.
use nexus_ai_gateway.Prelude.{
  ℕ, String, ◌||◌, Option, none, some, List, ◌++◌, ◌==◌, leb, if◌then◌else◌, has_prefix,
}
use nexus_ai_gateway.Provider.Registry.{Registry, get}
use nexus_ai_gateway.Routing.{Candidate}
use nexus_ai_gateway.Routing.Complexity.{Complexity}
use nexus_ai_gateway.Routing.Pools.{offer, fast_pool, smart_pool}

-- What the switch over the model sets.
pub record Selection : Type 0 where
  pub preset : String
  pub initial_tier : String
  pub complexity : ℕ
  pub confidence : ℕ
  pub intent : String
  pub rationale : String
  pub candidates : List Candidate

-- The switch over the complexity, for the model "auto".
unfoldable pub select_auto : Registry → Complexity → Selection
select_auto reg c =
    if leb 80 c.score
    then record {
      preset = "reason";
      initial_tier = "smart";
      complexity = c.score;
      confidence = 90;
      intent = c.intent;
      rationale = c.rationale;
      candidates = smart_pool reg ++ fast_pool reg;
    }
    else if leb 40 c.score
    then record {
      preset = "build";
      initial_tier = "smart";
      complexity = c.score;
      confidence = 88;
      intent = c.intent;
      rationale = c.rationale;
      candidates = smart_pool reg ++ fast_pool reg;
    }
    else record {
      preset = "explore";
      initial_tier = "fast";
      complexity = c.score;
      confidence = 92;
      intent = c.intent;
      rationale = c.rationale;
      candidates = fast_pool reg ++ smart_pool reg;
    }

pub data Pin : Type 0 where
  claude gemini gpt : Pin

-- The three cases of a pinned model family.
unfoldable pub select_pinned : Registry → String → Pin → Selection
select_pinned reg model Pin.claude = record {
  preset = "pinned";
  initial_tier = "explicit-model";
  complexity = 70;
  confidence = 99;
  intent = "Specific Model Pinning";
  rationale = "User pinned Anthropic Claude model family";
  candidates =
      offer (get reg "anthropic") "anthropic" model "primary" ++ (smart_pool reg ++ fast_pool reg);
}
select_pinned reg model Pin.gemini = record {
  preset = "pinned";
  initial_tier = "explicit-model";
  complexity = 30;
  confidence = 99;
  intent = "Specific Model Pinning";
  rationale = "User pinned Google Gemini model family";
  candidates =
      offer (get reg "gemini") "gemini" model "primary" ++ (fast_pool reg ++ smart_pool reg);
}
select_pinned reg model Pin.gpt = record {
  preset = "pinned";
  initial_tier = "explicit-model";
  complexity = 70;
  confidence = 99;
  intent = "Specific Model Pinning";
  rationale = "User pinned OpenAI GPT model family";
  candidates =
      offer (get reg "openai") "openai" model "primary" ++ (smart_pool reg ++ fast_pool reg);
}

unfoldable pub select_other : Registry → String → Selection
select_other reg model = record {
  preset = "custom";
  initial_tier = "fallback-fast";
  complexity = 20;
  confidence = 80;
  intent = "Custom / Fallback Routing";
  rationale = "Routing through registered models";
  candidates = offer (get reg model) model model "primary" ++ (fast_pool reg ++ smart_pool reg);
}

-- The task presets, and `none` for any other model.
unfoldable pub select_preset : Registry → String → Option Selection
select_preset reg model =
    if model == "explore" || model == "cheap" || model == "fast"
    then some (record {
      preset = "explore";
      initial_tier = "fast";
      complexity = 20;
      confidence = 95;
      intent = "Fast Exploration & Read-Only Context";
      rationale =
          "Task-based preset: fast and low-cost execution for exploration, search, and reading";
      candidates = fast_pool reg ++ smart_pool reg;
    })
    else if model == "build"
    then some (record {
      preset = "build";
      initial_tier = "smart";
      complexity = 65;
      confidence = 90;
      intent = "Balanced Code Implementation";
      rationale =
          "Task-based preset: balanced models for coding, surgical refactoring, and test writing";
      candidates = smart_pool reg ++ fast_pool reg;
    })
    else if model == "reason" || model == "smart" || model == "quality"
    then some (record {
      preset = "reason";
      initial_tier = "smart";
      complexity = 88;
      confidence = 94;
      intent = "Deep Architecture & Logic Reasoning";
      rationale =
          "Task-based preset: high-reasoning frontier models for hard bugs, concurrency, and architecture";
      candidates = smart_pool reg ++ fast_pool reg;
    })
    else if model == "review"
    then some (record {
      preset = "review";
      initial_tier = "smart";
      complexity = 75;
      confidence = 91;
      intent = "Code Review & Security Analysis";
      rationale =
          "Task-based preset: multi-pass review, vulnerability analysis, and code quality inspection";
      candidates = smart_pool reg ++ fast_pool reg;
    })
    else none

unfoldable pub select_by_prefix : Registry → String → Selection
select_by_prefix reg model =
    if has_prefix model "claude-"
    then select_pinned reg model Pin.claude
    else if has_prefix model "gemini-"
    then select_pinned reg model Pin.gemini
    else if has_prefix model "gpt-"
    then select_pinned reg model Pin.gpt
    else select_other reg model

unfoldable pub or_by_prefix : Registry → String → Option Selection → Selection
or_by_prefix reg model none = select_by_prefix reg model
or_by_prefix reg model (some s) = s

unfoldable pub select : Registry → Complexity → String → Selection
select reg analysis model =
    if model == "auto"
    then select_auto reg analysis
    else or_by_prefix reg model (select_preset reg model)
