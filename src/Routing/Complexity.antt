-- ===== src/Routing/Complexity.antt =====
-- `countChars` and `analyzeComplexity` of internal/routing/engine.go. Scores are in hundredths.
use nexus_ai_gateway.Prelude.{
  ℕ, ◌+◌, String, ◌^◌, len, Bool, ◌||◌, List, [], ◌∷◌, ◌==◌, ltb, if◌then◌else◌, to_lower, contains,
  has_prefix, has_suffix, decimal, any,
}
use nexus_ai_gateway.Provider.{Message}

unfoldable pub count_chars : List Message → ℕ
count_chars [] = 0
count_chars (m ∷ messages) = len m.content + count_chars messages

pub record Complexity : Type 0 where
  pub score : ℕ
  pub intent : String
  pub rationale : String

-- The first loop: the content of the last user message, and the length of all.
unfoldable pub last_user_from : String → List Message → String
last_user_from last [] = last
last_user_from last (m ∷ messages) =
    last_user_from (if to_lower m.role == "user" then m.content else last) messages

-- Go leaves the order in which a map is ranged over open, so the map is an argument below.
unfoldable pub heavy_keywords : List (String × String)
heavy_keywords =
    ("refactor", "Code Refactoring & Architecture")
    ∷ ("architecture", "System Architecture Design")
    ∷ ("arquitetura", "System Architecture Design")
    ∷ ("concurrency", "Concurrent Systems Analysis")
    ∷ ("concorrência", "Concurrent Systems Analysis")
    ∷ ("deadlock", "Deadlock & Race Condition Analysis")
    ∷ ("race condition", "Deadlock & Race Condition Analysis")
    ∷ ("benchmark", "Performance Benchmarking")
    ∷ ("distributed transaction", "Distributed Systems Coordination")
    ∷ ("transação distribuída", "Distributed Systems Coordination")
    ∷ ("microservices", "Microservices Architecture")
    ∷ ("kubernetes", "Infrastructure & Orchestration")
    ∷ ("security audit", "Security Vulnerability Audit")
    ∷ ("complexidade de tempo", "Algorithm Complexity Proof")
    ∷ ("big-o", "Algorithm Complexity Proof")
    ∷ ("deep analysis", "In-depth Technical Analysis")
    ∷ ("análise aprofundada", "In-depth Technical Analysis")
    ∷ []

unfoldable pub conversational_keywords : List String
conversational_keywords =
    "hi" ∷ "hello" ∷ "hey" ∷ "olá" ∷ "ola" ∷ "bom dia" ∷ "boa tarde" ∷ "boa noite" ∷ "ok" ∷ "yes"
    ∷ "no" ∷ "sim" ∷ "não" ∷ "nao" ∷ "thanks" ∷ "obrigado" ∷ "valeu" ∷ []

unfoldable pub has_code : String → Bool
has_code content =
    contains content "```"
    || contains content "func "
    || contains content "class "
    || contains content "struct "

unfoldable pub is_conversational : String → Bool
unfolding conversational_keywords
is_conversational lower =
    any (λ kw. lower == kw || has_prefix lower (kw ^ " ") || has_suffix lower (" " ^ kw))
      conversational_keywords

-- What follows the loop over the heavy keywords.
unfoldable pub analyze_plain : ℕ → String → String → Complexity
unfolding has_code is_conversational
analyze_plain total_len content lower =
    if has_code content
    then record {
      score = 75;
      intent = "Source Code Analysis";
      rationale = "Embedded source code or structured syntax block detected";
    }
    else if ltb 3500 total_len
    then record {
      score = 70;
      intent = "Large Context Analysis";
      rationale = "Long conversation history (" ^ (decimal total_len ^ " characters)");
    }
    else if is_conversational lower
    then record {
      score = 5;
      intent = "Conversational / Greeting";
      rationale = "Short conversational interaction";
    }
    else if ltb (len content) 120
    then record {
      score = 15;
      intent = "Direct Inquiry";
      rationale = "Short factual or instructional prompt";
    }
    else record {
      score = 35;
      intent = "Standard Query";
      rationale = "Moderate length query without heavy technical keywords";
    }

unfoldable pub analyze_keywords : List (String × String) → ℕ → String → String → Complexity
unfolding analyze_plain
analyze_keywords [] total_len content lower = analyze_plain total_len content lower
analyze_keywords ((kw, intent) ∷ keywords) total_len content lower =
    let rest = analyze_keywords keywords total_len content lower in
    if contains lower kw
    then record {
      score = 85;
      intent = intent;
      rationale = "High technical complexity pattern matched: '" ^ (kw ^ "'");
    }
    else rest

unfoldable pub analyze_complexity : List (String × String) → List Message → Complexity
unfolding analyze_keywords last_user_from count_chars
analyze_complexity keywords [] = record {
  score = 10;
  intent = "Empty Query";
  rationale = "No input detected";
}
analyze_complexity keywords (m ∷ messages) =
    let content = last_user_from "" (m ∷ messages) in
    analyze_keywords keywords (count_chars (m ∷ messages)) content (to_lower content)
