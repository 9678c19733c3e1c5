-- ===== src/Routing.antt =====
-- internal/routing/engine.go: the data of a routing plan, and the deduplication of candidates.
pub mod Complexity
pub mod Pools
pub mod Select
pub mod Plan
pub mod Unique
pub mod Shape
pub mod Registered
pub mod Chain
pub mod Pinned
pub mod Auto
use nexus_ai_gateway.Prelude.{ℕ, String, ◌^◌, Bool, List, [], ◌∷◌, ◌==◌, if◌then◌else◌, any}
use nexus_ai_gateway.Provider.{Provider}

pub record Candidate : Type 0 where
  pub provider : Provider
  pub provider_id : String
  pub model : String
  pub tier : String

pub record FallbackAttempt : Type 0 where
  pub model : String
  pub provider_id : String
  pub tier : String
  pub error : String
  pub reason : String

-- Complexity is in hundredths; a cost is in units of a dollar over 4 * 10^9, in which the three
-- rates per token and a quarter of a character are whole numbers.
pub record Decision : Type 0 where
  pub requested_model : String
  pub selected_model : String
  pub provider_id : String
  pub preset : String
  pub tier : String
  pub complexity : ℕ
  pub confidence : ℕ
  pub intent : String
  pub rationale : String
  pub context_chars : ℕ
  pub estimated_cost : ℕ
  pub baseline_cost : ℕ
  pub candidates : List Candidate
  pub fallback_trace : List FallbackAttempt
  pub redirect_summary : String

unfoldable pub key : Candidate → String
key c = c.provider_id ^ (":" ^ c.model)

unfoldable pub is_seen : List String → String → Bool
is_seen seen k = any (λ s. s == k) seen

-- The loop of `deduplicateCandidates`; `seen` holds the keys of the map.
unfoldable pub deduplicate_from : List String → List Candidate → List Candidate
unfolding is_seen
deduplicate_from seen [] = []
deduplicate_from seen (c ∷ list) =
    let skipped = deduplicate_from seen list in
    let kept = c ∷ deduplicate_from (key c ∷ seen) list in
    if is_seen seen (key c) then skipped else kept

unfoldable pub deduplicate_candidates : List Candidate → List Candidate
unfolding deduplicate_from key
deduplicate_candidates list = deduplicate_from [] list
