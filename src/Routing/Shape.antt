-- ===== src/Routing/Shape.antt =====
-- The chains that the switch over the model can choose: both pools, in one of two orders, behind
-- at most one candidate for the requested model.
use nexus_ai_gateway.Prelude.{
  String, Option, none, some, List, ◌++◌, if-elim, All, All-append, In, In-append_left,
  In-append_right, ◌⊎◌, inl, inr,
}
use nexus_ai_gateway.Provider.Registry.{Registry, get}
use nexus_ai_gateway.Routing.{Candidate}
use nexus_ai_gateway.Routing.Complexity.{Complexity}
use nexus_ai_gateway.Routing.Pools.{offer, fast_pool, smart_pool}
use nexus_ai_gateway.Routing.Select.{
  Selection, Pin, select_auto, select_pinned, select_other, select_preset, select_by_prefix, select,
  or_by_prefix,
}

pub data Shape (reg : Registry) : List Candidate → Type 0 where
  fast_first : Shape reg (fast_pool reg ++ smart_pool reg)
  smart_first : Shape reg (smart_pool reg ++ fast_pool reg)
  pinned :
      (id model : String) {pools : List Candidate}
      → Shape reg pools
      → Shape reg (offer (get reg id) id model "primary" ++ pools)

abbrev Shaped : Registry → Selection → Type 0
Shaped reg s = Shape reg s.candidates

abbrev ShapedIfSome : Registry → Option Selection → Type 0
ShapedIfSome reg none = Unit
ShapedIfSome reg (some s) = Shaped reg s

module _ (reg : Registry) where
  select_auto-Shape : (c : Complexity) → Shaped reg (select_auto reg c)
  unfolding select_auto
  select_auto-Shape c = search (if-elim (Shaped reg), fast_first, smart_first)

  select_pinned-Shape : (model : String) (pin : Pin) → Shaped reg (select_pinned reg model pin)
  unfolding select_pinned
  select_pinned-Shape model Pin.claude = pinned "anthropic" model smart_first
  select_pinned-Shape model Pin.gemini = pinned "gemini" model fast_first
  select_pinned-Shape model Pin.gpt = pinned "openai" model smart_first

  select_preset-Shape : (model : String) → ShapedIfSome reg (select_preset reg model)
  unfolding select_preset
  select_preset-Shape model = search (if-elim (ShapedIfSome reg), fast_first, smart_first, tt)

  select_by_prefix-Shape : (model : String) → Shaped reg (select_by_prefix reg model)
  unfolding select_by_prefix select_other
  select_by_prefix-Shape model =
      search (if-elim (Shaped reg), select_pinned-Shape model, pinned model model fast_first)

  or_by_prefix-Shape :
      (model : String) (o : Option Selection)
      → ShapedIfSome reg o
      → Shaped reg (or_by_prefix reg model o)
  unfolding or_by_prefix
  or_by_prefix-Shape model none h = select_by_prefix-Shape model
  or_by_prefix-Shape model (some s) h = h

  pub select-Shape : (c : Complexity) (model : String) → Shape reg (select reg c model).candidates
  unfolding select
  select-Shape c model = search (
    if-elim (Shaped reg),
    select_auto-Shape c,
    or_by_prefix-Shape model (select_preset reg model) (select_preset-Shape model),
  )

module _ {ℓ} (reg : Registry) (P : Candidate → Type ℓ) where
  -- A property of every offer holds of the whole chain.
  abbrev pub Offered : Type ℓ
  Offered = (id model tier : String) → All P (offer (get reg id) id model tier)

  module _ (each : Offered) where
    fast : All P (fast_pool reg)
    unfolding fast_pool
    fast = All-append P _ _ (each _ _ _) (All-append P _ _ (each _ _ _) (each _ _ _))

    smart : All P (smart_pool reg)
    unfolding smart_pool
    smart = All-append P _ _ (each _ _ _) (All-append P _ _ (each _ _ _) (each _ _ _))

    pub Shape-All : {cs : List Candidate} → Shape reg cs → All P cs
    Shape-All fast_first = All-append P _ _ fast smart
    Shape-All smart_first = All-append P _ _ smart fast
    Shape-All (pinned id model s) = All-append P _ _ (each id model _) (Shape-All s)

-- Both pools are in the chain.
pub Shape-pools :
    {reg : Registry} {cs : List Candidate} (c : Candidate)
    → Shape reg cs
    → In c (fast_pool reg) ⊎ In c (smart_pool reg)
    → In c cs
Shape-pools c fast_first (inl i) = In-append_left _ _ i
Shape-pools c fast_first (inr i) = In-append_right _ _ i
Shape-pools c smart_first (inl i) = In-append_right _ _ i
Shape-pools c smart_first (inr i) = In-append_left _ _ i
Shape-pools c (pinned id model s) i = In-append_right _ _ (Shape-pools c s i)
