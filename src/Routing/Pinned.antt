-- ===== src/Routing/Pinned.antt =====
-- A pinned model is tried first, at the provider of its family.
use nexus_ai_gateway.Prelude.{
  ℕ, String, ◌≡◌, ◌≢◌, refl, subst, ◌∙◌, not, ◌||◌, sym, Bool, true, false, Option, none, some,
  List, ◌∷◌, ◌++◌, arith, ◌==◌, eq_iff, has_prefix, inl, inr, Bool-cases,
}
use mathlib.Core.Bool.{false≢true}
use nexus_ai_gateway.Domain.Errors.{ok}
use nexus_ai_gateway.Provider.{ChatRequest, Provider}
use nexus_ai_gateway.Provider.Registry.{Registry, get}
use nexus_ai_gateway.Routing.{Candidate, Decision, deduplicate_candidates}
use nexus_ai_gateway.Routing.Complexity.{Complexity}
use nexus_ai_gateway.Routing.Pools.{offer, candidates_of}
use nexus_ai_gateway.Routing.Select.{
  Selection, Pin, select_pinned, select_preset, select_by_prefix, select, or_by_prefix,
}
use nexus_ai_gateway.Routing.Plan.{
  finish, decide, plan_dynamic, plan_for, route_plan, model_or_auto,
}

-- The families of pinned models, and the providers that serve them.
abbrev pub family : Pin → String
family Pin.claude = "claude-"
family Pin.gemini = "gemini-"
family Pin.gpt = "gpt-"

abbrev pub server : Pin → String
server Pin.claude = "anthropic"
server Pin.gemini = "gemini"
server Pin.gpt = "openai"

-- A text with a prefix is not a text without it.
prefix_ne :
    (model word p : String)
    → has_prefix word p ≡ false
    → has_prefix model p ≡ true
    → (model == word) ≡ false
prefix_ne model word p h k = elim (Bool-cases (model == word)) [
  | inr other ↦ other
  | inl same ↦
      absurd
        (false≢true (sym h ∙ subst (λ s. has_prefix s p ≡ true) ((eq_iff model word).0 same) k))
]

-- A text has the prefix of one family at most.
not_claude :
    (model : String) (pin : Pin)
    → pin ≢ Pin.claude
    → has_prefix model (family pin) ≡ true
    → has_prefix model "claude-" ≡ false
unfolding has_prefix
not_claude model Pin.claude n h = absurd (n refl)
not_claude String.[] Pin.gemini n h = cc
not_claude (String.◌∷◌ c s) Pin.gemini n h = ground arith
not_claude String.[] Pin.gpt n h = cc
not_claude (String.◌∷◌ c s) Pin.gpt n h = ground arith

not_gemini : (model : String) → has_prefix model "gpt-" ≡ true → has_prefix model "gemini-" ≡ false
unfolding has_prefix
not_gemini String.[] h = cc
not_gemini (String.◌∷◌ c String.[]) h = ground arith
not_gemini (String.◌∷◌ c (String.◌∷◌ d s)) h = ground arith

select_by_prefix-pinned :
    (reg : Registry) (model : String) (pin : Pin)
    → has_prefix model (family pin) ≡ true
    → select_by_prefix reg model ≡ select_pinned reg model pin
unfolding select_by_prefix
select_by_prefix-pinned reg model Pin.claude h = rw h
select_by_prefix-pinned reg model Pin.gemini h = rw (not_claude model Pin.gemini (λ e. cc) h) (rw h)
select_by_prefix-pinned reg model Pin.gpt h =
    rw (not_claude model Pin.gpt (λ e. cc) h) (rw (not_gemini model h) (rw h))

abbrev is_unpinned : String → Bool
is_unpinned word =
    not (has_prefix word "claude-" || has_prefix word "gemini-" || has_prefix word "gpt-")

unpinned :
    (word : String) (pin : Pin) → is_unpinned word ≡ true → has_prefix word (family pin) ≡ false
unpinned word Pin.claude h = ground arith
unpinned word Pin.gemini h = ground arith
unpinned word Pin.gpt h = ground arith

-- No word of the switch, nor the empty text, starts like a family.
module _ (model : String) (pin : Pin) (h : has_prefix model (family pin) ≡ true) where
  ne_word : (word : String) → is_unpinned word ≡ true → (model == word) ≡ false
  ne_word word k = prefix_ne model word (family pin) (unpinned word pin k) h

  select_preset-pinned : (reg : Registry) → select_preset reg model ≡ none
  unfolding select_preset has_prefix
  select_preset-pinned reg = simp (
    ne_word "explore" refl,
    ne_word "cheap" refl,
    ne_word "fast" refl,
    ne_word "build" refl,
    ne_word "reason" refl,
    ne_word "smart" refl,
    ne_word "quality" refl,
    ne_word "review" refl,
  )

  select-pinned :
      (reg : Registry) (c : Complexity) → select reg c model ≡ select_pinned reg model pin
  unfolding select or_by_prefix
  select-pinned reg c =
      rw (ne_word "auto" (unfold has_prefix in refl))
        (rw (select_preset-pinned reg) (select_by_prefix-pinned reg model pin h))

  model_or_auto-pinned : model_or_auto model ≡ model
  unfolding model_or_auto
  model_or_auto-pinned = rw (ne_word "" (unfold has_prefix in refl))

-- The head of a chain, if it has one, is this target.
abbrev pub StartsWith : String → String → Decision → Type 0
StartsWith provider_id model d =
    (d.selected_model ≡ model)
    × (d.provider_id ≡ provider_id)
    × ((c : Candidate) × (cs : List Candidate) × (d.candidates ≡ c ∷ cs)
        × (c.provider_id ≡ provider_id)
        × (c.model ≡ model))

finish-offered :
    (first p : Provider) (model id : String) (n : ℕ) (s : Selection) (o : Option Provider)
    (pools : List Candidate)
    → o ≡ some p
    → s.candidates ≡ offer o id model "primary" ++ pools
    → StartsWith id model (finish first model n s (deduplicate_candidates s.candidates))
unfolding finish decide offer deduplicate_candidates
finish-offered first p model id n s o pools e h = rw h (rw e (refl, refl, (_, _, refl, refl, refl)))

module _ (reg : Registry) (first : Provider) (keywords : List (String × String))
    (req : ChatRequest) where
  pinned_head :
      (pin : Pin) (p : Provider) (n : ℕ)
      → get reg (server pin) ≡ some p
      → let s = select_pinned reg req.model pin in
        StartsWith
          (server pin)
          req.model
          (finish first req.model n s (deduplicate_candidates s.candidates))
  unfolding select_pinned
  pinned_head Pin.claude p n e = finish-offered first p req.model "anthropic" n _ _ _ e refl
  pinned_head Pin.gemini p n e = finish-offered first p req.model "gemini" n _ _ _ e refl
  pinned_head Pin.gpt p n e = finish-offered first p req.model "openai" n _ _ _ e refl

  plan_dynamic-pinned :
      (pin : Pin) (p : Provider)
      → has_prefix req.model (family pin) ≡ true
      → get reg (server pin) ≡ some p
      → StartsWith (server pin) req.model (plan_dynamic reg first keywords req)
  unfolding plan_dynamic
  plan_dynamic-pinned pin p h g =
      rw (model_or_auto-pinned req.model pin h)
        (rw (select-pinned req.model pin h reg _) (pinned_head pin p _ g))

-- A request for a model of a pinned family, whose provider is registered, is planned with that very
-- model at that provider first, where no policy is given and some provider is registered.
pub route_plan-pinned :
    (reg : Registry) (first : Provider) (rest : List Provider) (keywords : List (String × String))
    (req : ChatRequest) (pin : Pin) (p : Provider)
    → has_prefix req.model (family pin) ≡ true
    → get reg (server pin) ≡ some p
    → (d : Decision) × (route_plan reg (first ∷ rest) keywords req none ≡ ok d)
      × StartsWith (server pin) req.model d
unfolding route_plan candidates_of plan_for
route_plan-pinned reg first rest keywords req pin p h g =
    (_, refl, plan_dynamic-pinned reg first keywords req pin p h g)
