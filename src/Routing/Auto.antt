-- ===== src/Routing/Auto.antt =====
-- The model "auto": what decides between the tiers, whatever the order of the keywords.
use nexus_ai_gateway.Prelude.{
  ℕ, String, ◌≡◌, refl, ◌∙◌, Bool, true, ◌||◌, sym, ap, ◌++◌, List, [], ◌∷◌, arith, ltb, leb, any,
  contains, to_lower, if◌then◌else◌, inl, inr, Bool-cases, In, here, there, ◌↔◌,
}
use nexus_ai_gateway.Provider.{Message}
use nexus_ai_gateway.Provider.Registry.{Registry}
use nexus_ai_gateway.Routing.Complexity.{
  Complexity, heavy_keywords, count_chars, last_user_from, has_code, analyze_plain,
  analyze_keywords, analyze_complexity,
}
use mathlib.Core.Bool.{true≢false}
use nexus_ai_gateway.Routing.{Candidate}
use nexus_ai_gateway.Routing.Pools.{fast_pool, smart_pool}
use nexus_ai_gateway.Routing.Select.{select_auto}

-- Some keyword occurs in the lower-case text.
abbrev pub occurs : List (String × String) → String → Bool
occurs keywords lower = any (λ k. contains lower k.0) keywords

analyze_keywords-score :
    (keywords : List (String × String)) (n : ℕ) (content lower : String)
    → (analyze_keywords keywords n content lower).score
      ≡ (if occurs keywords lower then 85 else (analyze_plain n content lower).score)
unfolding analyze_keywords
analyze_keywords-score [] n content lower = refl
analyze_keywords-score ((kw, intent) ∷ keywords) n content lower =
    ground (arith, analyze_keywords-score keywords n content lower)

analyze_plain-tier :
    (n : ℕ) (content lower : String)
    → leb 40 (analyze_plain n content lower).score ≡ (has_code content || ltb 3500 n)
unfolding analyze_plain
analyze_plain-tier n content lower = ground arith

analyze_keywords-tier :
    (keywords : List (String × String)) (n : ℕ) (content lower : String)
    → leb 40 (analyze_keywords keywords n content lower).score
      ≡ (occurs keywords lower || (has_code content || ltb 3500 n))
analyze_keywords-tier keywords n content lower =
    rw (analyze_keywords-score keywords n content lower)
      (elim (Bool-cases (occurs keywords lower)) [
        | inl found ↦ rw found
        | inr none_found ↦ rw none_found (analyze_plain-tier n content lower)
      ])

-- The two orders of the pools.
abbrev pub smart_first : Registry → List Candidate
smart_first reg = smart_pool reg ++ fast_pool reg

abbrev pub fast_first : Registry → List Candidate
fast_first reg = fast_pool reg ++ smart_pool reg

select_auto-smart :
    (reg : Registry) (c : Complexity)
    → ((select_auto reg c).candidates
        ≡ (if leb 40 c.score then smart_first reg else fast_first reg))
      × ((select_auto reg c).initial_tier ≡ (if leb 40 c.score then "smart" else "fast"))
unfolding select_auto
select_auto-smart reg c = elim (Bool-cases (leb 80 c.score)) [
  | inl high ↦
      let middle : leb 40 c.score ≡ true = ground arith in
      rw (select_auto, high, middle) (refl, refl)
  | inr low ↦ elim (Bool-cases (leb 40 c.score)) [
    | inl middle ↦ rw (select_auto, low, middle) (refl, refl)
    | inr lowest ↦ rw (select_auto, low, lowest) (refl, refl)
  ]
]

-- The entries of a map, in the order in which a loop meets them.
abbrev pub SameEntries : List (String × String) → List (String × String) → Type 0
SameEntries ks ls = (e : String × String) → In e ks ↔ In e ls

occurs_of_In :
    (ks : List (String × String)) (lower : String) (e : String × String)
    → In e ks
    → contains lower e.0 ≡ true
    → occurs ks lower ≡ true
occurs_of_In [] lower e i h = elim i [ ]
occurs_of_In (k ∷ ks) lower _ here h = rw h
occurs_of_In (k ∷ ks) lower e (there i) h = ground (arith, occurs_of_In ks lower e i h)

In-of_occurs :
    (ks : List (String × String)) (lower : String)
    → occurs ks lower ≡ true
    → (e : String × String) × In e ks × (contains lower e.0 ≡ true)
In-of_occurs [] lower h = cc
In-of_occurs (k ∷ ks) lower h = elim (Bool-cases (contains lower k.0)) [
  | inl found ↦ (k, here, found)
  | inr other ↦ let (e, i, found) = In-of_occurs ks lower (rw other at h) in (e, there i, found)
]

occurs_same :
    (ks ls : List (String × String)) (lower : String)
    → ((e : String × String) → In e ks → In e ls)
    → occurs ks lower ≡ true
    → occurs ls lower ≡ true
occurs_same ks ls lower sub h =
    let (e, i, found) = In-of_occurs ks lower h in occurs_of_In ls lower e (sub e i) found

occurs-same :
    (ks ls : List (String × String)) (lower : String)
    → SameEntries ks ls
    → occurs ks lower ≡ occurs ls lower
occurs-same ks ls lower same = elim (Bool-cases (occurs ks lower)) [
  | inl e ↦ e ∙ sym (occurs_same ks ls lower (λ e. (same e).0) e)
  | inr e ↦ elim (Bool-cases (occurs ls lower)) [
    | inl f ↦ absurd (true≢false (sym (occurs_same ls ks lower (λ e. (same e).1) f) ∙ e))
    | inr f ↦ e ∙ sym f
  ]
]

-- The last user message of a conversation holds one of the heavy keywords or code, or the messages have
-- more than 3500 bytes in all.
abbrev pub is_heavy : List Message → Bool
is_heavy messages =
    occurs heavy_keywords (to_lower (last_user_from "" messages))
    || (has_code (last_user_from "" messages) || ltb 3500 (count_chars messages))

-- A conversation that is not empty is tried at the smart pool first, then at the fast one, and labelled
-- "smart", exactly when its last user message holds one of the heavy keywords or code, or the messages
-- have more than 3500 bytes in all; it is tried at the fast pool first and labelled "fast" otherwise.
-- This holds in whatever order the map of the keywords is ranged over.
pub select_auto-tier :
    (reg : Registry) (keywords : List (String × String)) (m : Message) (messages : List Message)
    → SameEntries keywords heavy_keywords
    → let chosen = select_auto reg (analyze_complexity keywords (m ∷ messages)) in
      (chosen.candidates ≡ (
        if is_heavy (m ∷ messages)
        then smart_pool reg ++ fast_pool reg
        else fast_pool reg ++ smart_pool reg))
      × (chosen.initial_tier ≡ (if is_heavy (m ∷ messages) then "smart" else "fast"))
unfolding analyze_complexity
select_auto-tier reg keywords m messages same =
    let all = m ∷ messages in
    let last = last_user_from "" all in
    let tier : leb 40 (analyze_complexity keywords all).score ≡ is_heavy all =
      analyze_keywords-tier keywords (count_chars all) last (to_lower last)
      ∙ ap (λ b. b || (has_code last || ltb 3500 (count_chars all)))
          (occurs-same keywords heavy_keywords (to_lower last) same) in
    let (cs, label) = select_auto-smart reg (analyze_complexity keywords all) in
    (
      cs ∙ ap (λ b. if b then smart_first reg else fast_first reg) tier,
      label ∙ ap (λ b. if b then "smart" else "fast") tier,
    )

-- The score does not depend on the order in which the keywords are ranged over, though the intent
-- may.
pub analyze_complexity-score :
    (ks ls : List (String × String)) (messages : List Message)
    → SameEntries ks ls
    → (analyze_complexity ks messages).score ≡ (analyze_complexity ls messages).score
unfolding analyze_complexity
analyze_complexity-score ks ls [] same = refl
analyze_complexity-score ks ls (m ∷ messages) same =
    let content = last_user_from "" (m ∷ messages) in
    let lower = to_lower content in
    let n = count_chars (m ∷ messages) in
    ground (
      arith,
      analyze_keywords-score ks n content lower,
      analyze_keywords-score ls n content lower,
      occurs_same ks ls lower (λ e. (same e).0),
      occurs_same ls ks lower (λ e. (same e).1),
    )
