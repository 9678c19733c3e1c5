-- ===== src/Switchyard/Session/Economics.antt =====
-- The statistics of a session.
use nexus_ai_gateway.Prelude.{
  ℕ, ◌+◌, ◌*◌, ◌≤◌, String, ◌≡◌, refl, subst, Option, none, some, List, [], ◌∷◌, ◌==◌, arith,
  lookup, insert, All, Bool-cases, Option-cases, inl, inr,
}
use nexus_ai_gateway.Switchyard.Session.{
  ModelPricing, priced, model_pricing_table, get_pricing, estimate_cost, estimate_baseline_cost,
  SessionStats, new_session_stats, count_call, record_call, add_files_changed,
}

-- No price is above the baseline's.
abbrev IsWithin : ModelPricing → Type 0
IsWithin p = (p.input ≤ 3000) × (p.output ≤ 15000)

lookup-All :
    {A : Type 0} (P : A → Type 0) (name : String) (entries : List (String × A)) (a : A)
    → All (λ e. P e.1) entries
    → lookup name entries ≡ some a
    → P a
unfolding lookup
lookup-All P name [] a _ h = cc h
lookup-All P name ((here, b) ∷ entries) a (p, ps) h = elim (Bool-cases (here == name)) [
  | inl e ↦ let h' : some b ≡ some a = rw e at h in subst P (some-inj h') p
  | inr e ↦ let h' : lookup name entries ≡ some a = rw e at h in lookup-All P name entries a ps h'
]
  where
    some-inj : {A : Type 0} {a b : A} → some a ≡ some b → a ≡ b
    some-inj h = cc

table-IsWithin : All (λ e. IsWithin e.1) model_pricing_table
unfolding model_pricing_table priced
table-IsWithin = ground arith

get_pricing-IsWithin : (alias : String) → IsWithin (get_pricing alias)
unfolding get_pricing priced
get_pricing-IsWithin alias = elim (Option-cases (lookup alias model_pricing_table)) [
  | inr (p, h) ↦
      rw (get_pricing, h) (lookup-All IsWithin alias model_pricing_table p table-IsWithin h)
  | inl n ↦ rw (get_pricing, n) (ground arith)
]

estimate_cost-le :
    (alias : String) (input output : ℕ)
    → estimate_cost alias input output ≤ estimate_baseline_cost input output
unfolding estimate_cost estimate_baseline_cost
estimate_cost-le alias input output = let (i, o) = get_pricing-IsWithin alias in grind (arith, i, o)

abbrev pub sum_calls : List (String × ℕ) → ℕ
sum_calls [] = 0
sum_calls (e ∷ es) = e.1 + sum_calls es

counted : Option ℕ → ℕ
counted none = 0
counted (some n) = n

insert-sum :
    (name : String) (n : ℕ) (calls : List (String × ℕ))
    → sum_calls (insert name n calls) + counted (lookup name calls) ≡ sum_calls calls + n
unfolding lookup insert counted
insert-sum name n [] = omega arith
insert-sum name n ((here, m) ∷ calls) = elim (Bool-cases (here == name)) [
  | inl e ↦ rw e (omega arith)
  | inr e ↦ rw e (omega (arith, insert-sum name n calls))
]

count_call-sum :
    (name : String) (calls : List (String × ℕ))
    → sum_calls (count_call name calls) ≡ sum_calls calls + 1
unfolding count_call counted
count_call-sum name calls = elim (Option-cases (lookup name calls)) [
  | inl e ↦
      let h : sum_calls (insert name 1 calls) + 0 ≡ sum_calls calls + 1 =
        rw e at (insert-sum name 1 calls) in
      rw (count_call, e) (omega (arith, h))
  | inr (n, e) ↦
      let h : sum_calls (insert name (n + 1) calls) + n ≡ sum_calls calls + (n + 1) =
        rw e at (insert-sum name (n + 1) calls) in
      rw (count_call, e) (omega (arith, h))
]

-- What can happen to the statistics.
pub data Step : SessionStats → SessionStats → Type 0 where
  recorded :
      (model : String) (input output : ℕ) (s : SessionStats)
      → Step s (record_call model input output s)
  changed : (count : ℕ) (s : SessionStats) → Step s (add_files_changed count s)

pub data Reach : SessionStats → Type 0 where
  start : Reach new_session_stats
  next : {s t : SessionStats} → Reach s → Step s t → Reach t

pub record IsSound (s : SessionStats) : Type 0 where
  pub calls : sum_calls s.model_calls ≡ s.requests
  pub spend : s.total_cost ≤ s.baseline_cost
  pub baseline : s.baseline_cost ≡ estimate_baseline_cost s.input_tokens s.output_tokens

Step-IsSound : {s t : SessionStats} → Step s t → IsSound s → IsSound t
unfolding record_call add_files_changed estimate_baseline_cost
Step-IsSound (recorded model input output s) k = record {
  calls = omega (arith, count_call-sum model s.model_calls, k.calls);
  spend =
      let le : estimate_cost model input output ≤ input * 3000 + output * 15000 =
        estimate_cost-le model input output in
      omega (arith, le, k.spend);
  baseline = omega (arith, k.baseline);
}
Step-IsSound (changed count s) k = record {
  calls = k.calls;
  spend = k.spend;
  baseline = k.baseline;
}

-- However calls and changed files are recorded: the calls of the models add up to the requests, the
-- baseline is that of all tokens, and the spend is never above it, so that the savings that the report
-- shows are never negative.
pub Reach-IsSound : {s : SessionStats} → Reach s → IsSound s
unfolding new_session_stats estimate_baseline_cost
Reach-IsSound start = record { calls = refl; spend = omega arith; baseline = refl }
Reach-IsSound (next r st) = Step-IsSound st (Reach-IsSound r)
