-- ===== src/Routing/Unique.antt =====
-- What deduplication keeps: the first candidate of each key, in order, and nothing else.
use mathlib.Core.Bool.{false≢true}
use nexus_ai_gateway.Prelude.{
  String, ◌≡◌, ◌≢◌, refl, ap, subst, true, false, List, [], ◌∷◌, arith, ◌==◌, eq_iff, if◌then◌else◌,
  All, In, here, there, In-cons, Bool-cases, inl, inr, ◌⊎◌,
}
use nexus_ai_gateway.Routing.{Candidate, key, is_seen, deduplicate_from, deduplicate_candidates}

-- No two candidates have one key.
abbrev pub IsUnique : List Candidate → Type 0
IsUnique [] = Unit
IsUnique (c ∷ cs) = ((d : Candidate) → In d cs → key d ≢ key c) × IsUnique cs

-- What is kept behind a candidate has other keys than those seen before it.
deduplicate_from-fresh :
    (seen : List String) (list : List Candidate) (d : Candidate)
    → In d (deduplicate_from seen list)
    → is_seen seen (key d) ≡ false
unfolding deduplicate_from is_seen
deduplicate_from-fresh seen [] d i = elim i [ ]
deduplicate_from-fresh seen (c ∷ list) d i = elim (Bool-cases (is_seen seen (key c))) [
  | inl old ↦ deduplicate_from-fresh seen list d (rw old at i)
  | inr new ↦
      elim (In-cons (
        subst
          (λ b.
            In d
              (if b then deduplicate_from seen list else c ∷ deduplicate_from (key c ∷ seen) list))
          new i)) [
            | inl e ↦ rw e new
            | inr m ↦ let h = deduplicate_from-fresh (key c ∷ seen) list d m in ground (arith, h)
          ]
]

fresh_ne :
    (seen : List String) (c d : Candidate) → is_seen (key c ∷ seen) (key d) ≡ false → key d ≢ key c
unfolding is_seen
fresh_ne seen c d h e = ground (arith, eq_iff (key c) (key d))

deduplicate_from-IsUnique :
    (seen : List String) (list : List Candidate) → IsUnique (deduplicate_from seen list)
unfolding deduplicate_from
deduplicate_from-IsUnique seen [] = tt
deduplicate_from-IsUnique seen (c ∷ list) = elim (Bool-cases (is_seen seen (key c))) [
  | inl old ↦ rw old (deduplicate_from-IsUnique seen list)
  | inr new ↦ rw new (
    λ d i. fresh_ne seen c d (deduplicate_from-fresh (key c ∷ seen) list d i),
    deduplicate_from-IsUnique (key c ∷ seen) list,
  )
]

-- Any property of all candidates is kept.
pub All-deduplicate_from {ℓ} :
    (P : Candidate → Type ℓ) (seen : List String) (list : List Candidate)
    → All P list
    → All P (deduplicate_from seen list)
unfolding deduplicate_from
All-deduplicate_from P seen [] h = h
All-deduplicate_from P seen (c ∷ list) (p, h) = elim (Bool-cases (is_seen seen (key c))) [
  | inl old ↦ rw old (All-deduplicate_from P seen list h)
  | inr new ↦ rw new (p, All-deduplicate_from P (key c ∷ seen) list h)
]

-- A candidate of `kept` has the key `k`.
abbrev pub HasKey : String → List Candidate → Type 0
HasKey k kept = (d : Candidate) × In d kept × (key d ≡ k)

cover_seen :
    (seen : List String) (x : Candidate) (k : String) (kept : List Candidate)
    → (is_seen (key x ∷ seen) k ≡ true) ⊎ HasKey k kept
    → (is_seen seen k ≡ true) ⊎ HasKey k (x ∷ kept)
unfolding is_seen
cover_seen seen x k kept (inr (d, i, e)) = inr (d, there i, e)
cover_seen seen x k kept (inl h) = elim (Bool-cases (key x == k)) [
  | inl same ↦ inr (x, here, (eq_iff (key x) k).0 same)
  | inr other ↦ inl (rw other at h)
]

-- Each key of the list is seen, or a kept candidate has it.
deduplicate_from-covers :
    (seen : List String) (list : List Candidate) (c : Candidate)
    → In c list
    → (is_seen seen (key c) ≡ true) ⊎ HasKey (key c) (deduplicate_from seen list)
unfolding deduplicate_from
deduplicate_from-covers seen [] c i = elim i [ ]
deduplicate_from-covers seen (x ∷ list) _ here = elim (Bool-cases (is_seen seen (key x))) [
  | inl old ↦ inl old
  | inr new ↦ rw new (inr (x, here, refl))
]
deduplicate_from-covers seen (x ∷ list) c (there i) = elim (Bool-cases (is_seen seen (key x))) [
  | inl old ↦ rw old (deduplicate_from-covers seen list c i)
  | inr new ↦ rw new (
      cover_seen seen x (key c) (deduplicate_from (key x ∷ seen) list)
        (deduplicate_from-covers (key x ∷ seen) list c i))
]

-- Distinct keys that are not seen are all kept.
deduplicate_from_unique :
    (seen : List String) (list : List Candidate)
    → IsUnique list
    → ((d : Candidate) → In d list → is_seen seen (key d) ≡ false)
    → deduplicate_from seen list ≡ list
unfolding deduplicate_from is_seen
deduplicate_from_unique seen [] u h = refl
deduplicate_from_unique seen (c ∷ list) (n, u) h = rw (h c here) (
    ap (λ cs. c ∷ cs)
      (deduplicate_from_unique (key c ∷ seen) list u
        (λ d i. ground (arith, h d (there i), n d i, eq_iff (key c) (key d)))))

-- The result has no two candidates of one provider and model.
pub deduplicate_candidates-IsUnique :
    (list : List Candidate) → IsUnique (deduplicate_candidates list)
unfolding deduplicate_candidates
deduplicate_candidates-IsUnique list = deduplicate_from-IsUnique [] list

-- A list with distinct keys is left as it is.
pub deduplicate_candidates_unique :
    (list : List Candidate) → IsUnique list → deduplicate_candidates list ≡ list
unfolding deduplicate_candidates is_seen
deduplicate_candidates_unique list u = deduplicate_from_unique [] list u (λ d i. refl)

-- Every provider and model of the list is in the result.
pub deduplicate_candidates-covers :
    (list : List Candidate) (c : Candidate)
    → In c list
    → HasKey (key c) (deduplicate_candidates list)
unfolding deduplicate_candidates is_seen
deduplicate_candidates-covers list c i = elim (deduplicate_from-covers [] list c i) [
  | inl h ↦ absurd (false≢true h)
  | inr d ↦ d
]
