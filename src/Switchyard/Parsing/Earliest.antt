-- ===== src/Switchyard/Parsing/Earliest.antt =====
-- The lazy groups of the regular expressions of `ParseProposedEdits` end at the first place they can.
use Prim.Native.Char.{Char}
use Prim.Native.String.{[] as ε, ◌∷◌ as ◌⊳◌, count}
use text.Mathlib.TextLemmas.{nil-append, cons-append, length-cons}
use nexus_ai_gateway.Prelude.{
  ◌≤◌, String, ◌^◌, ◌≡◌, sym, ap, ◌∙◌, subst, Option, none, some, strip_prefix, cut, arith,
  Option-cases, inl, inr,
}
use nexus_ai_gateway.Switchyard.Parsing.Texts.{cut-append}
use nexus_ai_gateway.Switchyard.Parsing.Finding.{strip_prefix-finds}

-- A text before a separator, and before all others.
abbrev pub IsFirst : String → String → String → Type 0
IsFirst sep before rest =
    (a b : String) → before ^ (sep ^ rest) ≡ a ^ (sep ^ b) → count before ≤ count a

some_text≢none : {x : String} → some x ≡ none → ⊥
some_text≢none h = cc

some_pair-fst :
    {a b c d : String} → ◌≡◌ {A = Option (String × String)} (some (a, b)) (some (c, d)) → a ≡ c
some_pair-fst h = cc

cons-tail : {c d : Char} {s t : String} → c ⊳ s ≡ d ⊳ t → s ≡ t
cons-tail h = cc

cut_further :
    (c : Char) (s sep x b : String)
    → ((a : String) → s ≡ a ^ (sep ^ b) → count x ≤ count a)
    → (a : String) → c ⊳ s ≡ a ^ (sep ^ b)
    → strip_prefix (c ⊳ s) sep ≡ none
    → count (c ⊳ x) ≤ count a
cut_further c s sep x b shorter ε k n =
    let found : strip_prefix (c ⊳ s) sep ≡ some b =
      ap (λ t. strip_prefix t sep) (k ∙ nil-append (sep ^ b)) ∙ strip_prefix-finds sep b in
    absurd (some_text≢none (sym found ∙ n))
cut_further c s sep x b shorter (d ⊳ a) k n =
    omega (
      arith,
      length-cons c x,
      length-cons d a,
      shorter a (cons-tail (k ∙ cons-append d a (sep ^ b))),
    )

cut-earliest :
    (s sep before rest : String)
    → cut s sep ≡ some (before, rest)
    → (a b : String) → s ≡ a ^ (sep ^ b)
    → count before ≤ count a
unfolding cut
cut-earliest ε sep before rest h a b k = elim (Option-cases (strip_prefix ε sep)) [
  | inl n ↦
      let h' : ◌≡◌ {A = Option (String × String)} none (some (before, rest)) = rw (cut, n) at h in
      absurd (cc h')
  | inr (r, e) ↦
      let same : ε ≡ before = some_pair-fst (rw (cut, e) at h) in
      subst (λ x. count x ≤ count a) same (omega arith)
]
cut-earliest (c ⊳ s) sep before rest h a b k = elim (Option-cases (strip_prefix (c ⊳ s) sep)) [
  | inr (r, e) ↦
      let same : ε ≡ before = some_pair-fst (rw (cut, e) at h) in
      subst (λ x. count x ≤ count a) same (omega arith)
  | inl n ↦ elim (Option-cases (cut s sep)) [
    | inl m ↦
        let h' : ◌≡◌ {A = Option (String × String)} none (some (before, rest)) =
          rw (cut, n, m) at h in
        absurd (cc h')
    | inr ((x, r), e) ↦
        let same : c ⊳ x ≡ before = some_pair-fst (rw (cut, n, e) at h) in
        subst (λ y. count y ≤ count a) same
          (cut_further c s sep x b (λ a' k'. cut-earliest s sep x r e a' b k') a k n)
  ]
]

pub cut-IsFirst :
    (s sep before rest : String) → cut s sep ≡ some (before, rest) → IsFirst sep before rest
cut-IsFirst s sep before rest h a b k =
    cut-earliest s sep before rest h a b (cut-append s sep before rest h ∙ k)
