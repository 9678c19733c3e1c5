-- ===== src/Switchyard/Parsing/Blocks.antt =====
-- `FindAllStringSubmatch` ends, and finds the blocks that stand in the response, from left to right.
use Prim.Native.String.{[] as ε, ◌∷◌ as ◌⊳◌, count}
use text.Mathlib.TextLemmas.{append-nil, nil-append, cons-append, length-cons}
use nexus_ai_gateway.Prelude.{
  ℕ, zero, suc, ◌<◌, String, ◌^◌, ◌≡◌, refl, sym, subst, Option, none, some, List, [], ◌∷◌, arith,
  Option-cases, inl, inr,
}
use nexus_ai_gateway.Switchyard.Parsing.{find_all}

-- What a text starts with, as a relation of the text, the match and the text behind it.
module _ {A : Type 0} (Starts : String → A → String → Type 0) where
  abbrev pub IsUnmatched : String → Type 0
  IsUnmatched s = (a : A) (rest : String) → Starts s a rest → ⊥

  -- No match starts in the first text, where the second one follows it.
  pub data IsSilent : String → String → Type 0 where
    done : {after : String} → IsSilent ε after
    step :
        {after : String} (c : _) (gap : String)
        → IsUnmatched ((c ⊳ gap) ^ after)
        → IsSilent gap after
        → IsSilent (c ⊳ gap) after

  -- A text as gaps in which no match starts, and matches between them.
  pub data Blocks : List A → String → Type 0 where
    no_more : (s : String) → IsSilent s ε → IsUnmatched ε → Blocks [] s
    block :
        (a : A) (found : List A) (gap here rest : String)
        → IsSilent gap here
        → Starts here a rest
        → Blocks found rest
        → Blocks (a ∷ found) (gap ^ here)

  further :
      (c : _) (t : String) (found : List A)
      → IsUnmatched (c ⊳ t)
      → Blocks found t
      → Blocks found (c ⊳ t)
  further c t [] n (no_more s q k) =
      no_more (c ⊳ t) (step c t (subst IsUnmatched (sym (append-nil (c ⊳ t))) n) q) k
  further c t (_ ∷ _) n (block a found gap here rest q m b) =
      subst (Blocks (a ∷ found)) (cons-append c gap here) (
        block a found (c ⊳ gap) here rest
          (step c gap (subst IsUnmatched (sym (cons-append c gap here)) n) q) m b)

module _ {A : Type 0} (Starts : String → A → String → Type 0)
    (match_at : String → Option (A × String)) where
  -- The matching finds what a text starts with, and nothing else.
  abbrev pub IsSound : Type 0
  IsSound = (s rest : String) (a : A) → match_at s ≡ some (a, rest) → Starts s a rest

  abbrev pub IsThorough : Type 0
  IsThorough = (s : String) → match_at s ≡ none → IsUnmatched Starts s

  -- The text behind a match is shorter.
  abbrev pub IsShrinking : Type 0
  IsShrinking = (s rest : String) (a : A) → Starts s a rest → count rest < count s

  -- What `find_all` returns for a text, with some fuel.
  abbrev pub Finds : ℕ → String → Type 0
  Finds n s = (found : List A) × (find_all match_at n s ≡ some found) × Blocks Starts found s

  module _ (sound : IsSound) (thorough : IsThorough) (shrinks : IsShrinking) where
    matched :
        (n : ℕ) (s rest : String) (a : A)
        → match_at s ≡ some (a, rest)
        → Finds n rest
        → Finds (suc n) s
    unfolding find_all
    matched n s rest a e (found, f, b) = (
      a ∷ found,
      rw (find_all, e, f) refl,
      subst (Blocks Starts (a ∷ found)) (nil-append s)
          (block a found ε s rest done (sound s rest a e) b),
    )

    pub find_all-Finds : (n : ℕ) (s : String) → count s < n → Finds n s
    unfolding find_all
    find_all-Finds zero s h = absurd (omega arith)
    find_all-Finds (suc n) ε h = elim (Option-cases (match_at ε)) [
      | inr ((a, rest), e) ↦
          matched n ε rest a e
            (find_all-Finds n rest (omega (arith, h, shrinks ε rest a (sound ε rest a e))))
      | inl e ↦ ([], rw (find_all, e) refl, no_more ε done (thorough ε e))
    ]
    find_all-Finds (suc n) (c ⊳ t) h = elim (Option-cases (match_at (c ⊳ t))) [
      | inr ((a, rest), e) ↦ matched n (c ⊳ t) rest a e (
          find_all-Finds n rest (omega (arith, h, shrinks (c ⊳ t) rest a (sound (c ⊳ t) rest a e))))
      | inl e ↦
          let (found, f, b) = find_all-Finds n t (omega (arith, h, length-cons c t)) in
          (found, rw (find_all, e, f) refl, further Starts c t found (thorough (c ⊳ t) e) b)
    ]
