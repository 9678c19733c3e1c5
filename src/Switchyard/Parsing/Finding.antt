-- ===== src/Switchyard/Parsing/Finding.antt =====
-- A text that has the parts that the regular expressions of `ParseProposedEdits` look for is matched.
use Prim.Native.Char.{Char, code}
use Prim.Native.String.{[] as ε, ◌∷◌ as ◌⊳◌, count}
use text.Mathlib.TextLemmas.{append_assoc, nil-append, cons-append, length-append, length-cons}
use nexus_ai_gateway.Prelude.{
  ℕ, ◌≤◌, String, ◌^◌, ◌≡◌, ◌≢◌, refl, sym, ap, ◌∙◌, subst, true, false, ◌||◌, none, some, eq_false,
  eqb, strip_prefix, cut, arith, Bool-cases, Option-cases, inl, inr,
}
use nexus_ai_gateway.Switchyard.Parsing.{span_line, path_line}

-- A text on one line.
unfoldable pub IsLine : String → Type 0
IsLine ε = Unit
IsLine (c ⊳ s) = ((eqb (code c) b'\n' || eqb (code c) b'\r') ≡ false) × IsLine s

pub span_line-IsLine : (s : String) → IsLine (span_line s).0
unfolding span_line IsLine
span_line-IsLine ε = tt
span_line-IsLine (c ⊳ s) = elim (Bool-cases (eqb (code c) b'\n' || eqb (code c) b'\r')) [
  | inl e ↦ rw e tt
  | inr e ↦ rw e (e, span_line-IsLine s)
]

end-ends :
    (c : Char) (rest : String)
    → (eqb (code c) b'\n' || eqb (code c) b'\r') ≡ true
    → span_line ((c ⊳ ε) ^ rest) ≡ (ε, (c ⊳ ε) ^ rest)
unfolding span_line
end-ends c rest h =
    let shown : (c ⊳ ε) ^ rest ≡ c ⊳ rest =
      cons-append c ε rest ∙ ap (λ t. c ⊳ t) (nil-append rest) in
    subst (λ t. span_line t ≡ (ε, t)) (sym shown) (rw (span_line, h) refl)

newline-ends : (rest : String) → span_line ("\n" ^ rest) ≡ (ε, "\n" ^ rest)
newline-ends rest = end-ends "\n" rest refl

line-taken :
    (path rest : String) → IsLine path → span_line (path ^ ("\n" ^ rest)) ≡ (path, "\n" ^ rest)
unfolding span_line IsLine
line-taken ε rest h =
    subst (λ t. span_line t ≡ (ε, "\n" ^ rest)) (sym (nil-append ("\n" ^ rest))) (newline-ends rest)
line-taken (c ⊳ path) rest (h, hs) =
    rw (cons-append c path ("\n" ^ rest), span_line, h, line-taken path rest hs) refl

eqb-same : (n : ℕ) → eqb n n ≡ true
eqb-same n = ground arith

pub strip_prefix-finds : (p rest : String) → strip_prefix (p ^ rest) p ≡ some rest
unfolding strip_prefix
strip_prefix-finds ε rest = ap some (nil-append rest)
strip_prefix-finds (c ⊳ p) rest =
    rw (cons-append c p rest, strip_prefix, eqb-same (code c)) (strip_prefix-finds p rest)

pub path_line-finds :
    (opening path rest : String)
    → path ≢ ""
    → IsLine path
    → path_line opening (opening ^ (path ^ ("\n" ^ rest))) ≡ some (path, rest)
unfolding path_line
path_line-finds opening path rest named line =
    rw
      (
        path_line,
        strip_prefix-finds opening (path ^ ("\n" ^ rest)),
        line-taken path rest line,
        strip_prefix-finds "\n" rest,
        eq_false path "" named,
      )
      refl

-- What is stripped from within the first text leaves the second one at the end.
strip_prefix-ends :
    (x b p r : String)
    → count p ≤ count x
    → strip_prefix (x ^ b) p ≡ some r
    → (mid : String) × (r ≡ mid ^ b)
unfolding strip_prefix
strip_prefix-ends x b ε r h e = let same : x ^ b ≡ r = cc e in (x, sym same)
strip_prefix-ends ε b (d ⊳ p) r h e = absurd (omega (arith, h, length-cons d p))
strip_prefix-ends (c ⊳ x) b (d ⊳ p) r h e = elim (Bool-cases (eqb (code c) (code d))) [
  | inl f ↦
      strip_prefix-ends x b p r (omega (arith, h, length-cons d p, length-cons c x))
        (rw (cons-append c x b, strip_prefix, f) at e)
  | inr f ↦ let e' : none ≡ some r = rw (cons-append c x b, strip_prefix, f) at e in absurd (cc e')
]

-- A text with a separator in it is cut, at the latest there.
abbrev pub IsCut : String → String → String → Type 0
IsCut s sep b =
    (before : String) × (rest : String) × (mid : String) × (cut s sep ≡ some (before, rest))
    × (rest ≡ mid ^ b)

at_once-IsCut : (s sep b r mid : String) → strip_prefix s sep ≡ some r → r ≡ mid ^ b → IsCut s sep b
unfolding cut
at_once-IsCut ε sep b r mid e k = (ε, r, mid, rw (cut, e) refl, k)
at_once-IsCut (c ⊳ s) sep b r mid e k = (ε, r, mid, rw (cut, e) refl, k)

later-IsCut :
    (c : Char) (s sep b : String)
    → strip_prefix (c ⊳ s) sep ≡ none
    → IsCut s sep b
    → IsCut (c ⊳ s) sep b
unfolding cut
later-IsCut c s sep b n (before, rest, mid, e, k) = (c ⊳ before, rest, mid, rw (cut, n, e) refl, k)

pub append-IsCut : (a sep b : String) → IsCut (a ^ (sep ^ b)) sep b
append-IsCut ε sep b =
    subst (λ s. IsCut s sep b) (sym (nil-append (sep ^ b)))
      (at_once-IsCut (sep ^ b) sep b b ε (strip_prefix-finds sep b) (sym (nil-append b)))
append-IsCut (c ⊳ a) sep b =
    subst (λ s. IsCut s sep b) (sym (cons-append c a (sep ^ b)))
      (elim (Option-cases (strip_prefix (c ⊳ (a ^ (sep ^ b))) sep)) [
        | inl n ↦ later-IsCut c (a ^ (sep ^ b)) sep b n (append-IsCut a sep b)
        | inr (r, e) ↦
            let whole : c ⊳ (a ^ (sep ^ b)) ≡ ((c ⊳ a) ^ sep) ^ b =
              sym (cons-append c a (sep ^ b)) ∙ sym (append_assoc (c ⊳ a) sep b) in
            let (mid, k) =
              strip_prefix-ends ((c ⊳ a) ^ sep) b sep r (omega (arith, length-append (c ⊳ a) sep))
                (subst (λ s. strip_prefix s sep ≡ some r) whole e) in
            at_once-IsCut (c ⊳ (a ^ (sep ^ b))) sep b r mid e k
      ])
