-- ===== src/Switchyard/Parsing/Texts.antt =====
-- The parts of a text that the regular expressions of `ParseProposedEdits` take make up the text.
use Prim.Native.Nat.{Ordering, compare}
use Prim.Native.Char.{Char, code}
use Prim.Native.String.{[] as ε, ◌∷◌ as ◌⊳◌}
use text.Mathlib.TextEquality.{codes_equal}
use text.Mathlib.TextLemmas.{nil-append, cons-append}
use mathlib.Core.Bool.{true≢false}
use nexus_ai_gateway.Prelude.{
  ◌≢◌, subst, eq_iff, String, ◌^◌, ◌≡◌, refl, sym, ap, ◌∙◌, true, false, ◌||◌, Option, none, some,
  bind-eq-some, ◌==◌, eqb, if◌then◌else◌, strip_prefix, cut, Bool-cases, Option-cases, inl, inr,
}
use nexus_ai_gateway.Switchyard.Parsing.{span_line, path_line}
use nexus_ai_gateway.Switchyard.Parsing.Finding.{IsLine, span_line-IsLine}

is_eq-Ordering :
    (o : Ordering) → (elim o [ Ordering.eq ↦ true | _ ↦ false ]) ≡ true → o ≡ Ordering.eq
is_eq-Ordering Ordering.lt h = cc
is_eq-Ordering Ordering.eq h = refl
is_eq-Ordering Ordering.gt h = cc

same_char : (c d : Char) → eqb (code c) (code d) ≡ true → c ≡ d
same_char c d h = codes_equal c d (is_eq-Ordering (compare (code c) (code d)) h)

pub strip_prefix-append : (s p rest : String) → strip_prefix s p ≡ some rest → s ≡ p ^ rest
unfolding strip_prefix
strip_prefix-append s ε rest h = let e : s ≡ rest = cc in e ∙ sym (nil-append rest)
strip_prefix-append ε (d ⊳ p) rest h = cc
strip_prefix-append (c ⊳ s) (d ⊳ p) rest h = elim (Bool-cases (eqb (code c) (code d))) [
  | inl e ↦
      let h' : strip_prefix s p ≡ some rest = rw e at h in
      ap (λ x. x ⊳ s) (same_char c d e)
      ∙ ap (λ t. d ⊳ t) (strip_prefix-append s p rest h')
      ∙ sym (cons-append d p rest)
  | inr e ↦ let h' : none ≡ some rest = rw e at h in cc h'
]

span_line-append : (s : String) → (span_line s).0 ^ (span_line s).1 ≡ s
unfolding span_line
span_line-append ε = nil-append ε
span_line-append (c ⊳ s) = elim (Bool-cases (eqb (code c) b'\n' || eqb (code c) b'\r')) [
  | inl e ↦ rw e (nil-append (c ⊳ s))
  | inr e ↦ rw e (cons-append c _ _ ∙ ap (λ t. c ⊳ t) (span_line-append s))
]

abbrev pair : String → String → Option (String × String)
pair a b = some (a, b)

pub some_pair-inj :
    {A B : Type 0} {a c : A} {b d : B}
    → ◌≡◌ {A = Option (A × B)} (some (a, b)) (some (c, d))
    → (a ≡ c) × (b ≡ d)
some_pair-inj h = (cc, cc)

cut_here :
    (s sep r before rest : String)
    → pair ε r ≡ pair before rest
    → s ≡ sep ^ r
    → s ≡ before ^ (sep ^ rest)
cut_here s sep r before rest h e =
    let (b, t) = some_pair-inj h in
    e ∙ sym (nil-append (sep ^ r)) ∙ ap (λ x. x ^ (sep ^ r)) b ∙ ap (λ x. before ^ (sep ^ x)) t

pub cut-append :
    (s sep before rest : String) → cut s sep ≡ some (before, rest) → s ≡ before ^ (sep ^ rest)
unfolding cut
cut-append ε sep before rest h = elim (Option-cases (strip_prefix ε sep)) [
  | inl n ↦ let h' : none ≡ pair before rest = rw (cut, n) at h in cc h'
  | inr (r, e) ↦ cut_here ε sep r before rest (rw (cut, e) at h) (strip_prefix-append ε sep r e)
]
cut-append (c ⊳ s) sep before rest h = elim (Option-cases (strip_prefix (c ⊳ s) sep)) [
  | inr (r, e) ↦
      cut_here (c ⊳ s) sep r before rest (rw (cut, e) at h) (strip_prefix-append (c ⊳ s) sep r e)
  | inl n ↦ elim (Option-cases (cut s sep)) [
    | inl m ↦ let h' : none ≡ pair before rest = rw (cut, n, m) at h in cc h'
    | inr ((b, r), e) ↦
        let h' : pair (c ⊳ b) r ≡ pair before rest = rw (cut, n, e) at h in
        let (p, q) = some_pair-inj h' in
        ap (λ t. c ⊳ t) (cut-append s sep b r e)
        ∙ sym (cons-append c b (sep ^ r))
        ∙ ap (λ x. x ^ (sep ^ r)) p
        ∙ ap (λ x. before ^ (sep ^ x)) q
  ]
]

pub path_line-append :
    (opening s path rest : String)
    → path_line opening s ≡ some (path, rest)
    → (path ≢ "") × IsLine path × (s ≡ opening ^ (path ^ ("\n" ^ rest)))
unfolding path_line
path_line-append opening s path rest h =
    let (r, e, h1) = bind-eq-some (strip_prefix s opening) _ h in
    let (after, e1, h2) = bind-eq-some (strip_prefix (span_line r).1 "\n") _ h1 in
    let (p, q, ne) = named ((span_line r).0) after h2 in
    (
      ne,
      subst IsLine p (span_line-IsLine r),
      strip_prefix-append s opening r e
          ∙ ap (λ t. opening ^ t)
              (sym (span_line-append r)
                ∙ ap (λ t. (span_line r).0 ^ t) (strip_prefix-append _ "\n" after e1)
                ∙ ap (λ x. x ^ ("\n" ^ after)) p
                ∙ ap (λ x. path ^ ("\n" ^ x)) q),
    )
  where
    named :
        (line after : String)
        → (if line == "" then none else pair line after) ≡ pair path rest
        → (line ≡ path) × (after ≡ rest) × (path ≢ "")
    named line after k = elim (Bool-cases (line == "")) [
      | inl e ↦ let k' : none ≡ pair path rest = rw e at k in cc k'
      | inr e ↦
          let (p, q) = some_pair-inj (rw e at k) in
          (p, q, λ z. absurd (true≢false (sym ((eq_iff line "").1 (p ∙ z)) ∙ e)))
    ]
