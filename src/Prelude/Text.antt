-- ===== src/Prelude/Text.antt =====
-- What the program uses of Go's `strings` and `fmt`, over native text: a list of code points.
-- Texts that are no valid UTF-8 are not represented; `len` counts bytes of UTF-8, as in Go.
use Prim.Native.Nat.{ℕ, zero, suc, ◌+◌, ◌/◌, ◌%◌}
use Prim.Native.Char.{Char, code}
use Prim.Native.String.{String, [], ◌∷◌, ◌++◌}
use mathlib.Core.Bool.{Bool, true, false, ◌||◌, ◌&&◌}
use mathlib.Core.Option.{Option, none, some}
use mathlib.Core.Path.{◌≡◌}
use mathlib.Core.Logic.{◌≢◌, inl, inr}
use text.Mathlib.Text.{◌==◌}
use text.Mathlib.TextEquality.{eq_iff}
use nexus_ai_gateway.Prelude.Tests.{leb, ltb, eqb, if◌then◌else◌, is_some, Bool-cases}

-- The upper-case letters of ASCII and Latin-1, and their lower-case forms in the same order.
abbrev upper_letters : String
upper_letters = "ABCDEFGHIJKLMNOPQRSTUVWXYZÀÁÂÃÄÅÆÇÈÉÊËÌÍÎÏÐÑÒÓÔÕÖØÙÚÛÜÝÞ"

abbrev lower_letters : String
lower_letters = "abcdefghijklmnopqrstuvwxyzàáâãäåæçèéêëìíîïðñòóôõöøùúûüýþ"

translate : String → String → Char → Char
translate (f ∷ from) (t ∷ to) c = if eqb (code f) (code c) then t else translate from to c
translate _ _ c = c

-- strings.ToLower, for letters up to U+00FF; a letter above is left as it is.
unfoldable pub to_lower : String → String
unfolding translate
to_lower [] = []
to_lower (c ∷ s) = translate upper_letters lower_letters c ∷ to_lower s

-- unicode.IsSpace
unfoldable pub is_space : ℕ → Bool
is_space c =
    eqb c 32
    || (leb 9 c && leb c 13)
    || eqb c 0x85
    || eqb c 0xa0
    || eqb c 0x1680
    || (leb 0x2000 c && leb c 0x200a)
    || eqb c 0x2028
    || eqb c 0x2029
    || eqb c 0x202f
    || eqb c 0x205f
    || eqb c 0x3000

trim_left : (ℕ → Bool) → String → String
trim_left p [] = []
trim_left p (c ∷ s) = if p (code c) then trim_left p s else c ∷ s

-- A tail to be cut is dropped: such a character is kept only before a text that is not cut.
trim_right : (ℕ → Bool) → String → String
trim_right p [] = []
trim_right p (c ∷ s) =
    let rest = trim_right p s in if p (code c) && rest == "" then "" else c ∷ rest

-- strings.Trim, with the cut set as a test.
unfoldable pub trim_where : (ℕ → Bool) → String → String
unfolding trim_left trim_right
trim_where p s = trim_right p (trim_left p s)

-- strings.TrimSpace
unfoldable pub trim_space : String → String
unfolding trim_where is_space
trim_space s = trim_where is_space s

-- strings.TrimRight with one character of ASCII as the cut set.
unfoldable pub trim_end : ℕ → String → String
trim_end d [] = []
trim_end d (c ∷ s) =
    let rest = trim_end d s in if eqb (code c) d && rest == "" then "" else c ∷ rest

-- The rest behind a prefix: strings.HasPrefix, strings.TrimPrefix and s[len(prefix):].
unfoldable pub strip_prefix : String → String → Option String
strip_prefix s [] = some s
strip_prefix [] (_ ∷ _) = none
strip_prefix (c ∷ s) (d ∷ p) = if eqb (code c) (code d) then strip_prefix s p else none

unfoldable pub has_prefix : String → String → Bool
unfolding strip_prefix
has_prefix s p = is_some (strip_prefix s p)

-- strings.Contains
unfoldable pub contains : String → String → Bool
unfolding has_prefix
contains [] p = p == ""
contains (c ∷ s) p = has_prefix (c ∷ s) p || contains s p

-- strings.HasSuffix
unfoldable pub has_suffix : String → String → Bool
has_suffix [] p = p == ""
has_suffix (c ∷ s) p = (c ∷ s) == p || has_suffix s p

-- The first `n` characters, and all of a shorter text.
unfoldable pub first_chars : ℕ → String → String
first_chars zero s = []
first_chars (suc n) [] = []
first_chars (suc n) (c ∷ s) = c ∷ first_chars n s

-- The text before the first occurrence of a character, given by its code.
unfoldable pub before_char : ℕ → String → Option String
before_char d [] = none
before_char d (c ∷ s) = elim (eqb (code c) d) [
  | true ↦ some ""
  | false ↦ elim (before_char d s) [ none ↦ none | some t ↦ some (c ∷ t) ]
]

-- The texts before and behind the first occurrence of a text: strings.SplitN(s, sep, 2).
unfoldable pub cut : String → String → Option (String × String)
cut [] sep = elim (strip_prefix [] sep) [ some rest ↦ some ([], rest) | none ↦ none ]
cut (c ∷ s) sep = elim (strip_prefix (c ∷ s) sep) [
  | some rest ↦ some ([], rest)
  | none ↦ elim (cut s sep) [ none ↦ none | some (before, rest) ↦ some (c ∷ before, rest) ]
]

digit : String → ℕ → String
digit [] n = []
digit (c ∷ s) zero = c ∷ []
digit (c ∷ s) (suc n) = digit s n

decimal_from : ℕ → ℕ → String
unfolding digit
decimal_from zero n = []
decimal_from (suc fuel) n = elim (ltb n 10) [
  | true ↦ digit "0123456789" n
  | false ↦ decimal_from fuel (n / 10) ++ digit "0123456789" (n % 10)
]

-- `%d` of a number that is not negative; its value bounds the count of its digits.
unfoldable pub decimal : ℕ → String
unfolding decimal_from
decimal n = decimal_from (n + 1) n

-- Texts that differ test as different.
pub eq_false : (a b : String) → a ≢ b → (a == b) ≡ false
eq_false a b h = elim (Bool-cases (a == b)) [ inl e ↦ absurd (h ((eq_iff a b).0 e)) | inr e ↦ e ]

text_tests : Bool
unfolding to_lower trim_space contains has_suffix decimal first_chars
text_tests =
    to_lower "SyStem-Ç" == "system-ç"
    && trim_space "  a b \n" == "a b"
    && contains "the big-o note" "big-o"
    && has_suffix "say hi" " hi"
    && decimal 1024 == "1024"
    && first_chars 3 "abcd" == "abc"
