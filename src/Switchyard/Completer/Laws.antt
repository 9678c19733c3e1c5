-- ===== src/Switchyard/Completer/Laws.antt =====
-- What is offered for a command.
use Prim.Native.String.{[] as ε, ◌∷◌ as ◌⊳◌, count}
use text.Mathlib.TextLemmas.{nil-append, cons-append, append_cancel_left}
use nexus_ai_gateway.Prelude.{
  ℕ, String, ◌^◌, ◌≡◌, refl, sym, ap, ◌∙◌, subst, ◌≢◌, ◌≤◌, ◌↔◌, true, Option, none, some, List, [],
  ◌∷◌, In, here, there, In-cons, arith, Option-cases, inl, inr, strip_prefix, has_prefix,
  first_chars, le→leb,
}
use nexus_ai_gateway.Prelude.Int.{pos}
use nexus_ai_gateway.Switchyard.Parsing.Texts.{strip_prefix-append}
use nexus_ai_gateway.Switchyard.Completer.{
  commands, suffixes, complete_from, trim_blanks, split_blanks, last_of, options_of, complete_parts,
  Completion, complete_command, Entry, complete_line, complete,
}

stripped : (p s : String) → strip_prefix (p ^ s) p ≡ some s
unfolding strip_prefix
stripped ε s = rw (nil-append s) refl
stripped (c ⊳ p) s = rw (cons-append c p s) (ground (arith, stripped p s))

none≢some : {s : String} → none ≢ some s
none≢some h = cc

-- The candidates for a prefix are exactly the texts that make it one of the names.
suffixes-In_iff :
    (names : List String) (prefix c : String) → In c (suffixes names prefix) ↔ In (prefix ^ c) names
unfolding suffixes
suffixes-In_iff [] prefix c = (λ m. elim m [ ], λ m. elim m [ ])
suffixes-In_iff (name ∷ names) prefix c = elim (Option-cases (strip_prefix name prefix)) [
  | inl n ↦
      rw (suffixes, n)
        (
          λ m. there ((suffixes-In_iff names prefix c).0 m),
          λ m. elim (In-cons m) [
            | inl e ↦
                absurd
                  (none≢some (sym n ∙ ap (λ x. strip_prefix x prefix) (sym e) ∙ stripped prefix c))
            | inr k ↦ (suffixes-In_iff names prefix c).1 k
          ],
        )
  | inr (s, e) ↦
      rw (suffixes, e)
        (
          λ m. elim (In-cons m) [
            | inl same ↦
                subst (λ x. In x (name ∷ names))
                  (strip_prefix-append name prefix s e ∙ ap (λ t. prefix ^ t) (sym same)) here
            | inr k ↦ there ((suffixes-In_iff names prefix c).0 k)
          ],
          λ m. elim (In-cons m) [
            | inl same ↦
                subst (λ x. In x (s ∷ suffixes names prefix))
                  (append_cancel_left prefix s c
                    (sym (strip_prefix-append name prefix s e) ∙ sym same))
                  here
            | inr k ↦ there ((suffixes-In_iff names prefix c).1 k)
          ],
        )
]

-- The names that the words of a line ask for, and the word that is completed to one of them.
abbrev pub offered : List String → Option (List String × String)
offered [] = none
offered (word ∷ []) = some (commands, word)
offered (command ∷ word ∷ more) = elim (options_of command) [
  | none ↦ none
  | some names ↦ some (names, last_of word more)
]

abbrev offered_as : Option (List String × String) → Option Completion
offered_as none = none
offered_as (some (names, word)) = some (complete_from names word)

complete_parts-offered : (parts : List String) → complete_parts parts ≡ offered_as (offered parts)
unfolding complete_parts
complete_parts-offered [] = refl
complete_parts-offered (word ∷ []) = refl
complete_parts-offered (command ∷ word ∷ more) = elim (Option-cases (options_of command)) [
  | inl n ↦ rw (complete_parts, offered, offered_as, n) refl
  | inr (found, e) ↦ rw (complete_parts, offered, offered_as, e) refl
]

module _ (read_dir : String → Option (List Entry)) (line : String) (n : ℕ) where
  -- The words up to the position, without leading blanks.
  abbrev pub words : List String
  words = split_blanks (trim_blanks (first_chars n line))

  completed :
      (c : Completion)
      → n ≤ count line
      → has_prefix (trim_blanks (first_chars n line)) "/" ≡ true
      → complete_parts words ≡ some c
      → complete read_dir line (pos n) ≡ c
  unfolding complete complete_line complete_command
  completed c le slash e =
      rw (complete, le→leb n (count line) le) (rw (complete_line, complete_command, slash, e) refl)

  -- At a position within a line that starts with a slash, what is offered is exactly what completes the
  -- word there: a single word to one of the commands, and the last word behind a command that has
  -- options to one of them.
  pub complete-In_iff :
      (names : List String) (word c : String)
      → n ≤ count line
      → has_prefix (trim_blanks (first_chars n line)) "/" ≡ true
      → offered words ≡ some (names, word)
      → In c (complete read_dir line (pos n)).0 ↔ In (word ^ c) names
  unfolding complete_from
  complete-In_iff names word c le slash e =
      rw
        (completed (complete_from names word) le slash
          (complete_parts-offered words ∙ ap offered_as e))
        (suffixes-In_iff names word c)
