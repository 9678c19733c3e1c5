-- ===== src/Switchyard/Parsing.antt =====
-- cmd/switchyard/tools.go: `ParseProposedEdits`. The two regular expressions are written out: a match
-- starts as far left as possible, its path takes all of the line, and each lazy group ends at the first
-- place where the text behind it is found.
pub mod Texts
pub mod Finding
pub mod Earliest
pub mod Blocks
pub mod Found
use Prim.Native.Char.{code}
use Prim.Native.String.{[] as ε, ◌∷◌ as ◌⊳◌, count}
use nexus_ai_gateway.Prelude.{
  ℕ, zero, suc, ◌+◌, String, ◌||◌, Option, none, some, ◌>>=◌, List, [], ◌∷◌, ◌++◌, ◌==◌, eqb,
  if◌then◌else◌, strip_prefix, cut, trim_space,
}
use nexus_ai_gateway.Switchyard.Edits.{ProposedEdit}

-- `[^\n\r]+`, which may be empty here, and the rest.
unfoldable pub span_line : String → String × String
span_line ε = (ε, ε)
span_line (c ⊳ s) =
    let (line, rest) = span_line s in
    if eqb (code c) b'\n' || eqb (code c) b'\r' then (ε, c ⊳ s) else (c ⊳ line, rest)

-- The opening of a block, and the path behind it, which is not empty and ends its line.
unfoldable pub path_line : String → String → Option (String × String)
path_line opening s = do
  r ← strip_prefix s opening
  let (path, after) = span_line r
  rest ← strip_prefix after "\n"
  if path == "" then none else some (path, rest)

-- `editBlockRegex` at the start of a text: the edit, and the text behind the block.
unfoldable pub match_edit : String → Option (ProposedEdit × String)
match_edit s = do
  (path, r) ← path_line "```edit:" s
  body ← strip_prefix r "<<<<<<< SEARCH\n"
  (old, after) ← cut body "\n=======\n"
  (new, rest) ← cut after "\n>>>>>>> REPLACE\n```"
  some (
    record { file_path = trim_space path; old_text = old; new_text = new; action = "edit" },
    rest,
  )

-- `writeBlockRegex` at the start of a text.
unfoldable pub match_write : String → Option (ProposedEdit × String)
match_write s = do
  (path, r) ← path_line "```write:" s
  (content, rest) ← cut r "```"
  some (
    record { file_path = trim_space path; old_text = ""; new_text = content; action = "write" },
    rest,
  )

module _ {A : Type 0} (match_at : String → Option (A × String)) where
  -- `FindAllStringSubmatch`; `none` means that the fuel ran out.
  unfoldable pub find_all : ℕ → String → Option (List A)
  find_all zero s = none
  find_all (suc n) s = elim (match_at s) [
    | some (a, rest) ↦ elim (find_all n rest) [ none ↦ none | some found ↦ some (a ∷ found) ]
    | none ↦ elim s [ ε ↦ some [] | _ ⊳ t ↦ find_all n t ]
  ]

unfoldable pub parse_proposed_edits : String → Option (List ProposedEdit)
parse_proposed_edits response = do
  edits ← find_all match_edit (count response + 1) response
  writes ← find_all match_write (count response + 1) response
  some (edits ++ writes)
