-- ===== src/Switchyard/Completer.antt =====
-- cmd/switchyard/completer.go. A line is a text and a position counts its characters; the entries of a
-- directory are what os.ReadDir gives, `none` where it fails. Names whose lower case takes another
-- number of bytes are not represented.
pub mod Laws
use Prim.Native.Char.{code}
use Prim.Native.String.{[] as ε, ◌∷◌ as ◌⊳◌, count}
use nexus_ai_gateway.Prelude.{
  ℕ, zero, suc, String, ◌^◌, Bool, true, false, not, ◌&&◌, ◌||◌, Option, none, some, List, [], ◌∷◌,
  ◌==◌, eqb, leb, any, if◌then◌else◌, has_prefix, strip_prefix, first_chars, to_lower, is_space,
}
use nexus_ai_gateway.Prelude.Int.{ℤ, pos, negsuc}

abbrev pub commands : List String
commands =
    "/help" ∷ "/policy" ∷ "/preset" ∷ "/model" ∷ "/rollback" ∷ "/stats" ∷ "/budget" ∷ "/caveman"
    ∷ "/models" ∷ "/usage" ∷ "/whoami" ∷ "/clear" ∷ "/exit" ∷ "/quit" ∷ []

abbrev pub policies : List String
policies = "explain" ∷ "plan" ∷ "approve" ∷ "safe-auto" ∷ "autopilot" ∷ []

abbrev pub presets : List String
presets = "auto" ∷ "explore" ∷ "build" ∷ "reason" ∷ "review" ∷ []

abbrev pub models : List String
models =
    "auto" ∷ "explore" ∷ "build" ∷ "reason" ∷ "review" ∷ "gemini-3.7-flash" ∷ "gemini-3.6-flash"
    ∷ "gemini-2.5-pro" ∷ "gpt-4o" ∷ "gpt-4o-mini" ∷ "claude-3-5-sonnet-20241022"
    ∷ "claude-3-haiku-20240307" ∷ []

-- The candidates, and the length of what they complete.
abbrev pub Completion : Type 0
Completion = List String × ℕ

-- The loops over names: what is missing of each name that starts with the prefix.
unfoldable pub suffixes : List String → String → List String
suffixes [] prefix = []
suffixes (name ∷ names) prefix = elim (strip_prefix name prefix) [
  | some suffix ↦ suffix ∷ suffixes names prefix
  | none ↦ suffixes names prefix
]

unfoldable pub complete_from : List String → String → Completion
complete_from names prefix = (suffixes names prefix, count prefix)

-- strings.TrimLeft(s, " \t")
unfoldable pub trim_blanks : String → String
trim_blanks ε = ε
trim_blanks (c ⊳ s) = if eqb (code c) b' ' || eqb (code c) b'\t' then trim_blanks s else c ⊳ s

-- strings.Split(s, " ")
unfoldable pub split_blanks : String → List String
split_blanks ε = ε ∷ []
split_blanks (c ⊳ s) = elim (eqb (code c) b' ') [
  | true ↦ ε ∷ split_blanks s
  | false ↦ elim (split_blanks s) [ [] ↦ (c ⊳ ε) ∷ [] | part ∷ parts ↦ (c ⊳ part) ∷ parts ]
]

unfoldable pub last_of : String → List String → String
last_of part [] = part
last_of part (next ∷ parts) = last_of next parts

-- The arguments of a command, `none` for a command without any.
unfoldable pub options_of : String → Option (List String)
options_of command =
    if command == "/policy" || command == "/pol"
    then some policies
    else if command == "/preset"
    then some presets
    else if command == "/model"
    then some models
    else if command == "/caveman"
    then some ("on" ∷ "off" ∷ [])
    else none

unfoldable pub complete_parts : List String → Option Completion
complete_parts [] = none
complete_parts (prefix ∷ []) = some (complete_from commands prefix)
complete_parts (command ∷ part ∷ parts) = elim (options_of command) [
  | none ↦ none
  | some names ↦ some (complete_from names (last_of part parts))
]

-- The first case of `Do`.
unfoldable pub complete_command : String → Option Completion
complete_command line =
    let lead = trim_blanks line in
    if has_prefix lead "/" then complete_parts (split_blanks lead) else none

unfoldable pub reversed : String → String → String
reversed ε acc = acc
reversed (c ⊳ s) acc = reversed s (c ⊳ acc)

unfoldable pub is_boundary : String → Bool
is_boundary ε = true
is_boundary (c ⊳ _) = is_space (code c)

-- The loop back from the position: the text behind the last '@' that starts a word.
unfoldable pub mention : String → String → Option String
mention ε typed = none
mention (c ⊳ before) typed =
    let further = mention before (c ⊳ typed) in
    if eqb (code c) b'@'
    then (if is_boundary before then some typed else further)
    else if is_space (code c)
    then none
    else further

pub record Entry : Type 0 where
  pub name : String
  pub is_dir : Bool

abbrev pub ignored_dirs : List String
ignored_dirs =
    ".git" ∷ ".gemini" ∷ ".nexus" ∷ ".switchyard" ∷ "node_modules" ∷ "bin" ∷ "tmp" ∷ "vendor"
    ∷ ".idea" ∷ ".vscode" ∷ []

unfoldable pub is_ignored_dir : String → Bool
is_ignored_dir name = any (λ dir. dir == name) ignored_dirs

-- strings.ReplaceAll(s, "\\", "/")
unfoldable pub with_slashes : String → String
with_slashes ε = ε
with_slashes (c ⊳ s) =
    let rest = with_slashes s in if eqb (code c) b'\\' then "/" ^ rest else c ⊳ rest

-- The directory part and the last part of a path: no '/' gives none.
unfoldable pub split_last : String → Option (String × String)
split_last ε = none
split_last (c ⊳ s) = elim (split_last s) [
  | some (dir, base) ↦ some (c ⊳ dir, base)
  | none ↦ elim (eqb (code c) b'/') [ true ↦ some (ε, s) | false ↦ none ]
]

unfoldable pub search_of : String → String × String
search_of normalized = elim (split_last normalized) [
  | none ↦ (".", normalized)
  | some (dir, base) ↦ (if dir == "" then "/" else dir, base)
]

unfoldable pub rest_after : ℕ → String → String
rest_after n ε = ε
rest_after zero s = s
rest_after (suc n) (c ⊳ s) = rest_after n s

unfoldable pub is_shown : String → Entry → Bool
is_shown prefix e =
    not (has_prefix e.name "." && not (has_prefix prefix "."))
    && not (e.is_dir && is_ignored_dir e.name)
    && has_prefix (to_lower e.name) (to_lower prefix)

unfoldable pub shown_name : Entry → String
shown_name e = if e.is_dir then e.name ^ "/" else e.name

-- The loop over the entries.
unfoldable pub complete_entries : String → List Entry → List String
complete_entries prefix [] = []
complete_entries prefix (e ∷ es) =
    let rest = complete_entries prefix es in
    if is_shown prefix e then rest_after (count prefix) (shown_name e) ∷ rest else rest

unfoldable pub complete_file_path : (String → Option (List Entry)) → String → Completion
complete_file_path read_dir partial =
    let (dir, prefix) = search_of (with_slashes partial) in
    elim (read_dir dir) [
      | none ↦ ([], 0)
      | some entries ↦ (complete_entries prefix entries, count prefix)
    ]

unfoldable pub complete_mention : (String → Option (List Entry)) → String → Completion
complete_mention read_dir line = elim (mention (reversed line "") "") [
  | none ↦ ([], 0)
  | some typed ↦ complete_file_path read_dir typed
]

unfoldable pub complete_line : (String → Option (List Entry)) → String → Completion
complete_line read_dir line = elim (complete_command line) [
  | some c ↦ c
  | none ↦ complete_mention read_dir line
]

-- `Do`
unfoldable pub complete : (String → Option (List Entry)) → String → ℤ → Completion
complete read_dir line (negsuc n) = ([], 0)
complete read_dir line (pos n) =
    if leb n (count line) then complete_line read_dir (first_chars n line) else ([], 0)
