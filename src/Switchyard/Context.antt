-- ===== src/Switchyard/Context.antt =====
-- cmd/switchyard/context.go: the mentions of a prompt, and the files and directories that they bring in.
-- The system gives what stands at a path. A directory is the tree that filepath.Walk goes through, in
-- its order, without what cannot be read.
pub mod Distinct
use Prim.Native.Char.{code}
use Prim.Native.String.{[] as ε, ◌∷◌ as ◌⊳◌, count}
use nexus_ai_gateway.Prelude.{
  ℕ, zero, suc, ◌+◌, ◌-◌, String, ◌^◌, Bool, true, false, ◌&&◌, ◌||◌, List, [], ◌∷◌, ◌++◌, ◌==◌,
  eqb, leb, any, if◌then◌else◌, trim_space, decimal,
}
use nexus_ai_gateway.Domain.Errors.{Err, plain, error_text, Result, ok, err}
use nexus_ai_gateway.Switchyard.Paths.{clean}
use nexus_ai_gateway.Switchyard.Completer.{is_ignored_dir}

pub record ContextItem : Type 0 where
  pub path : String
  pub is_dir : Bool
  pub size : ℕ
  pub lines : ℕ
  pub content : String
  pub children : ℕ

mutual
  pub data Node : Type 0 where
    file : String → ℕ → Node
    dir : String → Nodes → Node

  pub data Nodes : Type 0 where
    no_nodes : Nodes
    node : Node → Nodes → Nodes

-- What stands at a path: a file with its size and what reading its lines gives, or a directory.
pub data Found : Type 0 where
  missing : Err → Found
  found_file : ℕ → Result (List String) → Found
  found_dir : Nodes → Found

unfoldable pub is_path_char : ℕ → Bool
is_path_char c =
    (leb b'a' c && leb c b'z')
    || (leb b'A' c && leb c b'Z')
    || (leb b'0' c && leb c b'9')
    || any (eqb c) (b'_' ∷ b'-' ∷ b'.' ∷ b'/' ∷ b'\\' ∷ [])

-- `\s`
unfoldable pub is_blank : ℕ → Bool
is_blank c = any (eqb c) (b' ' ∷ b'\t' ∷ b'\n' ∷ b'\r' ∷ 12 ∷ [])

-- Where the search for `atMentionRegex` is: outside of a mention, at a place where one may start or not,
-- or behind an '@' and what is read of the path.
pub data Place : Type 0 where
  outside : Bool → Place
  inside : String → Place

unfoldable pub ended : Place → List String → List String
ended (outside b) found = found
ended (inside ε) found = found
ended (inside (c ⊳ s)) found = (c ⊳ s) ∷ found

unfoldable pub next_place : Place → ℕ → Place
next_place (outside true) c = if eqb c b'@' then inside "" else outside (is_blank c)
next_place (outside false) c = outside (is_blank c)
next_place (inside path) c = outside (is_blank c)

unfoldable pub mentions_from : Place → String → List String
mentions_from p ε = ended p []
mentions_from (outside b) (c ⊳ s) = mentions_from (next_place (outside b) (code c)) s
mentions_from (inside path) (c ⊳ s) =
    let longer = mentions_from (inside (path ^ (c ⊳ ""))) s in
    let behind = ended (inside path) (mentions_from (next_place (inside path) (code c)) s) in
    if is_path_char (code c) then longer else behind

unfoldable pub mentions : String → List String
mentions input = mentions_from (outside true) input

unfoldable pub blanks : ℕ → String
blanks zero = ""
blanks (suc n) = " " ^ blanks n

-- `%4d`
unfoldable pub right_aligned : ℕ → String → String
right_aligned width s = blanks (width - count s) ^ s

-- `%-35s`
unfoldable pub left_aligned : ℕ → String → String
left_aligned width s = s ^ blanks (width - count s)

unfoldable pub numbered : ℕ → List String → String
numbered n [] = ""
numbered n (l ∷ ls) = right_aligned 4 (decimal n) ^ (" | " ^ (l ^ ("\n" ^ numbered (n + 1) ls)))

unfoldable pub count_lines : List String → ℕ
count_lines [] = 0
count_lines (_ ∷ ls) = suc (count_lines ls)

unfoldable pub read_file_context : String → ℕ → Result (List String) → Result (ContextItem × String)
read_file_context path size (err e) = err e
read_file_context path size (ok ls) =
    let text =
      "=== File: " ^ (path ^ (" (" ^ (decimal size ^ (" bytes) ===\n" ^ numbered 1 ls)))) in
    ok (
      record {
        path = path;
        is_dir = false;
        size = size;
        lines = count_lines ls;
        content = text;
        children = 0;
      },
      text,
    )

-- The count and the text of the walk so far, and whether the rest of the directory is skipped.
pub record Walked : Type 0 where
  pub count : ℕ
  pub text : String
  pub skips : Bool

-- One more item with its line.
unfoldable pub listed : String → Walked → Walked
listed line w =
    let full = leb 60 (w.count + 1) in
    record {
      count = w.count + 1;
      text = w.text ^ (line ^ (if full then "  ... (directory truncated at 60 items)\n" else ""));
      skips = full;
    }

unfoldable pub going_on : Walked → Walked
going_on w = record w { skips = false }

unfoldable mutual
  -- SkipDir from a file skips what follows in its directory, from a directory what is in it.
  pub walk_node : String → Node → Walked → Walked
  walk_node prefix (file name size) w =
      listed
        ("  file  " ^ (left_aligned 35 (prefix ^ name) ^ (" (" ^ (decimal size ^ " bytes)\n")))) w
  walk_node prefix (dir name nodes) w = elim (is_ignored_dir name) [
    | true ↦ w
    | false ↦
        let w' = listed ("  dir/  " ^ (prefix ^ (name ^ "/\n"))) w in
        going_on (elim w'.skips [ true ↦ w' | false ↦ walk_nodes (prefix ^ (name ^ "/")) nodes w' ])
  ]

  pub walk_nodes : String → Nodes → Walked → Walked
  walk_nodes prefix no_nodes w = w
  walk_nodes prefix (node n ns) w =
      let w' = walk_node prefix n w in elim w'.skips [ true ↦ w' | false ↦ walk_nodes prefix ns w' ]

unfoldable pub read_directory_context : String → Nodes → ContextItem × String
read_directory_context path nodes =
    let w = walk_nodes "" nodes (record {
      count = 0;
      text = "=== Directory Overview: " ^ (path ^ "/ ===\n");
      skips = false;
    }) in
    (
      record {
        path = path;
        is_dir = true;
        size = 0;
        lines = 0;
        content = w.text;
        children = w.count;
      },
      w.text,
    )

-- What one mention brings in.
unfoldable pub read_mention : String → String → Found → Result (ContextItem × String)
read_mention raw path (missing e) = err (plain ("@" ^ (raw ^ (" not found: " ^ error_text e))))
read_mention raw path (found_dir nodes) = ok (read_directory_context path nodes)
read_mention raw path (found_file size content) = elim (read_file_context path size content) [
  | ok r ↦ ok r
  | err e ↦ err (plain ("failed reading file @" ^ (raw ^ (": " ^ error_text e))))
]

pub record Gathered : Type 0 where
  pub items : List ContextItem
  pub blocks : List String
  pub errs : List Err

unfoldable pub gathered_with : Result (ContextItem × String) → Gathered → Gathered
gathered_with (ok (item, block)) g = record g { items = item ∷ g.items; blocks = block ∷ g.blocks }
gathered_with (err e) g = record g { errs = e ∷ g.errs }

-- The loop over the mentions: a path that was seen is passed over.
unfoldable pub gather : (String → Found) → List String → List String → Gathered
gather stat seen [] = record { items = []; blocks = []; errs = [] }
gather stat seen (m ∷ ms) =
    let raw = trim_space m in
    let path = clean raw in
    elim (any (λ p. p == path) seen) [
      | true ↦ gather stat seen ms
      | false ↦ gathered_with (read_mention raw path (stat path)) (gather stat (path ∷ seen) ms)
    ]

unfoldable pub with_blocks : String → List String → String
with_blocks text [] = text
with_blocks text (b ∷ bs) = with_blocks (text ^ (b ^ "\n")) bs

unfoldable pub expanded : String → List String → String
expanded input [] = input
expanded input (b ∷ bs) =
    with_blocks (input ^ "\n\n---\n[Referenced Local Code Context]\n") (b ∷ bs)

-- `ExpandPromptContext`
unfoldable pub expand_prompt_context : (String → Found) → String → String × Gathered
expand_prompt_context stat input =
    let g = gather stat [] (mentions input) in (expanded input g.blocks, g)
