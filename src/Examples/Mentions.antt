-- ===== src/Examples/Mentions.antt =====
-- Prompts that mention files and directories.
use nexus_ai_gateway.Prelude.{
  ℕ, zero, suc, ◌≡◌, refl, [], ◌∷◌, trim_space, strip_prefix, has_prefix, decimal,
}
use nexus_ai_gateway.Domain.Errors.{ok}
use nexus_ai_gateway.Switchyard.Context.{
  Nodes, no_nodes, node, file, dir, found_file, is_path_char, is_blank, ended, next_place,
  mentions_from, mentions, blanks, right_aligned, left_aligned, numbered, count_lines,
  read_file_context, listed, going_on, walk_node, walk_nodes, read_directory_context, read_mention,
  gathered_with, gather, with_blocks, expanded, expand_prompt_context,
}
use nexus_ai_gateway.Switchyard.Paths.{clean, push_parts, push_part, split_path, join_stack}
use nexus_ai_gateway.Switchyard.Completer.{is_ignored_dir}

-- Two spellings of one path bring the file in once.
expanded_once :
    (expand_prompt_context (λ path. found_file 3 (ok ("go" ∷ []))) "fix @./a.go and @a.go").0
    ≡ "fix @./a.go and @a.go\n\n---\n[Referenced Local Code Context]\n=== File: a.go (3 bytes) ===\n   1 | go\n\n"
unfolding expand_prompt_context mentions mentions_from ended next_place is_path_char is_blank gather
    gathered_with read_mention read_file_context numbered right_aligned blanks count_lines expanded
    with_blocks clean push_parts push_part split_path join_stack trim_space decimal has_prefix
    strip_prefix
expanded_once = refl

-- A walk goes on behind a full directory: the second directory is the 61st item.
abbrev files : ℕ → Nodes
files zero = no_nodes
files (suc n) = node (file "f" 0) (files n)

walked_on :
    (read_directory_context "."
      (node (dir "a" (files 70)) (node (dir "b" (files 5)) no_nodes))).0.children
    ≡ 61
unfolding read_directory_context walk_node walk_nodes listed going_on is_ignored_dir left_aligned
    blanks decimal
walked_on = refl
