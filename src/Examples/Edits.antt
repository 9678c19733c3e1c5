-- ===== src/Examples/Edits.antt =====
-- A model proposes to overwrite secrets and a source file.
use nexus_ai_gateway.Prelude.{
  String, ◌≡◌, refl, true, false, none, List, [], ◌∷◌, to_lower, trim_space, lookup, contains,
  has_prefix, strip_prefix,
}
use nexus_ai_gateway.Domain.Errors.{nil, ok}
use nexus_ai_gateway.Switchyard.Paths.{
  clean, base, matches, split_path, push_part, push_parts, join_stack, last_part, skips, starts,
}
use nexus_ai_gateway.Switchyard.Safety.{approve, is_protected_file, Git}
use nexus_ai_gateway.Switchyard.Edits.{ProposedEdit, Files, Disk, is_yes, apply_edits_with_policy}
use nexus_ai_gateway.Switchyard.Edits.Laws.{Forbids, apply_edits_with_policy-keeps}

pub secrets-protected : is_protected_file ".env.local" ≡ true
unfolding is_protected_file clean base matches split_path push_part push_parts join_stack last_part
    skips starts has_prefix strip_prefix contains
secrets-protected = refl

-- The name that Cargo gives its lock file has a capital, and the pattern has none.
lock_file-open : is_protected_file "Cargo.lock" ≡ false
unfolding is_protected_file clean base matches split_path push_part push_parts join_stack last_part
    skips starts has_prefix strip_prefix contains
lock_file-open = refl

abbrev pub disk : Disk
disk = record {
  make_parents = λ path. none;
  read_error = λ path. none;
  write_error = λ path. none;
  torn = λ path. none;
}

abbrev pub git : Git
git = record { inside_work_tree = nil; stash_create = ok "c0ffee" }

abbrev edit : String → ProposedEdit
edit path = record { file_path = path; old_text = ""; new_text = "x"; action = "write" }

abbrev files : Files
files = (".env.local", "KEY=1") ∷ []

abbrev answers : List String
answers = "n\n" ∷ []

declining : Forbids approve answers
unfolding is_yes to_lower trim_space
declining = refl

apply_edits_with_policy-keeps_example :
    lookup ".env.local"
      (apply_edits_with_policy disk git approve
        (edit ".env.local" ∷ edit "main.go" ∷ [])
        files
        answers).files
    ≡ lookup ".env.local" files
apply_edits_with_policy-keeps_example =
    apply_edits_with_policy-keeps disk git ".env.local" secrets-protected approve
      (edit ".env.local" ∷ edit "main.go" ∷ []) files answers declining
