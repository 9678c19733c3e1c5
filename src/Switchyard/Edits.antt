-- ===== src/Switchyard/Edits.antt =====
-- cmd/switchyard/tools.go: `ApplyEditsWithPolicy`. What it prints is left out.
pub mod Laws
use Prim.Native.String.{[] as ε, ◌∷◌ as ◌⊳◌}
use nexus_ai_gateway.Prelude.{
  ℕ, ◌+◌, String, ◌^◌, Bool, true, false, not, ◌&&◌, ◌||◌, Option, none, some, List, [], ◌∷◌, ◌++◌,
  length, ◌==◌, if◌then◌else◌, lookup, insert, contains, strip_prefix, to_lower, trim_space,
}
use nexus_ai_gateway.Domain.Errors.{Err, plain, error_text, Result, ok, err}
use nexus_ai_gateway.Switchyard.Paths.{clean}
use nexus_ai_gateway.Switchyard.Safety.{
  ExecutionPolicy, explain, plan, approve, safe_auto, autopilot, is_protected_file, Git,
  create_git_checkpoint,
}

pub record ProposedEdit : Type 0 where
  pub file_path : String
  pub old_text : String
  pub new_text : String
  pub action : String

abbrev pub Files : Type 0
Files = List (String × String)

-- The errors of the disk, by path, `none` where the call succeeds, and what a write that fails leaves in
-- the file.
pub record Disk : Type 0 where
  pub make_parents : String → Option Err
  pub read_error : String → Option Err
  pub write_error : String → Option Err
  pub torn : String → Option String

-- The files, the counters of the function, and the lines that the user has still to type.
pub record World : Type 0 where
  pub files : Files
  pub applied : ℕ
  pub blocked : ℕ
  pub errs : List Err
  pub answers : List String
  pub checkpoint_created : Bool

-- strings.Replace(s, old, new, 1)
unfoldable pub replace_first : String → String → String → String
replace_first ε old new = elim (strip_prefix ε old) [ some rest ↦ new ^ rest | none ↦ ε ]
replace_first (c ⊳ s) old new = elim (strip_prefix (c ⊳ s) old) [
  | some rest ↦ new ^ rest
  | none ↦ c ⊳ replace_first s old new
]

unfoldable pub failed : World → String → Err → World
failed w message e = record w { errs = w.errs ++ (plain (message ^ (": " ^ error_text e)) ∷ []) }

-- os.WriteFile, and the counting of a write that succeeds.
unfoldable pub written : Disk → String → String → String → World → World
written disk message path content w = elim (disk.write_error path) [
  | none ↦ record w { files = insert path content w.files; applied = w.applied + 1 }
  | some e ↦ elim (disk.torn path) [
    | none ↦ failed w (message ^ path) e
    | some rest ↦ failed (record w { files = insert path rest w.files }) (message ^ path) e
  ]
]

unfoldable pub write_edit : Disk → String → String → World → World
write_edit disk path text w = elim (disk.make_parents path) [
  | none ↦ written disk "failed writing " path text w
  | some e ↦ failed w ("failed creating parent dirs for " ^ path) e
]

-- os.ReadFile
unfoldable pub read_file : Disk → String → Files → Result String
read_file disk path files = elim (disk.read_error path) [
  | none ↦ elim (lookup path files) [
    | none ↦ err (plain ("open " ^ (path ^ ": no such file or directory")))
    | some content ↦ ok content
  ]
  | some e ↦ err e
]

unfoldable pub patch_edit : Disk → String → String → String → World → World
patch_edit disk path old new w = elim (read_file disk path w.files) [
  | err e ↦ failed w ("failed reading target file " ^ path) e
  | ok content ↦
      if not (contains content old)
      then record w {
        errs =
            w.errs
            ++ (plain ("target chunk not found in " ^ (path ^ "; file may have changed")) ∷ []);
      }
      else written disk "failed applying patch to " path (replace_first content old new) w
]

-- `reader.ReadString('\n')` with its error dropped: at the end of the input the empty text.
unfoldable pub next_answer : List String → String × List String
next_answer [] = ("", [])
next_answer (a ∷ answers) = (to_lower (trim_space a), answers)

unfoldable pub is_yes : String → Bool
is_yes choice = choice == "y" || choice == "yes"

unfoldable pub agrees : Bool → String → Bool
agrees true choice = is_yes choice
agrees false choice = choice == "" || is_yes choice

-- The second switch: whether the edit is applied, and the lines left.
unfoldable pub should_apply : ExecutionPolicy → Bool → List String → Bool × List String
should_apply safe_auto protected answers = (true, answers)
should_apply autopilot protected answers = (true, answers)
should_apply approve protected answers =
    let (choice, rest) = next_answer answers in (agrees protected choice, rest)
should_apply _ protected answers = (false, answers)

-- The checkpoint before the first modification.
unfoldable pub with_checkpoint : Git → World → World
with_checkpoint git w = if w.checkpoint_created then w else elim (create_git_checkpoint git) [
  | ok (some id) ↦ record w { checkpoint_created = true }
  | ok none ↦ w
  | err _ ↦ w
]

unfoldable pub modify : Disk → ProposedEdit → World → World
modify disk edit w =
    if edit.action == "write"
    then write_edit disk (clean edit.file_path) edit.new_text w
    else patch_edit disk (clean edit.file_path) edit.old_text edit.new_text w

unfoldable pub apply_unblocked : Disk → Git → ExecutionPolicy → ProposedEdit → World → World
apply_unblocked disk git policy edit w =
    let (agreed, answers) =
      should_apply policy (is_protected_file (clean edit.file_path)) w.answers in
    if agreed
    then modify disk edit (with_checkpoint git (record w { answers = answers }))
    else record w { answers = answers }

unfoldable pub is_safe_auto : ExecutionPolicy → Bool
is_safe_auto safe_auto = true
is_safe_auto _ = false

-- One round of the loop.
unfoldable pub apply_edit : Disk → Git → ExecutionPolicy → ProposedEdit → World → World
apply_edit disk git policy edit w =
    if is_protected_file (clean edit.file_path) && is_safe_auto policy
    then record w { blocked = w.blocked + 1 }
    else apply_unblocked disk git policy edit w

unfoldable pub apply_each : Disk → Git → ExecutionPolicy → List ProposedEdit → World → World
apply_each disk git policy [] w = w
apply_each disk git policy (edit ∷ edits) w =
    apply_each disk git policy edits (apply_edit disk git policy edit w)

unfoldable pub started : Files → List String → World
started files answers = record {
  files = files;
  applied = 0;
  blocked = 0;
  errs = [];
  answers = answers;
  checkpoint_created = false;
}

-- `ApplyEditsWithPolicy`, from the files and the lines that the user types.
unfoldable pub apply_edits_with_policy :
    Disk → Git → ExecutionPolicy → List ProposedEdit → Files → List String → World
apply_edits_with_policy disk git explain edits files answers = record (started files answers) {
  blocked = length edits;
}
apply_edits_with_policy disk git plan edits files answers = record (started files answers) {
  blocked = length edits;
}
apply_edits_with_policy disk git policy edits files answers =
    apply_each disk git policy edits (started files answers)
