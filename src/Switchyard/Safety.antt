-- ===== src/Switchyard/Safety.antt =====
-- cmd/switchyard/safety.go: execution policies, protected files and checkpoints.
use nexus_ai_gateway.Prelude.{
  String, ◌^◌, Bool, ◌||◌, Option, none, some, List, [], ◌∷◌, ◌==◌, if◌then◌else◌, to_lower,
  trim_space, contains, has_prefix, any,
}
use nexus_ai_gateway.Domain.Errors.{Err, nil, plain, Result, ok, err}
use nexus_ai_gateway.Switchyard.Paths.{clean, base, matches}

pub data ExecutionPolicy : Type 0 where
  explain plan approve safe_auto autopilot : ExecutionPolicy

-- The switch of `ParsePolicy`, on the text in lower case and without space around it.
unfoldable pub policy_named : String → Option ExecutionPolicy
policy_named s =
    if s == "explain" || s == "readonly" || s == "read-only"
    then some explain
    else if s == "plan" || s == "dry-run"
    then some plan
    else if s == "approve" || s == "confirm" || s == "manual"
    then some approve
    else if s == "safe-auto" || s == "safeauto" || s == "safe"
    then some safe_auto
    else if s == "autopilot" || s == "auto" || s == "autonomous"
    then some autopilot
    else none

unfoldable pub parse_policy : String → Result ExecutionPolicy
parse_policy s = elim (policy_named (to_lower (trim_space s))) [
  | some policy ↦ ok policy
  | none ↦ err (
      plain (
        "unknown policy '"
        ^ (s ^ "'. Valid options: explain, plan, approve, safe-auto, autopilot")))
]

abbrev pub protected_file_patterns : List String
protected_file_patterns =
    ".env*" ∷ "*.pem" ∷ "*.key" ∷ "*.cert" ∷ "*.pfx" ∷ "go.sum" ∷ "package-lock.json" ∷ "yarn.lock"
    ∷ "pnpm-lock.yaml" ∷ "composer.lock" ∷ "Gemfile.lock" ∷ "cargo.lock" ∷ []

-- `IsProtectedFile`, without the text of the reason. `ToSlash` changes nothing for this separator.
unfoldable pub is_protected_file : String → Bool
is_protected_file path =
    let name = clean path in
    contains name "/.git/"
    || has_prefix name ".git/"
    || base name == ".git"
    || any (λ pattern. matches pattern (base name)) protected_file_patterns

-- What the two git commands give: the first one's error, and the second one's output.
pub record Git : Type 0 where
  pub inside_work_tree : Err
  pub stash_create : Result String

-- `CreateGitCheckpoint`: the identifier of the checkpoint, none outside of a repository.
unfoldable pub create_git_checkpoint : Git → Result (Option String)
create_git_checkpoint g = elim g.inside_work_tree [
  | nil ↦ elim g.stash_create [
    | err e ↦ err e
    | ok out ↦ ok (some (if trim_space out == "" then "HEAD" else trim_space out))
  ]
  | _ ↦ ok none
]
