-- ===== src/Switchyard/RepoConfig.antt =====
-- cmd/switchyard/config.go: the settings of a repository. A directory is the list of its parts, the last
-- one first, and the root is the empty list. `read` is what reading and decoding the file .switchyard.json
-- of a directory gives, and `has_git` says whether the directory has an entry .git.
use nexus_ai_gateway.Prelude.{
  ℕ, String, Bool, true, false, Option, none, some, List, [], ◌∷◌, ◌≡◌, refl, sym, ◌∙◌, ◌↔◌,
  Bool-cases, Option-cases, inl, inr, if◌then◌else◌,
}
use nexus_ai_gateway.Domain.Errors.{Result, ok, err}

-- The budget is the bit pattern of a float.
pub record LocalRepoConfig : Type 0 where
  pub preset : String
  pub policy : String
  pub budget : ℕ
  pub caveman : Option Bool

module _ (read : List String → Option LocalRepoConfig) (has_git : List String → Bool) where
  -- The loop of `loadLocalRepoConfig`.
  unfoldable pub search_from : List String → Option LocalRepoConfig
  search_from [] = read []
  search_from (part ∷ parent) =
      let above = search_from parent in
      elim (read (part ∷ parent)) [
        | some cfg ↦ some cfg
        | none ↦ if has_git (part ∷ parent) then none else above
      ]

  unfoldable pub load_local_repo_config : Result (List String) → Option LocalRepoConfig
  load_local_repo_config (ok cwd) = search_from cwd
  load_local_repo_config (err e) = none

  -- The search passes from a directory up to another one: none of those it leaves has settings or is
  -- the top of a repository.
  data Climbs : List String → List String → Type 0 where
    stay : {cwd : List String} → Climbs cwd cwd
    up :
        {part : String} {parent at : List String}
        → read (part ∷ parent) ≡ none
        → has_git (part ∷ parent) ≡ false
        → Climbs parent at
        → Climbs (part ∷ parent) at

  here-found :
      (cwd : List String) (cfg : LocalRepoConfig) → read cwd ≡ some cfg → search_from cwd ≡ some cfg
  unfolding search_from
  here-found [] cfg e = e
  here-found (part ∷ parent) cfg e = rw (search_from, e) refl

  module _ (part : String) (parent : List String) (r : read (part ∷ parent) ≡ none) where
    search_from-top : has_git (part ∷ parent) ≡ true → search_from (part ∷ parent) ≡ none
    unfolding search_from
    search_from-top g = rw (search_from, r, g) refl

    search_from-up :
        has_git (part ∷ parent) ≡ false → search_from (part ∷ parent) ≡ search_from parent
    unfolding search_from
    search_from-up g = rw (search_from, r, g) refl

  found-Climbs :
      (cwd : List String) (cfg : LocalRepoConfig)
      → search_from cwd ≡ some cfg
      → (at : List String) × Climbs cwd at × (read at ≡ some cfg)
  unfolding search_from
  found-Climbs [] cfg e = ([], stay, e)
  found-Climbs (part ∷ parent) cfg e = elim (Option-cases (read (part ∷ parent))) [
    | inr (c, r) ↦ (part ∷ parent, stay, r ∙ (sym (here-found (part ∷ parent) c r) ∙ e))
    | inl r ↦ elim (Bool-cases (has_git (part ∷ parent))) [
      | inl g ↦ let e' : none ≡ some cfg = sym (search_from-top part parent r g) ∙ e in cc
      | inr g ↦
          let (at, climbs, found) =
            found-Climbs parent cfg (sym (search_from-up part parent r g) ∙ e) in
          (at, up r g climbs, found)
    ]
  ]

  Climbs-found :
      (cwd at : List String) (cfg : LocalRepoConfig)
      → Climbs cwd at
      → read at ≡ some cfg
      → search_from cwd ≡ some cfg
  unfolding search_from
  Climbs-found cwd at cfg stay e = here-found cwd cfg e
  Climbs-found (part ∷ parent) at cfg (up r g climbs) e =
      search_from-up part parent r g ∙ Climbs-found parent at cfg climbs e

  -- The settings that are found are those of the nearest directory, from the working directory up, that
  -- has any, as long as no directory below it is the top of a repository.
  load_local_repo_config_iff :
      (cwd : List String) (cfg : LocalRepoConfig)
      → (load_local_repo_config (ok cwd) ≡ some cfg)
        ↔ ((at : List String) × Climbs cwd at × (read at ≡ some cfg))
  unfolding load_local_repo_config
  load_local_repo_config_iff cwd cfg =
      (found-Climbs cwd cfg, λ (at, climbs, e). Climbs-found cwd at cfg climbs e)
