-- ===== src/Switchyard/Edits/Laws.antt =====
-- cmd/switchyard/tools.go: which files the application of edits leaves alone.
use nexus_ai_gateway.Prelude.{
  String, ◌≡◌, refl, sym, ap, ◌∙◌, subst, Bool, true, false, none, some, Option, List, [], ◌∷◌,
  ◌==◌, eq_iff, Bool-cases, Option-cases, inl, inr, ◌⊎◌, ◌||◌, any, lookup, insert, lookup-insert,
  if◌then◌else◌, contains, to_lower, trim_space,
}
use mathlib.Core.Bool.{false≢true}
use nexus_ai_gateway.Domain.Errors.{Err, Result, ok, err}
use nexus_ai_gateway.Switchyard.Paths.{clean}
use nexus_ai_gateway.Switchyard.Safety.{
  ExecutionPolicy, explain, plan, approve, safe_auto, autopilot, is_protected_file, Git,
  create_git_checkpoint,
}
use nexus_ai_gateway.Switchyard.Edits.{
  ProposedEdit, Files, Disk, World, failed, written, write_edit, read_file, patch_edit,
  replace_first, next_answer, is_yes, agrees, should_apply, with_checkpoint, modify,
  apply_unblocked, is_safe_auto, apply_edit, apply_each, started, apply_edits_with_policy,
}

-- What keeps a protected file: a policy that writes no such file, or no answer that agrees.
abbrev pub Forbids : ExecutionPolicy → List String → Type 0
Forbids explain answers = Unit
Forbids plan answers = Unit
Forbids safe_auto answers = Unit
Forbids approve answers = any (λ a. is_yes (to_lower (trim_space a))) answers ≡ false
Forbids autopilot answers = ⊥

or_false : (a b : Bool) → a || b ≡ false → (a ≡ false) × (b ≡ false)
or_false true b h = cc
or_false false b h = (refl, h)

checkpoint_cases :
    (r : Result (Option String))
    → ((id : String) × (r ≡ ok (some id))) ⊎ ((r ≡ ok none) ⊎ ((e : Err) × (r ≡ err e)))
checkpoint_cases (ok (some id)) = inl (id, refl)
checkpoint_cases (ok none) = inr (inl refl)
checkpoint_cases (err e) = inr (inr (e, refl))

-- The file under a path, and the lines left to read, are as before.
abbrev Keeps : String → World → World → Type 0
Keeps q w w' = (lookup q w'.files ≡ lookup q w.files) × (w'.answers ≡ w.answers)

insert-other :
    (path q content : String) (files : Files)
    → (path == q) ≡ false
    → lookup q (insert path content files) ≡ lookup q files
insert-other path q content files h =
    lookup-insert path q content files ∙ ap (λ b. if b then some content else lookup q files) h

module _ (disk : Disk) (path q : String) (apart : (path == q) ≡ false) where
  written-Keeps :
      (message content : String) (w : World) → Keeps q w (written disk message path content w)
  unfolding written failed
  written-Keeps message content w = elim (Option-cases (disk.write_error path)) [
    | inl h ↦ rw (written, h) (insert-other path q content w.files apart, refl)
    | inr (e, h) ↦ elim (Option-cases (disk.torn path)) [
      | inl k ↦ rw (written, h, k) (refl, refl)
      | inr (r, k) ↦ rw (written, h, k) (insert-other path q r w.files apart, refl)
    ]
  ]

  write_edit-Keeps : (text : String) (w : World) → Keeps q w (write_edit disk path text w)
  unfolding write_edit failed
  write_edit-Keeps text w = elim (Option-cases (disk.make_parents path)) [
    | inl h ↦ rw (write_edit, h) (written-Keeps "failed writing " text w)
    | inr (e, h) ↦ rw (write_edit, h) (refl, refl)
  ]

  Read-cases : (r : Result String) → ((s : String) × (r ≡ ok s)) ⊎ ((e : Err) × (r ≡ err e))
  Read-cases (ok s) = inl (s, refl)
  Read-cases (err e) = inr (e, refl)

  patch_edit-Keeps : (old new : String) (w : World) → Keeps q w (patch_edit disk path old new w)
  unfolding patch_edit failed
  patch_edit-Keeps old new w = elim (Read-cases (read_file disk path w.files)) [
    | inl (content, h) ↦ elim (Bool-cases (contains content old)) [
      | inl k ↦
          rw (patch_edit, h, k)
            (written-Keeps "failed applying patch to " (replace_first content old new) w)
      | inr k ↦ rw (patch_edit, h, k) (refl, refl)
    ]
    | inr (e, h) ↦ rw (patch_edit, h) (refl, refl)
  ]

module _ (disk : Disk) (git : Git) (q : String) (guarded : is_protected_file q ≡ true) where
  modify-Keeps :
      (edit : ProposedEdit) (w : World)
      → is_protected_file (clean edit.file_path) ≡ false
      → Keeps q w (modify disk edit w)
  unfolding modify
  modify-Keeps edit w h =
      let apart : (clean edit.file_path == q) ≡ false =
        elim (Bool-cases (clean edit.file_path == q)) [
          | inl e ↦ absurd (
              false≢true
                (sym h ∙ ap is_protected_file ((eq_iff (clean edit.file_path) q).0 e) ∙ guarded))
          | inr e ↦ e
        ] in
      elim (Bool-cases (edit.action == "write")) [
        | inl e ↦ rw e (write_edit-Keeps disk (clean edit.file_path) q apart edit.new_text w)
        | inr e ↦
            rw e
              (patch_edit-Keeps disk (clean edit.file_path) q apart edit.old_text edit.new_text w)
      ]

  with_checkpoint-Keeps : (w : World) → Keeps q w (with_checkpoint git w)
  unfolding with_checkpoint
  with_checkpoint-Keeps w = elim (Bool-cases w.checkpoint_created) [
    | inl e ↦ rw (with_checkpoint, e) (refl, refl)
    | inr e ↦ elim (checkpoint_cases (create_git_checkpoint git)) [
      | inl (id, h) ↦ rw (with_checkpoint, e, h) (refl, refl)
      | inr (inl h) ↦ rw (with_checkpoint, e, h) (refl, refl)
      | inr (inr (x, h)) ↦ rw (with_checkpoint, e, h) (refl, refl)
    ]
  ]

  -- After one round the file is as before, and is still kept from the next one.
  abbrev Guarded : ExecutionPolicy → World → World → Type 0
  Guarded policy w w' = (lookup q w'.files ≡ lookup q w.files) × Forbids policy w'.answers

  Forbids-should_apply :
      (policy : ExecutionPolicy) (b : Bool) (answers : List String)
      → Forbids policy answers
      → Forbids policy (should_apply policy b answers).1
  unfolding should_apply next_answer
  Forbids-should_apply explain b answers h = tt
  Forbids-should_apply plan b answers h = tt
  Forbids-should_apply safe_auto b answers h = tt
  Forbids-should_apply approve b [] h = refl
  Forbids-should_apply approve b (a ∷ answers) h =
      (or_false (is_yes (to_lower (trim_space a)))
        (any (λ x. is_yes (to_lower (trim_space x))) answers) h).1
  Forbids-should_apply autopilot b answers h = h

  -- A protected file is not applied where the policy asks for it.
  should_apply-protected :
      (policy : ExecutionPolicy) (answers : List String)
      → Forbids policy answers
      → is_safe_auto policy ≡ false
      → (should_apply policy true answers).0 ≡ false
  unfolding should_apply next_answer agrees is_safe_auto is_yes
  should_apply-protected explain answers h n = refl
  should_apply-protected plan answers h n = refl
  should_apply-protected safe_auto answers h n = cc
  should_apply-protected approve [] h n = refl
  should_apply-protected approve (a ∷ answers) h n =
      (or_false (is_yes (to_lower (trim_space a)))
        (any (λ x. is_yes (to_lower (trim_space x))) answers) h).0
  should_apply-protected autopilot answers h n = absurd h

  apply_unblocked-Guarded :
      (policy : ExecutionPolicy) (edit : ProposedEdit) (w : World)
      → Forbids policy w.answers
      → (is_protected_file (clean edit.file_path) ≡ false) ⊎ (is_safe_auto policy ≡ false)
      → Guarded policy w (apply_unblocked disk git policy edit w)
  unfolding apply_unblocked
  apply_unblocked-Guarded policy edit w k why =
      elim (Bool-cases (is_protected_file (clean edit.file_path))) [
        | inl h ↦
            let n : is_safe_auto policy ≡ false = elim why [
              | inl f ↦ absurd (false≢true (sym f ∙ h))
              | inr n ↦ n
            ] in
            rw (h, should_apply-protected policy w.answers k n)
              (refl, Forbids-should_apply policy true w.answers k)
        | inr h ↦
            let k' = Forbids-should_apply policy false w.answers k in
            let w' = record w { answers = (should_apply policy false w.answers).1 } in
            let c = with_checkpoint-Keeps w' in
            let m = modify-Keeps edit (with_checkpoint git w') h in
            elim (Bool-cases (should_apply policy false w.answers).0) [
              | inl e ↦ rw (h, e) (m.0 ∙ c.0, subst (Forbids policy) (sym (m.1 ∙ c.1)) k')
              | inr e ↦ rw (h, e) (refl, k')
            ]
      ]

  apply_edit-Guarded :
      (policy : ExecutionPolicy) (edit : ProposedEdit) (w : World)
      → Forbids policy w.answers
      → Guarded policy w (apply_edit disk git policy edit w)
  unfolding apply_edit
  apply_edit-Guarded policy edit w k =
      elim (Bool-cases (is_protected_file (clean edit.file_path))) [
        | inl h ↦ elim (Bool-cases (is_safe_auto policy)) [
          | inl e ↦ rw (h, e) (refl, k)
          | inr e ↦ rw (h, e) (apply_unblocked-Guarded policy edit w k (inr e))
        ]
        | inr h ↦ rw h (apply_unblocked-Guarded policy edit w k (inl h))
      ]

  apply_each-keeps :
      (policy : ExecutionPolicy) (edits : List ProposedEdit) (w : World)
      → Forbids policy w.answers
      → lookup q (apply_each disk git policy edits w).files ≡ lookup q w.files
  unfolding apply_each
  apply_each-keeps policy [] w k = refl
  apply_each-keeps policy (edit ∷ edits) w k =
      let (f, k') = apply_edit-Guarded policy edit w k in
      apply_each-keeps policy edits (apply_edit disk git policy edit w) k' ∙ f

  -- Whatever edits a model proposes and whatever the disk does, a protected file is as before under the
  -- policies explain, plan and safe-auto, and under approve if no line that the user types is a yes.
  pub apply_edits_with_policy-keeps :
      (policy : ExecutionPolicy) (edits : List ProposedEdit) (files : Files) (answers : List String)
      → Forbids policy answers
      → lookup q (apply_edits_with_policy disk git policy edits files answers).files
        ≡ lookup q files
  unfolding apply_edits_with_policy started
  apply_edits_with_policy-keeps explain edits files answers k = refl
  apply_edits_with_policy-keeps plan edits files answers k = refl
  apply_edits_with_policy-keeps safe_auto edits files answers k =
      apply_each-keeps safe_auto edits (started files answers) k
  apply_edits_with_policy-keeps approve edits files answers k =
      apply_each-keeps approve edits (started files answers) k
  apply_edits_with_policy-keeps autopilot edits files answers k =
      apply_each-keeps autopilot edits (started files answers) k
