-- ===== src/Switchyard/Daemon/Laws.antt =====
-- What a remote task may do to the files of the worker.
use nexus_ai_gateway.Prelude.{
  String, ◌≡◌, refl, true, Option, none, some, List, [], ◌∷◌, All, lookup,
}
use nexus_ai_gateway.Domain.Errors.{Err, nil, domain, upstream, wrapped, plain, Result, ok, err}
use nexus_ai_gateway.Switchyard.Safety.{ExecutionPolicy, parse_policy, is_protected_file}
use nexus_ai_gateway.Switchyard.Edits.{ProposedEdit, Files}
use nexus_ai_gateway.Switchyard.Edits.Laws.{Forbids, apply_edits_with_policy-keeps}
use nexus_ai_gateway.Switchyard.Parsing.{parse_proposed_edits}
use nexus_ai_gateway.Switchyard.Calls.{ChatResult}
use nexus_ai_gateway.Switchyard.Daemon.{
  RemoteTaskResponse, Gateway, read_pending, Worker, carry_out, with_edits, with_result,
  execute_remote_task_locally, policy_or_approve, run_task, after_claim, poll_pending,
  poll_and_execute_single_task,
}

module _ (w : Worker) (q : String) (guarded : is_protected_file q ≡ true) where
  with_result-keeps :
      (policy : ExecutionPolicy) (r : Result ChatResult) (files : Files) (answers : List String)
      → Forbids policy answers
      → lookup q (with_result w policy r files answers).1 ≡ lookup q files
  unfolding with_result with_edits carry_out
  with_result-keeps policy (err e) files answers k = refl
  with_result-keeps policy (ok r) files answers k = found (parse_proposed_edits r.content)
    where
      found :
          (edits : Option (List ProposedEdit))
          → lookup q (with_edits w policy r.content edits files answers).1 ≡ lookup q files
      found none = refl
      found (some []) = refl
      found (some (e ∷ es)) =
          apply_edits_with_policy-keeps w.disk w.git q guarded policy (e ∷ es) files answers k

  module _ (g : Gateway) where
    open g use {State, pending, claim}

    -- The policy of a task, as the worker reads it.
    abbrev pub task_policy : RemoteTaskResponse → ExecutionPolicy
    task_policy t = policy_or_approve (parse_policy t.policy)

    after_claim-keeps :
        (worker_id : String) (t : RemoteTaskResponse) (answers : List String) (files : Files)
        (e : Err) (s : State)
        → Forbids (task_policy t) answers
        → lookup q (after_claim g w worker_id t answers files e s).files ≡ lookup q files
    unfolding after_claim run_task execute_remote_task_locally
    after_claim-keeps worker_id t answers files nil s k =
        with_result-keeps (task_policy t) _ files answers k
    after_claim-keeps worker_id t answers files (domain _ _ _ _) s k = refl
    after_claim-keeps worker_id t answers files (upstream _) s k = refl
    after_claim-keeps worker_id t answers files (wrapped _ _) s k = refl
    after_claim-keeps worker_id t answers files (plain _) s k = refl

    poll_pending-keeps :
        (worker_id : String) (answers : List String) (files : Files) (s : State)
        (listed : Result (List RemoteTaskResponse))
        → ((tasks : List RemoteTaskResponse)
            → listed ≡ ok tasks
            → All (λ t. Forbids (task_policy t) answers) tasks)
        → lookup q (poll_pending g w worker_id answers files s listed).files ≡ lookup q files
    unfolding poll_pending
    poll_pending-keeps worker_id answers files s (err e) k = refl
    poll_pending-keeps worker_id answers files s (ok []) k = refl
    poll_pending-keeps worker_id answers files s (ok (t ∷ ts)) k =
        after_claim-keeps worker_id t answers files _ _ (k (t ∷ ts) refl).0

    -- Whatever the gateway, the model and the disk answer, a round of the daemon leaves a protected file
    -- as it was, if the policy of each task that the gateway lists is explain, plan or safe-auto, or is
    -- approve or unknown and no line typed at the terminal is a yes.
    pub poll_and_execute_single_task-keeps :
        (project_id worker_id : String) (answers : List String) (files : Files) (s : State)
        → ((tasks : List RemoteTaskResponse)
            → read_pending (pending project_id s) ≡ ok tasks
            → All (λ t. Forbids (task_policy t) answers) tasks)
        → lookup q (poll_and_execute_single_task g w project_id worker_id answers files s).files
          ≡ lookup q files
    unfolding poll_and_execute_single_task
    poll_and_execute_single_task-keeps project_id worker_id answers files s k =
        poll_pending-keeps worker_id answers files s (read_pending (pending project_id s)) k
