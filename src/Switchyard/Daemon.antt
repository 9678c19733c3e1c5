-- ===== src/Switchyard/Daemon.antt =====
-- cmd/switchyard/daemon.go. What it prints is left out; what stands at a path is an argument, and
-- so is the gateway's answer to each of the calls.
pub mod Laws
pub mod Served
pub mod Relay
use nexus_ai_gateway.Prelude.{
  ℕ, String, ◌^◌, Bool, true, false, not, Option, none, some, List, [], ◌∷◌, ◌==◌, eqb,
  if◌then◌else◌, trim_end, decimal,
}
use nexus_ai_gateway.Config.{Env, getenv}
use nexus_ai_gateway.Domain.Errors.{Err, nil, plain, error_text, Result, ok, err}
use nexus_ai_gateway.Switchyard.Safety.{ExecutionPolicy, approve, parse_policy, Git}
use nexus_ai_gateway.Switchyard.Edits.{ProposedEdit, Files, Disk, World, apply_edits_with_policy}
use nexus_ai_gateway.Switchyard.Context.{Found, expand_prompt_context}
use nexus_ai_gateway.Switchyard.Parsing.{parse_proposed_edits}
use nexus_ai_gateway.Switchyard.Calls.{
  Credentials, ChatMessage, ChatCall, Exchange, ChatResult, send_chat_conversation,
}

-- The part of a task that the daemon decodes.
pub record RemoteTaskResponse : Type 0 where
  pub id : String
  pub project_id : String
  pub prompt : String
  pub preset : String
  pub policy : String
  pub budget : ℕ
  pub status : String

-- The base URL and the project of `StartDaemonWorker`.
unfoldable pub daemon_url : Option Credentials → String → String
daemon_url creds url =
    let stored : String = elim creds [ none ↦ "" | some c ↦ c.base_url ] in
    let chosen = if url == "" then stored else url in
    trim_end b'/' (if chosen == "" then "http://localhost:8080" else chosen)

unfoldable pub daemon_project : Option Credentials → String → Result String
daemon_project creds project_id =
    let stored : String = elim creds [ none ↦ "" | some c ↦ c.project_id ] in
    let chosen = if project_id == "" then stored else project_id in
    if chosen == ""
    then err (
        plain
          "project_id is required for daemon worker. Run 'switchyard login' first or pass -project <id>")
    else ok chosen

-- What comes of a call: no answer, or a status with what decoding the body gives.
pub data Answer (A : Type 0) : Type 0 where
  unreachable : Err → Answer A
  received : ℕ → Result A → Answer A

-- The gateway, with a state of its own.
pub record Gateway : Type 1 where
  pub State : Type 0
  -- GET /v1/tasks/pending, for a project
  pub pending : String → State → Answer (List RemoteTaskResponse)
  -- POST /v1/tasks/{id}/claim, for a worker
  pub claim : String → String → State → Answer Unit × State
  -- POST /v1/tasks/{id}/complete, with summary, diff and the mark of a failure
  pub complete : String → String → String → Bool → State → Answer Unit × State

unfoldable pub read_pending : Answer (List RemoteTaskResponse) → Result (List RemoteTaskResponse)
read_pending (unreachable e) = err e
read_pending (received code body) =
    if not (eqb code 200) then err (plain ("gateway returned status " ^ decimal code)) else body

-- The error of a call whose body is not read.
unfoldable pub read_status : String → Answer Unit → Err
read_status what (unreachable e) = e
read_status what (received code body) =
    if not (eqb code 200) then plain (what ^ decimal code) else nil

-- What the machine of the worker gives: credentials, variables, the transport of the chat, what stands at
-- the paths that prompts mention, the disk and Git.
pub record Worker : Type 0 where
  pub credentials : Option Credentials
  pub env : Env
  pub transport : ChatCall → Exchange
  pub stat : String → Found
  pub disk : Disk
  pub git : Git

pub record Outcome : Type 0 where
  pub summary : String
  pub diff : String
  pub failed : Bool

unfoldable pub worker_key : Worker → String
worker_key w =
    let plain_key = getenv w.env "SWITCHYARD_API_KEY" in
    if plain_key == "" then elim w.credentials [ none ↦ "" | some c ↦ c.api_key ] else plain_key

unfoldable pub worker_url : Worker → String
worker_url w =
    let plain_url = getenv w.env "SWITCHYARD_BASE_URL" in
    let stored : String = elim w.credentials [ none ↦ "" | some c ↦ c.base_url ] in
    let chosen = if plain_url == "" then stored else plain_url in
    if chosen == "" then "http://localhost:8080" else chosen

unfoldable pub diff_of : List ProposedEdit → String
diff_of [] = ""
diff_of (e ∷ es) =
    "--- "
    ^ (e.file_path ^ ("\n+++ " ^ (e.file_path ^ ("\n" ^ (e.new_text ^ ("\n\n" ^ diff_of es))))))

-- From what `ApplyEditsWithPolicy` returns.
unfoldable pub outcome_of : List ProposedEdit → World → List Err → Outcome
outcome_of edits w [] = record {
  summary =
      "Applied "
      ^ (decimal w.applied
          ^ (" file modifications cleanly (" ^ (decimal w.blocked ^ " blocked).")));
  diff = diff_of edits;
  failed = false;
}
outcome_of edits w (e ∷ _) = record {
  summary =
      "Applied "
      ^ (decimal w.applied
          ^ (" edits, " ^ (decimal w.blocked ^ (" blocked, error: " ^ error_text e))));
  diff = diff_of edits;
  failed = true;
}

-- What is done with the answer of the model.
unfoldable pub carry_out :
    Worker → ExecutionPolicy → String → List ProposedEdit → Files → List String → Outcome × Files
carry_out w policy content [] files answers =
    (record { summary = content; diff = ""; failed = false }, files)
carry_out w policy content (e ∷ es) files answers =
    let world = apply_edits_with_policy w.disk w.git policy (e ∷ es) files answers in
    (outcome_of (e ∷ es) world world.errs, world.files)

-- `none` for the edits is a parser out of fuel, which does not happen.
unfoldable pub with_edits :
    Worker
    → ExecutionPolicy
    → String
    → Option (List ProposedEdit)
    → Files
    → List String
    → Outcome × Files
with_edits w policy content none files answers =
    (record { summary = ""; diff = ""; failed = true }, files)
with_edits w policy content (some edits) files answers =
    carry_out w policy content edits files answers

unfoldable pub with_result :
    Worker → ExecutionPolicy → Result ChatResult → Files → List String → Outcome × Files
with_result w policy (err e) files answers =
    (record { summary = "Execution error: " ^ error_text e; diff = ""; failed = true }, files)
with_result w policy (ok r) files answers =
    with_edits w policy r.content (parse_proposed_edits r.content) files answers

-- `executeRemoteTaskLocally`, on the files and the lines typed at the terminal.
unfoldable pub execute_remote_task_locally :
    Worker → String → ExecutionPolicy → ℕ → String → Files → List String → Outcome × Files
execute_remote_task_locally w preset policy budget prompt files answers =
    with_result w policy
      (send_chat_conversation w.transport w.credentials w.env (worker_url w) (worker_key w) preset
        (record { role = "user"; content = (expand_prompt_context w.stat prompt).0 } ∷ []) true
        policy budget).0
      files answers

unfoldable pub policy_or_approve : Result ExecutionPolicy → ExecutionPolicy
policy_or_approve (ok policy) = policy
policy_or_approve (err _) = approve

-- Whether a task was executed, the error, and what is left.
pub record Polled (S : Type 0) : Type 0 where
  pub executed : Bool
  pub error : Err
  pub gateway : S
  pub files : Files

module _ (g : Gateway) (w : Worker) where
  open g use {State, pending, claim, complete}

  unfoldable pub run_task : String → RemoteTaskResponse → List String → Files → State → Polled State
  run_task worker_id task answers files s =
      let policy = policy_or_approve (parse_policy task.policy) in
      let (outcome, files') =
        execute_remote_task_locally w task.preset policy task.budget task.prompt files answers in
      let (reply, s') = complete task.id outcome.summary outcome.diff outcome.failed s in
      record {
        executed = true;
        error = read_status "complete failed status " reply;
        gateway = s';
        files = files';
      }

  unfoldable pub after_claim :
      String → RemoteTaskResponse → List String → Files → Err → State → Polled State
  after_claim worker_id task answers files nil s = run_task worker_id task answers files s
  after_claim worker_id task answers files e s = record {
    executed = false;
    error = e;
    gateway = s;
    files = files;
  }

  unfoldable pub poll_pending :
      String → List String → Files → State → Result (List RemoteTaskResponse) → Polled State
  poll_pending worker_id answers files s (err e) = record {
    executed = false;
    error = e;
    gateway = s;
    files = files;
  }
  poll_pending worker_id answers files s (ok []) = record {
    executed = false;
    error = nil;
    gateway = s;
    files = files;
  }
  poll_pending worker_id answers files s (ok (task ∷ _)) =
      let (reply, s') = claim task.id worker_id s in
      after_claim worker_id task answers files (read_status "claim failed status " reply) s'

  -- `PollAndExecuteSingleTask`
  unfoldable pub poll_and_execute_single_task :
      String → String → List String → Files → State → Polled State
  poll_and_execute_single_task project_id worker_id answers files s =
      poll_pending worker_id answers files s (read_pending (pending project_id s))
