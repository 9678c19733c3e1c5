-- ===== src/Domain/Tasks.antt =====
-- internal/domain/task.go. The budget is a float that nothing computes with: its bit pattern stands
-- for it. Times are nanoseconds.
use nexus_ai_gateway.Prelude.{ℕ, String, ◌^◌, ◌==◌, if◌then◌else◌, trim_space}
use nexus_ai_gateway.Domain.Errors.{Err, nil, new, Code}

abbrev pub task_pending : String
task_pending = "pending"

abbrev pub task_running : String
task_running = "running"

abbrev pub task_completed : String
task_completed = "completed"

abbrev pub task_failed : String
task_failed = "failed"

pub record RemoteTask : Type 0 where
  pub id : String
  pub project_id : String
  pub prompt : String
  pub preset : String
  pub policy : String
  pub budget : ℕ
  pub status : String
  pub result_summary : String
  pub diff : String
  pub claimed_by : String
  pub created_at : ℕ
  pub updated_at : ℕ

unfoldable pub new_remote_task : String → ℕ → String → String → String → String → ℕ → RemoteTask
new_remote_task uuid now project_id prompt preset policy budget = record {
  id = "task_" ^ uuid;
  project_id = project_id;
  prompt = trim_space prompt;
  preset = if preset == "" then "auto" else preset;
  policy = if policy == "" then "approve" else policy;
  budget = budget;
  status = task_pending;
  result_summary = "";
  diff = "";
  claimed_by = "";
  created_at = now;
  updated_at = now;
}

unfoldable pub validate_task : RemoteTask → Err
validate_task t =
    if trim_space t.project_id == ""
    then new Code.bad_request "project_id is required"
    else if trim_space t.prompt == ""
    then new Code.bad_request "task prompt cannot be empty"
    else nil
