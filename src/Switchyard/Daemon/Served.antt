-- ===== src/Switchyard/Daemon/Served.antt =====
-- internal/http/handlers/tasks.go as the daemon's gateway.
use nexus_ai_gateway.Prelude.{ℕ, String, Option, some, List, map}
use nexus_ai_gateway.Domain.Errors.{nil, plain, ok, err}
use nexus_ai_gateway.Domain.Tasks.{RemoteTask}
use nexus_ai_gateway.Storage.Tasks.{Table}
use nexus_ai_gateway.Http.Tasks.{
  TaskReply, task_found, tasks_listed, task_closed, refused, pending, claim_task, close_task,
}
use nexus_ai_gateway.Switchyard.Daemon.{RemoteTaskResponse, Answer, received, Gateway}

-- The fields of a task that its JSON gives to the daemon.
unfoldable pub sent_task : RemoteTask → RemoteTaskResponse
sent_task t = record {
  id = t.id;
  project_id = t.project_id;
  prompt = t.prompt;
  preset = t.preset;
  policy = t.policy;
  budget = t.budget;
  status = t.status;
}

-- The status of a reply, and the tasks of a list; a panic is answered with 500.
unfoldable pub listed_answer : Option TaskReply → Answer (List RemoteTaskResponse)
listed_answer (some (tasks_listed rows)) = received 200 (ok (map sent_task rows))
listed_answer (some (refused r)) = received r.status (err (plain "no tasks"))
listed_answer _ = received 500 (err (plain "no tasks"))

unfoldable pub status_answer : Option TaskReply → Answer Unit
status_answer (some (task_found t)) = received 200 (ok tt)
status_answer (some (task_closed s)) = received 200 (ok tt)
status_answer (some (refused r)) = received r.status (ok tt)
status_answer _ = received 500 (ok tt)

-- The handlers over a table, with the times of the claim and of the completion. No statement fails.
abbrev pub served : String → ℕ → ℕ → Gateway
served request_id claimed_at closed_at = record {
  State = Table;
  pending = λ project_id rows. listed_answer (pending nil request_id project_id rows);
  claim = λ id worker_id rows.
      let (reply, rows') = claim_task nil request_id claimed_at id worker_id rows in
      (status_answer reply, rows');
  complete = λ id summary diff failed rows.
      let (reply, rows') =
        close_task nil request_id closed_at id
          (ok (record { summary = summary; diff = diff; failed = failed })) rows in
      (status_answer reply, rows');
}
