-- ===== src/Http/Tasks/Laws.antt =====
-- The handlers of /tasks, one after the other.
use nexus_ai_gateway.Prelude.{ℕ, String}
use nexus_ai_gateway.Domain.Tasks.{RemoteTask, new_remote_task}
use nexus_ai_gateway.Http.Tasks.{EnqueueBody}

module _ (uuid : String) (now : ℕ) (body : EnqueueBody) where
  -- The task that a body asks for.
  abbrev pub requested : RemoteTask
  requested =
      new_remote_task uuid now body.project_id body.prompt body.preset body.policy body.budget
