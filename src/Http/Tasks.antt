-- ===== src/Http/Tasks.antt =====
-- internal/http/handlers/tasks.go: the handlers of /tasks. A decoded body comes as what `decodeJSON`
-- returns; `none` as a response is the panic of `writeError` on nil.
pub mod Laws
use nexus_ai_gateway.Prelude.{ℕ, String, Bool, Option, none, some, List, ◌==◌, if◌then◌else◌}
use nexus_ai_gateway.Domain.Errors.{Err, nil, Code, new, Result, ok, err}
use nexus_ai_gateway.Domain.Tasks.{
  RemoteTask, new_remote_task, validate_task, task_completed, task_failed,
}
use nexus_ai_gateway.Storage.Tasks.{Table, create, get_by_id, claim, complete_task, list_pending}
use nexus_ai_gateway.Http.Response.{ErrorResponse, write_error}

pub data TaskReply : Type 0 where
  task_created : RemoteTask → TaskReply
  task_found : RemoteTask → TaskReply
  tasks_listed : List RemoteTask → TaskReply
  task_closed : String → TaskReply
  refused : ErrorResponse → TaskReply

pub record EnqueueBody : Type 0 where
  pub project_id : String
  pub prompt : String
  pub preset : String
  pub policy : String
  pub budget : ℕ

pub record CompleteBody : Type 0 where
  pub summary : String
  pub diff : String
  pub failed : Bool

reply_error : String → Err → Option TaskReply
reply_error request_id e = elim (write_error request_id e) [
  | none ↦ none
  | some r ↦ some (refused r)
]

after_create : String → RemoteTask → Err × Table → Option TaskReply × Table
unfolding reply_error
after_create request_id task (nil, rows) = (some (task_created task), rows)
after_create request_id task (e, rows) = (reply_error request_id e, rows)

store_valid : Err → String → RemoteTask → Err → Table → Option TaskReply × Table
unfolding after_create
store_valid fault request_id task nil rows = after_create request_id task (create fault task rows)
store_valid fault request_id task e rows = (reply_error request_id e, rows)

-- POST /
unfoldable pub enqueue :
    Err → String → String → ℕ → Result EnqueueBody → Table → Option TaskReply × Table
unfolding store_valid
enqueue fault request_id uuid now (err e) rows = (reply_error request_id e, rows)
enqueue fault request_id uuid now (ok body) rows =
    let task =
      new_remote_task uuid now body.project_id body.prompt body.preset body.policy body.budget in
    store_valid fault request_id task (validate_task task) rows

unfoldable pub listed_reply : String → Result Table → Option TaskReply
unfolding reply_error
listed_reply request_id (ok rows) = some (tasks_listed rows)
listed_reply request_id (err e) = reply_error request_id e

-- GET /pending
unfoldable pub pending : Err → String → String → Table → Option TaskReply
unfolding listed_reply
pending fault request_id project_id rows =
    if project_id == ""
    then reply_error request_id (new Code.bad_request "project_id parameter is required")
    else listed_reply request_id (list_pending fault project_id rows)

unfoldable pub row_reply : String → Result RemoteTask → Option TaskReply
unfolding reply_error
row_reply request_id (ok t) = some (task_found t)
row_reply request_id (err e) = reply_error request_id e

-- GET /{id}
unfoldable pub details : Err → String → String → Table → Option TaskReply
unfolding row_reply
details fault request_id id rows = row_reply request_id (get_by_id fault id rows)

-- POST /{id}/claim: a body that is no JSON leaves the worker empty.
unfoldable pub claim_task : Err → String → ℕ → String → String → Table → Option TaskReply × Table
unfolding row_reply
claim_task fault request_id now id worker_id rows =
    let worker = if worker_id == "" then "switchyard-cli-worker" else worker_id in
    let (answer, rows') = claim fault now id worker rows in (row_reply request_id answer, rows')

unfoldable pub closed_reply : String → String → Err → Option TaskReply
unfolding reply_error
closed_reply request_id status nil = some (task_closed status)
closed_reply request_id status e = reply_error request_id e

-- POST /{id}/complete
unfoldable pub close_task :
    Err → String → ℕ → String → Result CompleteBody → Table → Option TaskReply × Table
unfolding closed_reply
close_task fault request_id now id (err e) rows = (reply_error request_id e, rows)
close_task fault request_id now id (ok body) rows =
    let status = if body.failed then task_failed else task_completed in
    let (e, rows') = complete_task fault now id body.summary body.diff status rows in
    (closed_reply request_id status e, rows')
