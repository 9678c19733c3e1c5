-- ===== src/Storage/Tasks.antt =====
-- internal/storage/postgres/task_repo.go: the table of tasks is a list of rows, and each statement one
-- step on it. `fault` is the error of the connection or the statement, a violated key included, and
-- nil where the statement runs.
pub mod Laws
pub mod Pending
use nexus_ai_gateway.Prelude.{
  ℕ, zero, suc, String, Bool, ◌&&◌, Option, none, some, List, [], ◌∷◌, ◌++◌, ◌==◌, leb,
  if◌then◌else◌,
}
use nexus_ai_gateway.Domain.Errors.{Err, nil, err_not_found, Result, ok, err}
use nexus_ai_gateway.Storage.Rows.{stored_time}
use nexus_ai_gateway.Domain.Tasks.{RemoteTask, task_pending, task_running}

abbrev pub Table : Type 0
Table = List RemoteTask

-- SELECT ... WHERE id = $1
unfoldable pub find_task : String → Table → Option RemoteTask
find_task id [] = none
find_task id (t ∷ rows) = if t.id == id then some t else find_task id rows

-- `scanRow`: no row is `ErrNotFound`.
unfoldable pub scan_row : Option RemoteTask → Result RemoteTask
scan_row none = err err_not_found
scan_row (some t) = ok t

-- The row that a task becomes.
unfoldable pub stored_task : RemoteTask → RemoteTask
stored_task t = record t {
  created_at = stored_time t.created_at;
  updated_at = stored_time t.updated_at;
}

-- `Create`
unfoldable pub create : Err → RemoteTask → Table → Err × Table
create nil t rows = (nil, rows ++ (stored_task t ∷ []))
create fault t rows = (fault, rows)

-- `GetByID`
unfoldable pub get_by_id : Err → String → Table → Result RemoteTask
get_by_id nil id rows = scan_row (find_task id rows)
get_by_id fault id rows = err fault

unfoldable pub is_claimable : String → RemoteTask → Bool
is_claimable id t = t.id == id && t.status == task_pending

-- The SET of the claim, and of the completion.
unfoldable pub set_claimed : ℕ → String → RemoteTask → RemoteTask
set_claimed now worker_id t = record t {
  status = task_running;
  claimed_by = worker_id;
  updated_at = stored_time now;
}

unfoldable pub set_completed : ℕ → String → String → String → RemoteTask → RemoteTask
set_completed now summary diff status t = record t {
  status = status;
  result_summary = summary;
  diff = diff;
  updated_at = stored_time now;
}

-- UPDATE ... WHERE, and its RETURNING row: the first one, as the key is unique.
unfoldable pub update_where : (RemoteTask → Bool) → (RemoteTask → RemoteTask) → Table → Table
update_where p f [] = []
update_where p f (t ∷ rows) = (if p t then f t else t) ∷ update_where p f rows

unfoldable pub updated_row :
    (RemoteTask → Bool) → (RemoteTask → RemoteTask) → Table → Option RemoteTask
updated_row p f [] = none
updated_row p f (t ∷ rows) = if p t then some (f t) else updated_row p f rows

-- `Claim`
unfoldable pub claim : Err → ℕ → String → String → Table → Result RemoteTask × Table
claim nil now id worker_id rows = (
  scan_row (updated_row (is_claimable id) (set_claimed now worker_id) rows),
  update_where (is_claimable id) (set_claimed now worker_id) rows,
)
claim fault now id worker_id rows = (err fault, rows)

-- `Complete`
unfoldable pub complete_task : Err → ℕ → String → String → String → String → Table → Err × Table
complete_task nil now id summary diff status rows = (
  elim (find_task id rows) [ none ↦ err_not_found | some _ ↦ nil ],
  update_where (λ t. t.id == id) (set_completed now summary diff status) rows,
)
complete_task fault now id summary diff status rows = (fault, rows)

unfoldable pub is_pending_of : String → RemoteTask → Bool
is_pending_of project_id t = t.project_id == project_id && t.status == task_pending

-- WHERE and ORDER BY created_at; rows of one time keep the order of the table.
unfoldable pub insert_by_time : RemoteTask → Table → Table
insert_by_time t [] = t ∷ []
insert_by_time t (u ∷ rows) =
    if leb t.created_at u.created_at then t ∷ u ∷ rows else u ∷ insert_by_time t rows

unfoldable pub pending_by_time : String → Table → Table
pending_by_time project_id [] = []
pending_by_time project_id (t ∷ rows) =
    let rest = pending_by_time project_id rows in
    if is_pending_of project_id t then insert_by_time t rest else rest

unfoldable pub first_rows : ℕ → Table → Table
first_rows zero rows = []
first_rows (suc n) [] = []
first_rows (suc n) (t ∷ rows) = t ∷ first_rows n rows

-- `ListPending`
unfoldable pub list_pending : Err → String → Table → Result Table
list_pending nil project_id rows = ok (first_rows 10 (pending_by_time project_id rows))
list_pending fault project_id rows = err fault
