-- ===== src/Storage/Tasks/Pending.antt =====
-- What `ListPending` returns: the rows that wait, oldest first.
use nexus_ai_gateway.Prelude.{String, ◌≡◌, ◌≤◌, true, [], ◌∷◌, All}
use nexus_ai_gateway.Domain.Tasks.{RemoteTask}
use nexus_ai_gateway.Storage.Tasks.{Table, is_pending_of}

abbrev pub IsByTime : Table → Type 0
IsByTime [] = Unit
IsByTime (t ∷ rows) = All (λ u. t.created_at ≤ u.created_at) rows × IsByTime rows

module _ (project_id : String) where
  -- A row that waits for a worker of the project.
  abbrev pub Waits : RemoteTask → Type 0
  Waits t = is_pending_of project_id t ≡ true
