-- ===== src/Examples/Tasks.antt =====
-- One task, claimed by one worker and wanted by another.
use nexus_ai_gateway.Prelude.{◌≡◌, refl, inl, [], ◌∷◌}
use nexus_ai_gateway.Domain.Errors.{nil, err_not_found, ok, err}
use nexus_ai_gateway.Domain.Tasks.{RemoteTask}
use nexus_ai_gateway.Storage.Tasks.{
  Table, claim, complete_task, scan_row, updated_row, is_claimable, set_claimed,
}
use nexus_ai_gateway.Storage.Rows.{stored_time}
use nexus_ai_gateway.Http.Tasks.{EnqueueBody}
use nexus_ai_gateway.Storage.Tasks.Laws.{step, stay, closed, claim-once}

abbrev task : RemoteTask
task = record {
  id = "task_1";
  project_id = "p1";
  prompt = "fix the build";
  preset = "auto";
  policy = "approve";
  budget = 0;
  status = "pending";
  result_summary = "";
  diff = "";
  claimed_by = "";
  created_at = 1;
  updated_at = 1;
}

abbrev after_claim : Table
after_claim = (claim nil 5123 "task_1" "w1" (task ∷ [])).1

first_claim :
    (claim nil 5123 "task_1" "w1" (task ∷ [])).0
    ≡ ok (record task { status = "running"; claimed_by = "w1"; updated_at = 5000 })
unfolding claim scan_row updated_row is_claimable set_claimed stored_time
first_claim = refl

claim-once_example :
    (claim nil 9 "task_1" "w2" (complete_task nil 7 "task_1" "done" "" "completed" after_claim).1).0
    ≡ err err_not_found
claim-once_example =
    claim-once 5123 9 "task_1" "w1" "w2"
      (record task { status = "running"; claimed_by = "w1"; updated_at = 5000 }) (task ∷ [])
      (complete_task nil 7 "task_1" "done" "" "completed" after_claim).1 first_claim
      (step (closed 7 "task_1" "done" "" "completed" after_claim (inl refl)) stay)

abbrev asked : EnqueueBody
asked = record { project_id = "p1"; prompt = "fix it"; preset = ""; policy = ""; budget = 0 }
