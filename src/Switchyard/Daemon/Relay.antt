-- ===== src/Switchyard/Daemon/Relay.antt =====
-- The daemon against the gateway's own handlers of /tasks: internal/http/handlers/tasks.go.
use nexus_ai_gateway.Prelude.{
  ℕ, String, ◌≡◌, ◌≢◌, refl, sym, ap, subst, Bool, true, false, some, List, [], ◌∷◌, ◌==◌, eq_refl,
  eq_false, arith, if◌then◌else◌, map, Bool-cases, inl, inr,
}
use nexus_ai_gateway.Domain.Errors.{nil, ok}
use nexus_ai_gateway.Domain.Tasks.{RemoteTask, task_completed, task_failed}
use nexus_ai_gateway.Storage.Tasks.{
  Table, find_task, scan_row, is_claimable, set_claimed, set_completed, update_where, updated_row,
  claim, complete_task, list_pending,
}
use nexus_ai_gateway.Http.Tasks.{
  task_found, task_closed, pending, listed_reply, row_reply, closed_reply, claim_task, close_task,
}
use nexus_ai_gateway.Switchyard.Edits.{Files}
use nexus_ai_gateway.Switchyard.Daemon.{
  read_pending, read_status, Worker, Outcome, execute_remote_task_locally, policy_or_approve,
  run_task, after_claim, poll_pending, poll_and_execute_single_task,
}
use nexus_ai_gateway.Switchyard.Daemon.Served.{sent_task, listed_answer, status_answer, served}
use nexus_ai_gateway.Switchyard.Safety.{parse_policy}

some-inj : {a b : RemoteTask} → some a ≡ some b → a ≡ b
some-inj h = cc

claimable :
    (id : String) (u : RemoteTask)
    → (u.id == id) ≡ true
    → (u.status == "pending") ≡ true
    → is_claimable id u ≡ true
unfolding is_claimable
claimable id u e p = ground arith

other-unclaimable :
    (id : String) (u : RemoteTask) → (u.id == id) ≡ false → is_claimable id u ≡ false
unfolding is_claimable
other-unclaimable id u e = ground arith

claimed_row :
    (f : RemoteTask → RemoteTask) (id : String) (t : RemoteTask) (rows : Table)
    → find_task id rows ≡ some t
    → (t.status == "pending") ≡ true
    → updated_row (is_claimable id) f rows ≡ some (f t)
unfolding find_task updated_row
claimed_row f id t [] h p = cc h
claimed_row f id t (u ∷ rows) h p = elim (Bool-cases (u.id == id)) [
  | inl e ↦
      let h' : some u ≡ some t = rw e at h in
      let p' = subst (λ x. (x.status == "pending") ≡ true) (sym (some-inj h')) p in
      rw (claimable id u e p') (ap (λ x. some (f x)) (some-inj h'))
  | inr e ↦
      let h' : find_task id rows ≡ some t = rw e at h in
      rw (other-unclaimable id u e) (claimed_row f id t rows h' p)
]

kept_id :
    (p : RemoteTask → Bool) (f : RemoteTask → RemoteTask) (u : RemoteTask)
    → (f u).id ≡ u.id
    → (if p u then f u else u).id ≡ u.id
kept_id p f u k = elim (Bool-cases (p u)) [ inl e ↦ rw e k | inr e ↦ rw e refl ]

found_row :
    (p : RemoteTask → Bool) (f : RemoteTask → RemoteTask) (id : String) (t : RemoteTask)
    (rows : Table)
    → ((u : RemoteTask) → (f u).id ≡ u.id)
    → find_task id rows ≡ some t
    → p t ≡ true
    → find_task id (update_where p f rows) ≡ some (f t)
unfolding find_task update_where
found_row p f id t [] k h q = cc h
found_row p f id t (u ∷ rows) k h q = rw (kept_id p f u (k u)) (elim (Bool-cases (u.id == id)) [
  | inl e ↦
      let h' : some u ≡ some t = rw e at h in
      let q' = subst (λ x. p x ≡ true) (sym (some-inj h')) q in
      rw (e, q') (ap (λ x. some (f x)) (some-inj h'))
  | inr e ↦ let h' : find_task id rows ≡ some t = rw e at h in rw e (found_row p f id t rows k h' q)
])

-- The task as the daemon leaves it.
abbrev pub closed_task : ℕ → ℕ → String → Outcome → RemoteTask → RemoteTask
closed_task claimed_at closed_at worker_id outcome t =
    set_completed closed_at outcome.summary outcome.diff
      (if outcome.failed then task_failed else task_completed) (set_claimed claimed_at worker_id t)

module _ (w : Worker) (request_id project_id worker_id : String) (claimed_at closed_at : ℕ) where
  -- What carrying out a task gives.
  abbrev pub work : RemoteTask → List String → Files → Outcome × Files
  work t answers files =
      execute_remote_task_locally w t.preset (policy_or_approve (parse_policy t.policy)) t.budget
        t.prompt files answers

  pending_step :
      (rows given : Table)
      → project_id ≢ ""
      → list_pending nil project_id rows ≡ ok given
      → read_pending (listed_answer (pending nil request_id project_id rows))
        ≡ ok (map sent_task given)
  unfolding read_pending listed_answer pending listed_reply
  pending_step rows given p listed = rw (pending, eq_false project_id "" p, listed) refl

  abbrev claimed_rows : RemoteTask → Table → Table
  claimed_rows t rows = update_where (is_claimable t.id) (set_claimed claimed_at worker_id) rows

  claim_step :
      (t : RemoteTask) (rows : Table)
      → worker_id ≢ ""
      → find_task t.id rows ≡ some t
      → (t.status == "pending") ≡ true
      → claim_task nil request_id claimed_at t.id worker_id rows
        ≡ (some (task_found (set_claimed claimed_at worker_id t)), claimed_rows t rows)
  unfolding claim_task claim row_reply scan_row
  claim_step t rows q found waits =
      rw
        (
          claim_task,
          eq_false worker_id "" q,
          claimed_row (set_claimed claimed_at worker_id) t.id t rows found waits,
        )
        refl

  claimed_found :
      (t : RemoteTask) (rows : Table)
      → find_task t.id rows ≡ some t
      → (t.status == "pending") ≡ true
      → find_task t.id (claimed_rows t rows) ≡ some (set_claimed claimed_at worker_id t)
  unfolding set_claimed
  claimed_found t rows found waits =
      found_row (is_claimable t.id) (set_claimed claimed_at worker_id) t.id t rows (λ u. refl) found
        (claimable t.id t (eq_refl t.id) waits)

  abbrev closed_rows : RemoteTask → Outcome → Table → Table
  closed_rows t o rows =
      update_where (λ u. u.id == t.id)
        (set_completed closed_at o.summary o.diff
          (if o.failed then task_failed else task_completed))
        rows

  completed :
      (t c : RemoteTask) (summary diff closed : String) (rows : Table)
      → find_task t.id rows ≡ some c
      → complete_task nil closed_at t.id summary diff closed rows
        ≡ (nil, update_where (λ u. u.id == t.id) (set_completed closed_at summary diff closed) rows)
  unfolding complete_task
  completed t c summary diff closed rows found = rw found refl

  close_step :
      (t c : RemoteTask) (o : Outcome) (rows : Table)
      → find_task t.id rows ≡ some c
      → close_task nil request_id closed_at t.id
          (ok (record { summary = o.summary; diff = o.diff; failed = o.failed }))
          rows
        ≡ (
          some (task_closed (if o.failed then task_failed else task_completed)),
          closed_rows t o rows,
        )
  unfolding close_task closed_reply
  close_step t c o rows found =
      rw
        (
          close_task,
          completed t c o.summary o.diff (if o.failed then task_failed else task_completed) rows
              found,
        )
        refl

  closed_found :
      (t c : RemoteTask) (o : Outcome) (rows : Table)
      → c.id ≡ t.id
      → find_task t.id rows ≡ some c
      → find_task t.id (closed_rows t o rows)
        ≡ some (
            set_completed closed_at o.summary o.diff
              (if o.failed then task_failed else task_completed)
              c)
  unfolding set_completed
  closed_found t c o rows e found =
      found_row (λ u. u.id == t.id)
        (set_completed closed_at o.summary o.diff
          (if o.failed then task_failed else task_completed))
        t.id c rows (λ u. refl) found (rw e (eq_refl t.id))

  -- Where no statement fails, the worker has a name, and the first task that the gateway lists for the
  -- project stands under its ID and is pending: one round of the daemon carries this task out once,
  -- and leaves it in the gateway's table under its ID, closed with the outcome in the worker's name.
  pub poll-closed_task :
      (t : RemoteTask) (rest rows : Table) (answers : List String) (files : Files)
      → project_id ≢ ""
      → worker_id ≢ ""
      → list_pending nil project_id rows ≡ ok (t ∷ rest)
      → find_task t.id rows ≡ some t
      → (t.status == "pending") ≡ true
      → let polled =
          poll_and_execute_single_task
            (served request_id claimed_at closed_at)
            w
            project_id
            worker_id
            answers
            files
            rows in
        (polled.executed ≡ true)
        × (polled.error ≡ nil)
        × (polled.files ≡ (work t answers files).1)
        × (find_task t.id polled.gateway
            ≡ some (closed_task claimed_at closed_at worker_id (work t answers files).0 t))
  unfolding poll_and_execute_single_task poll_pending after_claim run_task read_status status_answer
      sent_task set_claimed
  poll-closed_task t rest rows answers files p q listed found waits =
      let o = (work t answers files).0 in
      let c = claimed_found t rows found waits in
      rw
        (
          poll_and_execute_single_task,
          pending_step rows (t ∷ rest) p listed,
          claim_step t rows q found waits,
          close_step t (set_claimed claimed_at worker_id t) o (claimed_rows t rows) c,
        )
        (
          refl,
          refl,
          refl,
          closed_found t (set_claimed claimed_at worker_id t) o (claimed_rows t rows) refl c,
        )
